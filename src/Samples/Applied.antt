-- ===== src/Samples/Applied.antt =====
-- The theorems at the run of Samples.
use rebuno.Prelude.{
  All, List, String, [], drop, false, inl, length, limit_to, none, refl, some, string_eq, true, ℕ,
  ℕ_eq, ◌+◌, ◌∷◌, ◌≡◌, ◌≤◌, ◌⊎◌,
}
use rebuno.Action.{err, ok}
use rebuno.Action.Always.{Always}
use rebuno.Auth.{Access, Role, authorize}
use rebuno.Auth.Roles.{authorize-ordered}
use rebuno.Domain.Json.{empty, is_empty, json, null}
use rebuno.Domain.Records.{
  Approval, Dispatch, Err, EventRecord, Execution, Lease, ResourceCheckpoint, Step, StepDecision,
  Time, Uuid, allows_approver, covers, lease_superseded,
}
use rebuno.Domain.Status.{DispatchStatus, ExecutionStatus, is_undecided}
use rebuno.Kernel.Approval.{approval_decider, approver_matcher, deny_approval, grant_approval}
use rebuno.Kernel.Approval.Decided.{decided_approval_stands, decision_by_approver}
use rebuno.Kernel.Retried.{indeterminate_retry_denied}
use rebuno.Kernel.Retention.{
  LifeReach, Reach-lives, Until, and_then, begin, cleans, ended_execution_stands,
  settled_step_stands,
}
use rebuno.Kernel.Sweeps.{cleanup}
use rebuno.Memstore.Retained.{is_swept}
use rebuno.Kernel.Env.{release_dispatches}
use rebuno.Kernel.Fenced.{NoLease, complete-fences, suspend-fences}
use rebuno.Kernel.Reach.{
  Reach, admits, completes_step, creates, reachable-IsNumbered, reachable-QueueInv,
  reachable-SessionInv, reachable-StepsKeyed, start, then_step,
}
use rebuno.Kernel.Released.{release_dispatches-fences}
use rebuno.Kernel.Replay.{complete_step_once}
use rebuno.Kernel.Resource.{select_resource}
use rebuno.Kernel.Resource.Selection.{chosen, select_resource-eq-best}
use rebuno.Kernel.Step.{complete_step, no_decision}
use rebuno.Memstore.Dispatches.{claim, claimed, is_due, renew_lease}
use rebuno.Memstore.Dispatches.Fence.{OnlyLease, claim-OnlyLease, claim_effect}
use rebuno.Memstore.Dispatches.Locked.{QueueInv}
use rebuno.Memstore.Events.{append_batch, get_events, get_latest_sequence, log}
use rebuno.Memstore.Events.Log.{
  IsNumbered, append_batch-IsNumbered, get_events-eq-drop, latest-eq-length,
}
use rebuno.Memstore.Executions.{queued_in, update_execution_status}
use rebuno.Memstore.Executions.Admission.{next_pending-least}
use rebuno.Memstore.Executions.Ending.{SameEnding}
use rebuno.Memstore.Executions.Session.{SessionInv, update_execution_status-SessionInv}
use rebuno.Memstore.Steps.{upsert}
use rebuno.Memstore.Steps.Outcome.{KeepsOutcomes, SameOutcome, upsert-KeepsOutcomes}
use rebuno.Memstore.Store.{Store, new_store}
use rebuno.Prelude.Dict.{lookup}
use rebuno.Samples.{
  after_admit, after_complete, after_create, after_step, after_submit, at_time, no_usage, paid,
  run_completed, run_submitted, sample_env, sample_execution, sample_lease, sample_request,
  sample_result, sample_services,
}
use rebuno.Samples.Facts.{
  after_complete_tx, after_grant, after_hold, after_refusal, after_retry, after_spawn,
  after_suspend, approval_granted, child_execution, completed_execution, completed_tx,
  ended_execution, executing_step, first_waiting, granted_approval, granted_once, next_waiting,
  no_comment, failed_step, retry_execution, retry_failed, retry_new, paid_step, recorded_step,
  refusal_decision, refused_again, running_execution, step_recorded, suspended, two_waiting,
}

run_spawned : Reach sample_env new_store after_spawn
run_spawned = then_step run_submitted (creates (at_time 41) child_execution after_submit)

run_stepped : Reach sample_env new_store after_step
run_stepped =
    then_step run_submitted
      (completes_step (at_time 50) no_usage "first" (sample_result paid) after_submit)

queue_after_admit : QueueInv after_admit
queue_after_admit = reachable-QueueInv sample_env after_admit (
    then_step (then_step start (creates (at_time 10) (sample_execution 1 "chat") new_store))
      (admits (at_time 20) "chat" after_create))

completed_and_cleaned : LifeReach sample_env after_step (cleanup 30 (at_time 90) after_complete).1
completed_and_cleaned =
    and_then (Reach-lives sample_env run_completed) (cleans 30 (at_time 90) after_complete)

abbrev two_records : List EventRecord
two_records =
    record { type = "first"; payload = empty } ∷ record { type = "second"; payload = paid } ∷ []

abbrev sample_dispatch : Dispatch
sample_dispatch = record {
  id = 100;
  execution_id = 1;
  status = DispatchStatus.pending;
  attempt = 0;
  max_attempts = 3;
  next_attempt_at = 20;
  locked_by = none;
  locked_at = none;
  created_at = 20;
  updated_at = 20;
}

abbrev sample_checkpoint : ℕ → String → ℕ → ResourceCheckpoint
sample_checkpoint covered ref invalidated_at = record {
  execution_id = 1;
  key = "files";
  generation = 1;
  ref = ref;
  covered_seq = covered;
  invalidated_seq = invalidated_at;
}

-- The newer checkpoint is out of date at event 9, the older one is not.
abbrev two_checkpoints : List ResourceCheckpoint
two_checkpoints = sample_checkpoint 4 "older" 0 ∷ sample_checkpoint 6 "newer" 8 ∷ []

abbrev writers_only : Access
writers_only = some (("agent", (Role.write, "service:key" ∷ []) ∷ []) ∷ [])

-- The executions that ended over 30 ago are cleaned up.
abbrev after_cleanup : Store
after_cleanup = (cleanup 30 (at_time 90) after_complete).1

settled_step_stands_example :
    Until sample_env
      (λ u. (step' : Step) × (lookup "first" u.steps ≡ some step') × SameOutcome paid_step step')
      (λ before u v.
        (step' : Step) × (lookup "first" u.steps ≡ some step')
        × (is_swept before u step'.execution_id ≡ true)
        × (lookup "first" v.steps ≡ none))
      after_step
      after_cleanup
settled_step_stands_example =
    settled_step_stands sample_env after_step after_cleanup completed_and_cleaned "first" paid_step
      recorded_step refl

-- The execution has completed, and is cleaned up.
ended_execution_stands_example :
    Until sample_env
      (λ u. (f : Execution) × (lookup 1 u.executions ≡ some f) × SameEnding ended_execution f)
      (λ before u v. (is_swept before u 1 ≡ true) × (lookup 1 v.executions ≡ none))
      after_complete
      after_cleanup
ended_execution_stands_example =
    ended_execution_stands sample_env after_complete after_cleanup
      (and_then begin (cleans 30 (at_time 90) after_complete)) 1 ended_execution completed_execution
      refl

-- The step is completed once more, with another result, after the execution has completed.
complete_step_once_example :
    ((complete_step sample_env
        (at_time 70)
        no_usage
        "first"
        (sample_result (json null))
        after_complete).1
      ≡ after_complete)
    × ((dec : StepDecision)
        → (complete_step sample_env
            (at_time 70)
            no_usage
            "first"
            (sample_result (json null))
            after_complete).0
          ≡ ok dec
        → (dec ≡ record no_decision { decision = "execution_terminal" })
          ⊎ (dec ≡ record no_decision { decision = "replay"; result = paid }))
complete_step_once_example =
    complete_step_once sample_env (at_time 50) no_usage "first" (sample_result paid) after_submit
      after_step after_complete (record no_decision { decision = "recorded" })
      (reachable-StepsKeyed sample_env after_submit run_submitted) step_recorded refl run_completed
      (at_time 70) (sample_result (json null))

indeterminate_retry_denied_example : refusal_decision.decision ≡ "denied"
indeterminate_retry_denied_example =
    indeterminate_retry_denied sample_env (at_time 46) sample_services running_execution
      (sample_request "at_most_once") "first" failed_step after_retry after_refusal refusal_decision
      retry_execution refl refl retry_failed
      (record { execution = refl; kind = refl; target = refl; failed = refl; unknown = refl }) refl
      refl retry_new refused_again

release_dispatches-fences_example :
    (t : Store) × (release_dispatches sample_env (at_time 60) 1 after_submit ≡ (ok tt, t))
    × ((lease : Lease) (at : Time) → (renew_lease 1 lease at t).0 ≡ err lease_superseded)
release_dispatches-fences_example =
    release_dispatches-fences sample_env (at_time 60) 1 after_submit
      (reachable-QueueInv sample_env after_submit run_submitted).queued

suspend-fences_example : NoLease 1 after_suspend
suspend-fences_example =
    suspend-fences sample_env (at_time 42) 1 sample_lease after_spawn after_suspend
      (reachable-QueueInv sample_env after_spawn run_spawned) suspended

complete-fences_example :
    NoLease 1 after_complete_tx
    × ((f : Execution) × (lookup 1 after_complete_tx.executions ≡ some f)
        × (f.status ≡ ExecutionStatus.completed)
        × (is_empty paid ≡ false → f.output ≡ paid))
complete-fences_example =
    complete-fences sample_env (at_time 60) 1 sample_lease paid empty after_step after_complete_tx
      running_execution (reachable-QueueInv sample_env after_step run_stepped) completed_tx

-- The approval is granted, and then granted and denied again.
decided_approval_stands_example :
    ((e : Err) × (grant_approval sample_env (at_time 55) 101 no_comment after_grant
        ≡ (err e, after_grant)))
    × ((e : Err) × (deny_approval sample_env (at_time 55) 101 no_comment after_grant
          ≡ (err e, after_grant)))
decided_approval_stands_example =
    decided_approval_stands sample_env (at_time 55) 101 no_comment after_grant granted_approval
      approval_granted refl

decision_by_approver_example :
    (a : Approval) × (who : String × String) × (lookup 101 after_hold.approvals ≡ some a)
    × (is_undecided a.status ≡ true)
    × (approval_decider (at_time 50) "" ≡ ok who)
    × (allows_approver a (approver_matcher (at_time 50) who.0 who.1) ≡ true)
decision_by_approver_example =
    decision_by_approver sample_env (at_time 50) 101 no_comment after_hold after_grant
      (inl granted_once)

next_pending-least_example :
    (queued_in "chat" 15 first_waiting ≡ true)
    × ((id : Uuid) (x : Execution)
        → lookup id two_waiting.executions ≡ some x
        → queued_in "chat" 15 x ≡ true
        → 1 ≤ x.id)
next_pending-least_example = next_pending-least "chat" 15 two_waiting first_waiting next_waiting

get_events-eq-drop_example : get_events 1 2 2 after_step ≡ limit_to 2 (drop 2 (log after_step 1))
get_events-eq-drop_example =
    get_events-eq-drop 1 2 2 after_step (reachable-IsNumbered sample_env after_step run_stepped)

latest-eq-length_example : get_latest_sequence 1 after_step ≡ length (log after_step 1)
latest-eq-length_example =
    latest-eq-length 1 after_step (reachable-IsNumbered sample_env after_step run_stepped)

append_batch-IsNumbered_example : IsNumbered (append_batch (at_time 70) 1 two_records after_step).1
append_batch-IsNumbered_example =
    append_batch-IsNumbered (at_time 70) 1 two_records after_step
      (reachable-IsNumbered sample_env after_step run_stepped)

update_execution_status-SessionInv_example :
    SessionInv
      (update_execution_status (at_time 70) 1 ExecutionStatus.blocked empty "" after_submit).1
update_execution_status-SessionInv_example =
    update_execution_status-SessionInv (at_time 70) 1 ExecutionStatus.blocked empty "" after_submit
      (reachable-SessionInv sample_env after_submit run_submitted)

upsert-KeepsOutcomes_example : Always KeepsOutcomes (upsert executing_step)
upsert-KeepsOutcomes_example = upsert-KeepsOutcomes executing_step

claim-OnlyLease_example :
    (claimed_now : List Dispatch) × ((claim "replica-1" 8 30 after_admit).0 ≡ ok claimed_now)
    × All
        (λ c.
          OnlyLease (claim "replica-1" 8 30 after_admit).1 c
          × ((d : Dispatch) × (lookup c.id after_admit.dispatches ≡ some d)
              × (c.attempt ≡ d.attempt + 1)))
        claimed_now
claim-OnlyLease_example = claim-OnlyLease "replica-1" 8 30 after_admit queue_after_admit.queued

claim_effect_example :
    (lookup 100 (claim "replica-1" 8 30 after_admit).1.dispatches
      ≡ lookup 100 after_admit.dispatches)
    ⊎ ((d : Dispatch) × (lookup 100 after_admit.dispatches ≡ some d)
        × (is_due 30 d ≡ true)
        × (lookup 100 (claim "replica-1" 8 30 after_admit).1.dispatches
            ≡ some (claimed "replica-1" 30 d)))
claim_effect_example = claim_effect "replica-1" 8 30 after_admit 100 queue_after_admit.queued

select_resource-eq-best_example :
    select_resource two_checkpoints "files" 9 ≡ chosen 9 (sample_checkpoint 4 "older" 0)
unfolding covers
select_resource-eq-best_example = select_resource-eq-best two_checkpoints "files" 9

authorize-ordered_example :
    (authorize writers_only (at_time 10) Role.write "agent" ≡ ok tt
      → authorize writers_only (at_time 10) Role.read "agent" ≡ ok tt)
    × (authorize writers_only (at_time 10) Role.admin "agent" ≡ ok tt
        → authorize writers_only (at_time 10) Role.write "agent" ≡ ok tt)
authorize-ordered_example = authorize-ordered writers_only (at_time 10) Role.write "agent"
