-- ===== src/Samples/Facts.antt =====
-- What the run of Samples comes to.
use rebuno.Prelude.{
  any, contains, filter, find, insert_sorted, limit_to, none, refl, some, sort, string_eq, true,
  ℕ_eq, ◌≡◌,
}
use rebuno.Action.{
  caught, for_each, modify, of_result, ok, or_raise, pure, raise, reads, refuse_if, ◌>>=◌,
}
use rebuno.Auth.{
  allows, authorize, caller_identity, caller_matches, cut_prefix, grants, has_scope, identity,
  match_principal, principal_matches,
}
use rebuno.Domain.Json.{
  Items, arr, empty, json, marshal_strings, member, string_items, unmarshal_strings,
}
use rebuno.Domain.Payload.{
  step_payload, step_decided_payload, step_result_payload, step_error_payload, step_denied_payload,
  execution_payload, approval_payload, dispatch_payload,
}
use rebuno.Domain.Records.{
  Approval, Execution, Step, StepDecision, allows_approver, covers, is_valid, subject,
}
use rebuno.Domain.Status.{ApprovalStatus, ExecutionStatus, StepStatus}
use rebuno.Kernel.Approval.{
  DecisionRequest, approval_decider, approver_matcher, decision_guard, deny_approval, deny_tx,
  expire_approval, expire_tx, grant_approval, grant_tx,
}
use rebuno.Kernel.Decision.{
  allow_step, decide_step, deny_step, hold_step, park_rate_limited, refuse_rate_limited,
  write_step_live,
}
use rebuno.Kernel.Env.{
  authorized_execution, enqueue_dispatch, heartbeat, new_uuid, release_dispatch, release_dispatches,
  renew_authorized_lease,
}
use rebuno.Kernel.Execution.{
  admit_next, adopt_head, inherit_from, inherit_session_resources, register_resource_tx,
  release_session, settle_parent_step, settle_parent_tx, start_execution,
}
use rebuno.Kernel.Policy.{
  Services, budget_usage, budgeted, indeterminate_retry, proposed_step, undeclared,
}
use rebuno.Kernel.Resource.{
  find_resource, record_captures, record_each, refusal, select_from, select_resource, settle_effect,
  touch_resources, touched_resources, writing_keys,
}
use rebuno.Kernel.Step.{
  approval_of, complete_step, fail_step, fail_step_internal, handle_existing_step, handle_status,
  indeterminate_error, no_decision, record_start, settle_step, settle_step_recorded, start_step,
  step_error, with_generations,
}
use rebuno.Kernel.Submit.{
  decide_new, decide_submitted, decide_within_budget, occurrence_key, on_rate_limited,
  record_step_decision, submit_fenced, submit_step,
}
use rebuno.Kernel.Suspend.{
  awaiting_steps, block, executing_steps, resume, resume_if_idle, subagents, subagents_from,
  suspend,
}
use rebuno.Kernel.Sweeps.{cleanup}
use rebuno.Kernel.Terminal.{
  after_terminal, cancel_execution, cancel_expired_executions, cancel_from, cancel_step, cancel_tx,
  client_cancel, complete_execution, complete_tx, expire_approvals, expire_pending, fail_execution,
  fail_tx, finish_tx, settle_subagents,
}
use rebuno.Memstore.Approvals.{
  create_approval, get_approval, list_expired_approvals, list_pending_approvals,
  list_pending_approvals_by_execution, update_approval,
}
use rebuno.Memstore.Cleanup.{delete_each, delete_executions_created_before, keep_values, map_values}
use rebuno.Memstore.Dispatches.{
  ack, claim, claim_each, claim_one, due_dispatches, enqueue, get_dispatch, lease_timeout_of,
  list_dispatches_by_execution, reclaim_each, reclaim_stalled, renew_lease, retire,
  stalled_dispatches,
}
use rebuno.Memstore.Events.{
  append, append_batch, append_from, append_locked, append_refusal, count_by_type, events_after,
  get_events, get_latest_sequence, last_seq, next_seq,
}
use rebuno.Memstore.Executions.{
  create_execution, execution_state, first_id, get_execution, last_id, list_executions,
  list_expired_executions, list_unsettled_subagents, matches_filter, newest_id,
  next_pending_in_session, session_head, set_execution_parent, set_execution_state,
  update_execution_status,
}
use rebuno.Memstore.Resources.{
  add_checkpoint, invalidate_checkpoints, list_checkpoints, list_resources, put_in, put_resource,
}
use rebuno.Memstore.Steps.{
  advance_dispatch_occurrence, check_lease, clear_counters, dispatch_occurrence, execution_usage,
  get_step, list_allowed_steps, list_by_execution, session_usage, sum_usage, upsert,
}
use rebuno.Memstore.Store.{Store, counter_key_eq, new_store}
use rebuno.Prelude.Dict.{delete, insert, lookup, values}
use rebuno.Samples.{
  after_claim, after_complete, after_step, after_submit, allow_all, at_time, no_usage, paid,
  sample_env, sample_execution, sample_lease, sample_request, sample_result, sample_services,
}

abbrev pub running_execution : Execution
running_execution = record (sample_execution 1 "chat") {
  status = ExecutionStatus.running;
  created_at = 10;
  updated_at = 20;
}

abbrev pub executing_step : Step
executing_step = record (proposed_step 1 "first" (sample_request "at_most_once") "hash" 0) {
  status = StepStatus.executing;
  started_at = some 40;
}

abbrev pub paid_step : Step
paid_step = record executing_step {
  status = StepStatus.succeeded;
  result = paid;
  completed_at = some 50;
}

abbrev pub ended_execution : Execution
ended_execution = record running_execution {
  status = ExecutionStatus.completed;
  output = paid;
  updated_at = 60;
}

-- A later dispatch finds the step executing.
abbrev pub unknown_outcome : StepDecision
unknown_outcome = record no_decision { decision = "replay"; error = indeterminate_error }

abbrev pub after_retry : Store
after_retry =
    (handle_existing_step sample_env (at_time 45) executing_step sample_lease "at_most_once"
      after_submit).1

-- The same effect is submitted again.
abbrev pub failed_step : Step
failed_step = record executing_step {
  status = StepStatus.failed;
  error = indeterminate_error;
  completed_at = some 45;
}

abbrev pub refusal_decision : StepDecision
refusal_decision = record no_decision {
  decision = "denied";
  reason = "prior attempt outcome unknown; retry refused";
  rule_id = "__indeterminate_retry";
  step_id = "later";
}

abbrev pub after_refusal : Store
after_refusal =
    (submit_step sample_env (at_time 46) sample_services 1 (sample_request "at_most_once")
      after_retry).1

-- The step has started a subagent, which the execution waits for.
abbrev pub child_execution : Execution
child_execution = record (sample_execution 2 "") {
  spawned_by = some (record { execution_id = 1; step_id = "first" });
}

abbrev pub after_spawn : Store
after_spawn = (create_execution (at_time 41) child_execution after_submit).1

abbrev pub after_suspend : Store
after_suspend = (suspend sample_env (at_time 42) 1 sample_lease after_spawn).1

abbrev pub after_complete_tx : Store
after_complete_tx = (complete_tx sample_env (at_time 60) 1 sample_lease paid empty after_step).1

-- A step that waits for an approval.
abbrev pub cautious_services : Services
cautious_services = record sample_services {
  evaluate = λ exec req s. ok (record allow_all { decision = "require_approval" });
}

abbrev pub after_hold : Store
after_hold =
    (submit_step sample_env (at_time 40) cautious_services 1 (sample_request "at_most_once")
      after_claim).1

abbrev pub no_comment : DecisionRequest
no_comment = record { decided_by = ""; rationale = "" }

abbrev pub after_grant : Store
after_grant = (grant_approval sample_env (at_time 50) 101 no_comment after_hold).1

abbrev pub granted_approval : Approval
granted_approval = record {
  id = 101;
  step_id = "first";
  execution_id = 1;
  status = ApprovalStatus.granted;
  approvers = json (arr Items.nil);
  message = "";
  timeout_at = 940;
  decided_by = "agent:agent";
  asserted_by = "";
  decided_at = some 50;
  rationale = "";
  created_at = 40;
}

-- Two executions wait in a session.
abbrev pub two_waiting : Store
two_waiting =
    (create_execution (at_time 12) (sample_execution 1 "chat")
      (create_execution (at_time 11) (sample_execution 2 "chat") new_store).1).1

abbrev pub first_waiting : Execution
first_waiting = record (sample_execution 1 "chat") { created_at = 12; updated_at = 12 }

-- All of it, computed.
computed :
    (lookup 1 after_submit.executions ≡ some running_execution)
    × (lookup "first" after_submit.steps ≡ some executing_step)
    × (complete_step sample_env (at_time 50) no_usage "first" (sample_result paid) after_submit
        ≡ (ok (record no_decision { decision = "recorded" }), after_step))
    × (lookup "first" after_step.steps ≡ some paid_step)
    × (lookup 1 after_complete.executions ≡ some ended_execution)
    × (handle_existing_step sample_env
          (at_time 45)
          executing_step
          sample_lease
          "at_most_once"
          after_submit
        ≡ (ok unknown_outcome, after_retry))
    × ((lookup "first" after_retry.steps ≡ some failed_step)
        × (lookup 1 after_retry.executions ≡ some running_execution)
        × (lookup
              (sample_services.step_id 1 executing_step.kind executing_step.target "hash" (
                dispatch_occurrence
                  (occurrence_key sample_env
                    (at_time 46)
                    sample_services
                    (sample_request "at_most_once")
                    "hash")
                  after_retry))
              after_retry.steps
            ≡ none)
        × (lookup 1 (cleanup 30 (at_time 90) after_submit).1.executions ≡ some running_execution))
    × (submit_step sample_env
          (at_time 46)
          sample_services
          1
          (sample_request "at_most_once")
          after_retry
        ≡ (ok refusal_decision, after_refusal))
    × (suspend sample_env (at_time 42) 1 sample_lease after_spawn ≡ (ok true, after_suspend))
    × (complete_tx sample_env (at_time 60) 1 sample_lease paid empty after_step
        ≡ (ok running_execution, after_complete_tx))
    × (grant_approval sample_env (at_time 50) 101 no_comment after_hold ≡ (ok tt, after_grant))
    × (lookup 101 after_grant.approvals ≡ some granted_approval)
    × (next_pending_in_session "chat" 15 two_waiting ≡ ok first_waiting)
unfolding cleanup delete_executions_created_before delete_each keep_values map_values filter any
    find insert_sorted sort limit_to contains values lookup insert delete or_raise pure raise reads
    of_result caught modify ◌>>=◌ refuse_if for_each grants cut_prefix match_principal identity
    caller_identity has_scope principal_matches caller_matches allows authorize member string_items
    unmarshal_strings marshal_strings subject allows_approver is_valid covers matches_filter last_id
    list_executions create_execution get_execution update_execution_status list_expired_executions
    first_id next_pending_in_session newest_id session_head set_execution_parent set_execution_state
    execution_state list_unsettled_subagents upsert get_step dispatch_occurrence clear_counters
    check_lease advance_dispatch_occurrence list_by_execution sum_usage execution_usage
    session_usage list_allowed_steps last_seq get_latest_sequence next_seq append_refusal
    step_payload step_decided_payload step_result_payload step_error_payload step_denied_payload
    execution_payload approval_payload dispatch_payload append_locked append append_from
    append_batch events_after get_events count_by_type enqueue claim_one claim_each due_dispatches
    claim ack retire get_dispatch list_dispatches_by_execution renew_lease lease_timeout_of
    reclaim_each stalled_dispatches reclaim_stalled create_approval get_approval update_approval
    list_pending_approvals list_pending_approvals_by_execution list_expired_approvals put_in
    put_resource list_resources add_checkpoint list_checkpoints invalidate_checkpoints new_uuid
    authorized_execution renew_authorized_lease enqueue_dispatch release_dispatch release_dispatches
    heartbeat find_resource touched_resources touch_resources settle_effect writing_keys refusal
    record_each record_captures select_from select_resource subagents_from subagents executing_steps
    awaiting_steps resume resume_if_idle block suspend step_error with_generations record_start
    start_step settle_step settle_step_recorded fail_step_internal approval_of handle_status
    handle_existing_step complete_step fail_step indeterminate_retry undeclared budget_usage
    budgeted write_step_live allow_step deny_step hold_step decide_step refuse_rate_limited
    park_rate_limited on_rate_limited decide_within_budget record_step_decision decide_new
    decide_submitted submit_fenced submit_step approval_decider approver_matcher grant_tx deny_tx
    expire_tx decision_guard grant_approval deny_approval expire_approval register_resource_tx
    inherit_from inherit_session_resources adopt_head start_execution admit_next release_session
    settle_parent_tx settle_parent_step finish_tx complete_tx fail_tx expire_pending cancel_step
    cancel_tx after_terminal cancel_from cancel_execution complete_execution fail_execution
    client_cancel cancel_expired_executions expire_approvals settle_subagents
computed = (
  refl,
  refl,
  refl,
  refl,
  refl,
  refl,
  (refl, refl, refl, refl),
  refl,
  refl,
  refl,
  refl,
  refl,
  refl,
)

pub submitted_execution : lookup 1 after_submit.executions ≡ some running_execution
submitted_execution = computed.0

pub submitted_step : lookup "first" after_submit.steps ≡ some executing_step
submitted_step = computed.1

pub step_recorded :
    complete_step sample_env (at_time 50) no_usage "first" (sample_result paid) after_submit
    ≡ (ok (record no_decision { decision = "recorded" }), after_step)
step_recorded = computed.2

pub recorded_step : lookup "first" after_step.steps ≡ some paid_step
recorded_step = computed.3

pub completed_execution : lookup 1 after_complete.executions ≡ some ended_execution
completed_execution = computed.4

pub retried :
    handle_existing_step sample_env
      (at_time 45)
      executing_step
      sample_lease
      "at_most_once"
      after_submit
    ≡ (ok unknown_outcome, after_retry)
retried = computed.5

pub retry_failed : lookup "first" after_retry.steps ≡ some failed_step
retry_failed = computed.6.0

pub retry_execution : lookup 1 after_retry.executions ≡ some running_execution
retry_execution = computed.6.1

pub retry_new :
    lookup
      (sample_services.step_id 1 executing_step.kind executing_step.target "hash" (
        dispatch_occurrence
          (occurrence_key sample_env
            (at_time 46)
            sample_services
            (sample_request "at_most_once")
            "hash")
          after_retry))
      after_retry.steps
    ≡ none
retry_new = computed.6.2

pub still_there :
    lookup 1 (cleanup 30 (at_time 90) after_submit).1.executions ≡ some running_execution
still_there = computed.6.3

pub refused_again :
    submit_step sample_env
      (at_time 46)
      sample_services
      1
      (sample_request "at_most_once")
      after_retry
    ≡ (ok refusal_decision, after_refusal)
refused_again = computed.7

pub suspended :
    suspend sample_env (at_time 42) 1 sample_lease after_spawn ≡ (ok true, after_suspend)
suspended = computed.8

pub completed_tx :
    complete_tx sample_env (at_time 60) 1 sample_lease paid empty after_step
    ≡ (ok running_execution, after_complete_tx)
completed_tx = computed.9

pub granted_once :
    grant_approval sample_env (at_time 50) 101 no_comment after_hold ≡ (ok tt, after_grant)
granted_once = computed.10

pub approval_granted : lookup 101 after_grant.approvals ≡ some granted_approval
approval_granted = computed.11

pub next_waiting : next_pending_in_session "chat" 15 two_waiting ≡ ok first_waiting
next_waiting = computed.12
