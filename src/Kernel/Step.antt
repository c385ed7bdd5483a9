-- ===== src/Kernel/Step.antt =====
-- internal/kernel/step.go: a step that is recorded already, and the outcome of a step. Logs and
-- metrics are left out.
use rebuno.Prelude.{
  Bool, List, Option, String, [], false, if◌then◌else◌, length, none, not, some, string_eq, true, ℕ,
  ℕ_eq, ◌&&◌, ◌==◌, ◌∷◌,
}
use rebuno.Action.{Action, for_each, ok, pure, reads, refuse_if, ◌>>=◌, ◌>>◌}
use rebuno.Auth.{Role}
use rebuno.Context.{Context}
use rebuno.Domain.Json.{
  Fields, Json, RawMessage, arr, empty, end, field, json, marshal_strings, member, null, num, obj,
  str, uuid,
}
use rebuno.Domain.Payload.{
  event_step_executing, event_step_failed, event_step_succeeded, step_error_payload, step_payload,
  step_result_payload,
}
use rebuno.Domain.Records.{
  Approval, EventRecord, Lease, Resource, Step, StepDecision, StepResource, Uuid, conflict,
  is_valid, step_kind_llm, validation,
}
use rebuno.Domain.Status.{StepStatus, is_executing, is_settled, is_terminal}
use rebuno.Kernel.Env.{Env, authorized_execution, renew_authorized_lease}
use rebuno.Kernel.Resource.{
  ResourceCapture, ResourceCaptureFailure, find_resource, record_captures, settle_effect,
  touch_resources,
}
use rebuno.Memstore.Approvals.{list_pending_approvals}
use rebuno.Memstore.Dispatches.{renew_lease}
use rebuno.Memstore.Events.{append, append_batch, last_seq}
use rebuno.Memstore.Resources.{invalidate_checkpoints, list_resources, put_resource}
use rebuno.Memstore.Steps.{check_lease, get_step, upsert}
use rebuno.Memstore.Store.{Store}

-- Requests to complete and to fail a step.
pub record CompleteStepRequest : Type 0 where
  pub result : RawMessage
  pub captures : List ResourceCapture
  pub capture_failures : List ResourceCaptureFailure
  pub lease : Lease

pub record FailStepRequest : Type 0 where
  pub error : RawMessage
  pub captures : List ResourceCapture
  pub capture_failures : List ResourceCaptureFailure
  pub lease : Lease

abbrev pub no_decision : StepDecision
no_decision = record {
  decision = "";
  step_id = "";
  result = empty;
  error = empty;
  approval_id = none;
  reason = "";
  rule_id = "";
  resources = [];
}

-- A json.Unmarshal of one text member: none for a value of another type. A `uuid` is an identifier
-- that the kernel wrote, and it writes none as a reason or a rule; a text that a worker sends is a
-- `str`, whatever it spells.
abbrev text_member : Json → Option String
text_member null = some ""
text_member (str t) = some t
text_member (uuid n) = none
text_member _ = none

abbrev both : Option String → Option String → String × String
both (some a) (some b) = (a, b)
both _ _ = ("", "")

-- stepError
unfoldable pub step_error : RawMessage → String × String
step_error (json (obj fields)) =
    both (text_member (member "reason" fields)) (text_member (member "rule_id" fields))
step_error _ = ("", "")

-- json.Marshal of the error of a step whose outcome is unknown
abbrev pub indeterminate_error : RawMessage
indeterminate_error = json (
    obj (
      field "message"
        (str
          "outcome unknown: this may already have taken effect. Check the state before continuing.")
        (field "reason" (str "indeterminate") end)))

-- executing["resources"] and executing["generations"]
abbrev generation_fields : List StepResource → Fields
generation_fields [] = end
generation_fields (t ∷ ts) = field t.key (num t.generation) (generation_fields ts)

abbrev executing_payload : Step → List StepResource → RawMessage → RawMessage
executing_payload step touched (json (obj fields)) = json (
    obj (
      field "resources" (arr (marshal_strings step.resources))
        (field "generations" (obj (generation_fields touched)) fields)))
executing_payload step touched p = p

-- the last record of evts with the generations that the attempt starts
unfoldable pub with_generations : Step → List StepResource → List EventRecord → List EventRecord
with_generations step touched [] = []
with_generations step touched (r ∷ []) =
    (record r { payload = executing_payload step touched r.payload }) ∷ []
with_generations step touched (r ∷ q ∷ rs) = r ∷ with_generations step touched (q ∷ rs)

-- the loop of startStep over the resources touched
abbrev pub advance_generation : ℕ → List Resource → StepResource → Action Store (Unit {0})
advance_generation seq resources t = elim (find_resource resources t.key) [
  | none ↦ pure tt
  | some r ↦ invalidate_checkpoints r.execution_id r.key seq >>= λ _.
      put_resource (record r { generation = t.generation })
]

module _ (env : Env) (ctx : Context) where
  -- the end of startStep, when the attempt is recorded
  unfoldable pub record_start :
      List Resource → List StepResource → Step → List EventRecord → Action Store (List StepResource)
  record_start resources touched step evts = do
    appended ←
        append_batch ctx step.execution_id
          (if length touched == 0 then evts else with_generations step touched evts)
    for_each (advance_generation (last_seq appended) resources) touched
    upsert step
    pure touched

  -- startStep
  unfoldable pub start_step :
      Lease → Step → List EventRecord → Bool → Action Store (List StepResource)
  start_step lease step evts restart = do
    renew_authorized_lease env ctx step.execution_id lease
    resources ← reads (λ s. ok (list_resources step.execution_id s))
    let touching = touch_resources resources step
    if restart && length touching.0 == 0
        then pure touching.0
        else record_start resources touching.0 touching.1 evts

  -- settleStep, after its fence
  unfoldable pub settle_step :
      Step
      → EventRecord
      → List ResourceCapture
      → List ResourceCaptureFailure
      → Action Store (Unit {0})
  settle_step step outcome captures failures = do
    ev ← append ctx step.execution_id outcome.type outcome.payload
    upsert step
    settle_effect step
    record_captures ctx step.execution_id ev.event_seq captures failures

  -- settleStepRecorded
  unfoldable pub settle_step_recorded :
      Lease
      → Step
      → EventRecord
      → List ResourceCapture
      → List ResourceCaptureFailure
      → Action Store (Unit {0})
  settle_step_recorded lease step outcome captures failures = do
    authorized_execution env ctx step.execution_id Role.write
    check_lease step.execution_id lease
    settle_step step outcome captures failures

  -- failStepInternal
  unfoldable pub fail_step_internal : Lease → Step → RawMessage → Action Store (Unit {0})
  fail_step_internal lease step error = do
    renew_authorized_lease env ctx step.execution_id lease
    settle_step
        (record step { status = StepStatus.failed; error = error; completed_at = some ctx.now })
        (record {
          type = event_step_failed;
          payload = step_error_payload step.step_id step.kind step.target error;
        })
        [] []

  abbrev executing_event : Step → List EventRecord
  executing_event step =
      record {
        type = event_step_executing;
        payload = step_payload step.step_id step.kind step.target "";
      }
      ∷ []

  abbrev pub decide : String → StepDecision
  decide decision = record no_decision { decision = decision }

  abbrev proceed_with : List StepResource → StepDecision
  proceed_with touched = record no_decision { decision = "proceed"; resources = touched }

  -- the identifier of the first pending approval of the step
  unfoldable pub approval_of : String → List Approval → Option Uuid
  approval_of step_id [] = none
  approval_of step_id (a ∷ as_) =
      if a.step_id == step_id then some a.id else approval_of step_id as_

  abbrev denial : String × String → StepDecision
  denial (reason, rule_id) = record no_decision {
    decision = "denied";
    reason = if reason == "" then "policy_denied" else reason;
    rule_id = rule_id;
  }

  abbrev pub run_now : Lease → Step → Action Store StepDecision
  run_now lease step = do
    touched ←
        start_step lease (record step { status = StepStatus.executing; started_at = some ctx.now })
          (executing_event step) false
    pure (proceed_with touched)

  abbrev pub run_again : Lease → Step → Action Store StepDecision
  run_again lease step = do
    touched ← start_step lease step (executing_event step) true
    pure (proceed_with touched)

  abbrev pub fail_unknown : Lease → Step → Action Store StepDecision
  fail_unknown lease step = do
    fail_step_internal lease step indeterminate_error
    pure (record no_decision { decision = "replay"; error = indeterminate_error })

  -- the switch of handleExistingStep; the last clause is its default, proceedUnderLiveLease
  unfoldable pub handle_status : StepStatus → Step → Lease → String → Action Store StepDecision
  handle_status StepStatus.succeeded step lease idempotency =
      pure (record no_decision { decision = "replay"; result = step.result })
  handle_status StepStatus.failed step lease idempotency =
      pure (record no_decision { decision = "replay"; error = step.error })
  handle_status StepStatus.awaiting_approval step lease idempotency = do
    approvals ← reads (λ s. ok (list_pending_approvals s))
    pure (record no_decision {
      decision = "blocked";
      approval_id = approval_of step.step_id approvals;
    })
  handle_status StepStatus.allowed step lease idempotency = run_now lease step
  handle_status StepStatus.proposed step lease idempotency = run_now lease step
  handle_status StepStatus.executing step lease idempotency =
      if idempotency == "at_most_once" then fail_unknown lease step else run_again lease step
  handle_status StepStatus.denied step lease idempotency = pure (denial (step_error step.error))
  handle_status StepStatus.cancelled step lease idempotency = do
    renew_lease step.execution_id lease ctx.now
    pure (decide "proceed")

  -- handleExistingStep
  unfoldable pub handle_existing_step : Step → Lease → String → Action Store StepDecision
  handle_existing_step step lease idempotency = handle_status step.status step lease idempotency

  -- the step that CompleteStep writes; the tokens are those that usage.Parse finds in the result
  abbrev pub completed_step : (RawMessage → ℕ × ℕ) → RawMessage → Step → Step
  completed_step parse_usage result step =
      let done : Step = record step {
        status = StepStatus.succeeded;
        result = result;
        completed_at = some ctx.now;
      } in
      if step.kind == step_kind_llm
      then record done {
        usage_input = (parse_usage result).0;
        usage_output = (parse_usage result).1;
      }
      else done

  abbrev pub completed_event : (RawMessage → ℕ × ℕ) → RawMessage → Step → EventRecord
  completed_event parse_usage result step =
      let tokens : ℕ × ℕ = if step.kind == step_kind_llm then parse_usage result else (0, 0) in
      record {
        type = event_step_succeeded;
        payload = step_result_payload step.step_id step.kind step.target tokens.0 tokens.1;
      }

  abbrev pub succeed : (RawMessage → ℕ × ℕ) → CompleteStepRequest → Step → Action Store StepDecision
  succeed parse_usage req step = do
    refuse_if (not (is_executing step.status)) conflict
    settle_step_recorded req.lease (completed_step parse_usage req.result step)
        (completed_event parse_usage req.result step) req.captures req.capture_failures
    pure (decide "recorded")

  -- CompleteStep; usage.Parse is an argument
  unfoldable pub complete_step :
      (RawMessage → ℕ × ℕ) → String → CompleteStepRequest → Action Store StepDecision
  complete_step parse_usage step_id req = do
    refuse_if (not (is_valid req.lease)) validation
    step ← reads (get_step step_id)
    exec ← authorized_execution env ctx step.execution_id Role.write
    if is_terminal exec.status
        then pure (decide "execution_terminal")
        else if is_settled step.status
        then pure (record no_decision { decision = "replay"; result = step.result })
        else succeed parse_usage req step

  abbrev pub fail_with : FailStepRequest → Step → Action Store StepDecision
  fail_with req step = do
    refuse_if (not (is_executing step.status)) conflict
    settle_step_recorded req.lease
        (record step { status = StepStatus.failed; error = req.error; completed_at = some ctx.now })
        (record {
          type = event_step_failed;
          payload = step_error_payload step.step_id step.kind step.target req.error;
        })
        req.captures req.capture_failures
    pure (decide "recorded")

  -- FailStep
  unfoldable pub fail_step : String → FailStepRequest → Action Store StepDecision
  fail_step step_id req = do
    refuse_if (not (is_valid req.lease)) validation
    step ← reads (get_step step_id)
    exec ← authorized_execution env ctx step.execution_id Role.write
    if is_terminal exec.status
        then pure (decide "execution_terminal")
        else if is_settled step.status
        then pure (record no_decision { decision = "replay"; error = step.error })
        else fail_with req step
