-- ===== src/Kernel/Decision.antt =====
-- recordStepDecision of internal/kernel/step.go, for each decision of a policy, and what happens to a
-- step over a rate limit. Logs and metrics are left out.
use rebuno.Prelude.{
  List, String, [], false, if◌then◌else◌, none, some, string_eq, ℕ_eq, ◌+◌, ◌==◌, ◌∷◌,
}
use rebuno.Action.{Action, pure, raise, ◌>>=◌, ◌>>◌}
use rebuno.Context.{Context}
use rebuno.Domain.Json.{RawMessage, arr, empty, json, marshal_strings}
use rebuno.Domain.Payload.{
  approval_payload, event_approval_requested, event_execution_blocked, event_step_allowed,
  event_step_awaiting_approval, event_step_denied, event_step_executing, event_step_proposed,
  event_step_rate_limited, execution_payload, step_decided_payload, step_denied_payload,
  step_payload,
}
use rebuno.Domain.Records.{
  Approval, EventRecord, Lease, Step, StepDecision, Time, Uuid, unknown_decision,
}
use rebuno.Domain.Status.{ApprovalStatus, ExecutionStatus, StepStatus}
use rebuno.Kernel.Env.{Env, enqueue_dispatch, new_uuid, release_dispatches, renew_authorized_lease}
use rebuno.Domain.Policy.{PolicyResult}
use rebuno.Kernel.Policy.{event_of, refusal_error, with_policy_hash}
use rebuno.Kernel.Step.{no_decision, start_step}
use rebuno.Memstore.Approvals.{create_approval}
use rebuno.Memstore.Events.{append, append_batch}
use rebuno.Memstore.Executions.{update_execution_status}
use rebuno.Memstore.Steps.{upsert}
use rebuno.Memstore.Store.{Store}

module _ (env : Env) (ctx : Context) where
  -- writeStepLive
  unfoldable pub write_step_live : Lease → Step → List EventRecord → Action Store (Unit {0})
  write_step_live lease step evts = do
    renew_authorized_lease env ctx step.execution_id lease
    append_batch ctx step.execution_id evts
    upsert step

  abbrev proposed_event : Step → EventRecord
  proposed_event step =
      event_of event_step_proposed (step_payload step.step_id step.kind step.target "")

  -- recordStepDecision for a step that is allowed
  unfoldable pub allow_step : Lease → PolicyResult → Step → Action Store StepDecision
  allow_step lease pol step = do
    touched ←
        start_step env ctx lease
          (record step { status = StepStatus.executing; started_at = some ctx.now })
          (proposed_event step
            ∷ event_of event_step_allowed (
                with_policy_hash pol
                  (step_decided_payload step.step_id step.kind step.target pol.rule_id pol.reason))
            ∷ event_of event_step_executing (step_payload step.step_id step.kind step.target "")
            ∷ [])
          false
    pure (record no_decision { decision = "proceed"; resources = touched })

  -- recordStepDecision for a step that is denied
  unfoldable pub deny_step : Lease → PolicyResult → Step → Action Store StepDecision
  deny_step lease pol step = do
    let reason = if pol.reason == "" then "policy_denied" else pol.reason
    write_step_live lease
        (record step {
          status = StepStatus.denied;
          completed_at = some ctx.now;
          error = refusal_error reason pol.rule_id;
        })
        (proposed_event step
          ∷ event_of event_step_denied (
              with_policy_hash pol (
                step_denied_payload step.step_id step.kind step.target pol.rule_id
                  (refusal_error reason pol.rule_id)))
          ∷ [])
    pure (record no_decision { decision = "denied"; reason = reason; rule_id = pol.rule_id })

  abbrev pub requested : Uuid → PolicyResult → Step → Approval
  requested id pol step = record {
    id = id;
    step_id = step.step_id;
    execution_id = step.execution_id;
    status = ApprovalStatus.pending;
    approvers = json (arr (marshal_strings pol.approvers));
    message = pol.message;
    timeout_at = ctx.now + (if pol.timeout == 0 then env.default_approval_timeout else pol.timeout);
    decided_by = "";
    asserted_by = "";
    decided_at = none;
    rationale = "";
    created_at = ctx.now;
  }

  -- recordStepDecision for a step that waits for an approval
  unfoldable pub hold_step : Lease → PolicyResult → Step → Action Store StepDecision
  hold_step lease pol step = do
    id ← new_uuid env
    renew_authorized_lease env ctx step.execution_id lease
    append_batch ctx step.execution_id (
        proposed_event step
        ∷ event_of event_step_awaiting_approval (
            with_policy_hash pol
              (step_decided_payload step.step_id step.kind step.target pol.rule_id pol.reason))
        ∷ event_of event_approval_requested
            (approval_payload id step.step_id step.execution_id ApprovalStatus.pending "" "" "")
        ∷ event_of event_execution_blocked
            (execution_payload step.execution_id ExecutionStatus.blocked empty "")
        ∷ [])
    upsert (record step { status = StepStatus.awaiting_approval })
    create_approval ctx (requested id pol step)
    update_execution_status ctx step.execution_id ExecutionStatus.blocked empty ""
    release_dispatches env ctx step.execution_id
    pure (record no_decision { decision = "blocked"; approval_id = some id })

  -- the switch of recordStepDecision
  unfoldable pub decide_step : Lease → PolicyResult → Step → Action Store StepDecision
  decide_step lease pol step =
      if pol.decision == "allow"
      then allow_step lease pol step
      else if pol.decision == "deny"
      then deny_step lease pol step
      else if pol.decision == "require_approval"
      then hold_step lease pol step
      else raise unknown_decision

  abbrev limited_event : Step → String → String → RawMessage
  limited_event step rule_id reason =
      step_denied_payload step.step_id step.kind step.target rule_id (refusal_error reason rule_id)

  -- refuseRateLimited
  unfoldable pub refuse_rate_limited : Lease → Step → String → String → Action Store StepDecision
  refuse_rate_limited lease step rule_id reason = do
    renew_authorized_lease env ctx step.execution_id lease
    append ctx step.execution_id event_step_rate_limited (limited_event step rule_id reason)
    pure (record no_decision { decision = "rate_limited"; reason = reason })

  -- parkRateLimited
  unfoldable pub park_rate_limited : Lease → Step → String → Time → Action Store StepDecision
  park_rate_limited lease step rule_id wait = do
    renew_authorized_lease env ctx step.execution_id lease
    append ctx step.execution_id event_step_rate_limited
        (limited_event step rule_id "rate_limit_exceeded")
    release_dispatches env ctx step.execution_id
    enqueue_dispatch env ctx step.execution_id (ctx.now + wait)
    pure (record no_decision { decision = "blocked"; reason = "rate_limit_exceeded" })
