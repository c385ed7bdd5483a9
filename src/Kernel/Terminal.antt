-- ===== src/Kernel/Terminal.antt =====
-- The end of an execution: CompleteExecution and FailExecution of internal/kernel/dispatch.go,
-- CancelExecution of internal/kernel/execution.go, what follows them in internal/kernel/subagent.go,
-- and the sweeps of internal/kernel/lifecycle.go. Logs and metrics are left out.
use rebuno.Prelude.{
  Bool, String, [], if◌then◌else◌, length, none, not, some, suc, zero, ℕ, ◌&&◌, ◌∷◌,
}
use rebuno.Action.{
  Action, Result, caught, err, for_each, ok, pure, raise, reads, refuse_if, ◌>>=◌, ◌>>◌,
}
use rebuno.Auth.{Role}
use rebuno.Context.{Context}
use rebuno.Domain.Json.{RawMessage, empty, is_empty, is_null}
use rebuno.Domain.Payload.{
  approval_payload, event_approval_expired, event_execution_cancelled, event_execution_completed,
  event_execution_failed, event_step_cancelled, event_step_denied, execution_payload, reason_error,
  step_denied_payload, step_error_payload,
}
use rebuno.Domain.Records.{
  Approval, Execution, Lease, Step, Uuid, conflict, execution_terminal, is_valid, out_of_fuel,
  validation,
}
use rebuno.Domain.Status.{ApprovalStatus, ExecutionStatus, StepStatus, is_executing, is_terminal}
use rebuno.Kernel.Approval.{denied_step, expire_approval}
use rebuno.Kernel.Env.{Env, authorized_execution, release_dispatches, renew_authorized_lease}
use rebuno.Kernel.Execution.{release_session, settle_parent_step}
use rebuno.Kernel.Resource.{settle_effect}
use rebuno.Kernel.Suspend.{subagents}
use rebuno.Memstore.Approvals.{
  list_expired_approvals, list_pending_approvals_by_execution, update_approval,
}
use rebuno.Memstore.Events.{append, append_batch}
use rebuno.Memstore.Executions.{
  get_execution, list_expired_executions, list_unsettled_subagents, set_execution_state,
  update_execution_status,
}
use rebuno.Memstore.Steps.{get_step, list_by_execution, upsert}
use rebuno.Memstore.Store.{Store}
use rebuno.Prelude.Dict.{values}

abbrev cancelled_error : RawMessage
cancelled_error = reason_error "execution_cancelled"

-- len(state) > 0 && string(state) != "null"
abbrev pub has_state : RawMessage → Bool
has_state state = not (is_empty state) && not (is_null state)

module _ (env : Env) (ctx : Context) where
  -- the end of the transactions of CompleteExecution and failExecution
  unfoldable pub finish_tx : Uuid → ExecutionStatus → RawMessage → String → Action Store (Unit {0})
  finish_tx id status output reason = do
    update_execution_status ctx id status output reason
    release_dispatches env ctx id

  -- the locked part of CompleteExecution
  unfoldable pub complete_tx : Uuid → Lease → RawMessage → RawMessage → Action Store Execution
  complete_tx id lease output state = do
    exec ← authorized_execution env ctx id Role.write
    refuse_if (is_terminal exec.status) execution_terminal
    renew_authorized_lease env ctx id lease
    append ctx id event_execution_completed
        (execution_payload id ExecutionStatus.completed output "")
    if has_state state then set_execution_state id state else pure tt
    finish_tx id ExecutionStatus.completed output ""
    pure exec

  -- the locked part of failExecution
  unfoldable pub fail_tx : Uuid → Lease → String → Action Store Execution
  fail_tx id lease reason = do
    exec ← authorized_execution env ctx id Role.write
    refuse_if (is_terminal exec.status) execution_terminal
    renew_authorized_lease env ctx id lease
    append ctx id event_execution_failed (execution_payload id ExecutionStatus.failed empty reason)
    finish_tx id ExecutionStatus.failed empty reason
    pure exec

  abbrev expired_approval : Approval → Approval
  expired_approval a = record a {
    status = ApprovalStatus.expired;
    decided_at = some ctx.now;
    rationale = "execution_cancelled";
  }

  -- one round of the loop of cancelExecution over the pending approvals
  unfoldable pub expire_pending : Uuid → Approval → Action Store (Unit {0})
  expire_pending id a = do
    step ← reads (get_step a.step_id)
    append_batch ctx id (
        record {
          type = event_approval_expired;
          payload =
              approval_payload a.id a.step_id id ApprovalStatus.expired "" "" "execution_cancelled";
        }
        ∷ record {
          type = event_step_denied;
          payload = step_denied_payload a.step_id step.kind step.target "" cancelled_error;
        }
        ∷ [])
    upsert (denied_step ctx cancelled_error step)
    update_approval (expired_approval a)

  abbrev cancelled_step : Step → Step
  cancelled_step step = record step {
    status = StepStatus.cancelled;
    error = cancelled_error;
    completed_at = some ctx.now;
  }

  abbrev pub cancel_running : Uuid → Step → Action Store (Unit {0})
  cancel_running id step = do
    append ctx id event_step_cancelled
        (step_error_payload step.step_id step.kind step.target cancelled_error)
    upsert (cancelled_step step)
    settle_effect (cancelled_step step)

  -- one round of the loop of cancelExecution over the steps
  unfoldable pub cancel_step : Uuid → Step → Action Store (Unit {0})
  cancel_step id step = if is_executing step.status then cancel_running id step else pure tt

  -- the locked part of cancelExecution
  unfoldable pub cancel_tx : Uuid → String → Action Store Execution
  cancel_tx id reason = do
    exec ← reads (get_execution id)
    refuse_if (is_terminal exec.status) execution_terminal
    append ctx id event_execution_cancelled
        (execution_payload id ExecutionStatus.cancelled empty reason)
    update_execution_status ctx id ExecutionStatus.cancelled empty reason
    release_dispatches env ctx id
    waiting ← reads (λ s. ok (list_pending_approvals_by_execution id s))
    for_each (expire_pending id) waiting
    steps ← reads (λ s. ok (list_by_execution id s))
    for_each (cancel_step id) steps
    pure exec

  module _ (cancel : Uuid → String → Action Store (Unit {0})) where
    abbrev pub cancel_child : Execution → Action Store (Unit {0})
    cancel_child c =
        if is_terminal c.status
        then pure tt
        else (caught (cancel c.id "parent_agent_terminal") >>= λ _. pure tt)

    -- afterTerminal with cancelSubagents, whose errors are only logged; cancel stands for
    -- cancelExecution
    unfoldable pub after_terminal : Execution → Action Store (Unit {0})
    after_terminal exec = do
      release_session env ctx exec.session
      caught (elim exec.spawned_by [ none ↦ pure tt | some _ ↦ settle_parent_step env ctx exec.id ])
      children ← reads (λ s. ok (subagents exec.id s))
      for_each cancel_child children

  -- cancelExecution, with fuel for the depth of the tree of subagents
  unfoldable pub cancel_from : ℕ → Uuid → String → Action Store (Unit {0})
  cancel_from zero id reason = raise out_of_fuel
  cancel_from (suc fuel) id reason = do
    exec ← cancel_tx id reason
    after_terminal (cancel_from fuel) exec

  -- cancelExecution. Each level makes one more execution terminal before it goes down.
  unfoldable pub cancel_execution : Uuid → String → Action Store (Unit {0})
  cancel_execution id reason = do
    fuel ← reads (λ s. ok (suc (length (values s.executions))))
    cancel_from fuel id reason

  -- CompleteExecution
  unfoldable pub complete_execution :
      Uuid → Lease → RawMessage → RawMessage → Action Store (Unit {0})
  complete_execution id lease output state = do
    refuse_if (not (is_valid lease)) validation
    exec ← complete_tx id lease output state
    after_terminal cancel_execution exec

  -- FailExecution
  unfoldable pub fail_execution : Uuid → Lease → String → Action Store (Unit {0})
  fail_execution id lease reason = do
    refuse_if (not (is_valid lease)) validation
    exec ← fail_tx id lease reason
    after_terminal cancel_execution exec

  -- CancelExecution: an execution that is terminal already is a conflict
  abbrev pub cancel_result : Result (Unit {0}) → Action Store (Unit {0})
  cancel_result (ok _) = pure tt
  cancel_result (err execution_terminal) = raise conflict
  cancel_result (err e) = raise e

  unfoldable pub client_cancel : Uuid → Action Store (Unit {0})
  client_cancel id = do
    authorized_execution env ctx id Role.write
    r ← caught (cancel_execution id "client_cancelled")
    cancel_result r

  -- the loop of CancelExpiredExecutions; the joined errors are left out
  unfoldable pub cancel_expired_executions : Action Store (Unit {0})
  cancel_expired_executions = do
    executions ← reads (λ s. ok (list_expired_executions ctx.now s))
    for_each (λ e. caught (cancel_execution e.id "deadline_exceeded") >>= λ _. pure tt) executions

  -- the loop of ExpireApprovals; the joined errors are left out
  unfoldable pub expire_approvals : Action Store (Unit {0})
  expire_approvals = do
    approvals ← reads (λ s. ok (list_expired_approvals ctx.now s))
    for_each (λ a. caught (expire_approval env ctx a.id) >>= λ _. pure tt) approvals

  -- the loop of SettleSubagents; the joined errors are left out
  unfoldable pub settle_subagents : Action Store (Unit {0})
  settle_subagents = do
    unsettled ← reads (λ s. ok (list_unsettled_subagents s))
    for_each
        (λ child.
          caught (
            if is_terminal child.status
            then settle_parent_step env ctx child.id
            else cancel_execution child.id "parent_agent_terminal")
          >>= λ _. pure tt)
        unsettled
