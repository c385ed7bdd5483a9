-- ===== src/Kernel/Keeps/Endings.antt =====
-- Admission and the end of an execution keep what Keeps says.
use rebuno.Prelude.{String, string_eq, suc, zero, ℕ, ℕ_eq, ◌==◌}
use rebuno.Action.{Action, Result, err, ok}
use rebuno.Context.{Context}
use rebuno.Domain.Json.{RawMessage}
use rebuno.Domain.Records.{
  Approval, Execution, Lease, Resource, SpawnedBy, Step, Uuid, conflict, execution_terminal,
  not_found,
}
use rebuno.Domain.Status.{ExecutionStatus}
use rebuno.Kernel.Env.{Env}
use rebuno.Kernel.Execution.{
  admit_next, admitted, adopt_head, inherit_from, inherit_session_resources, register_resource_tx,
  release_session, set_head, settle_parent_step, settle_parent_tx, settle_spawned, start_execution,
}
use rebuno.Kernel.Keeps.{Keeping}
use rebuno.Kernel.Keeps.Approvals.{expire_approval-Keeping}
use rebuno.Kernel.Keeps.Calls.{keeping}
use rebuno.Kernel.Keeps.Rules.{bind-Keeping, caught-Keeping, if-Keeping, option-Keeping}
use rebuno.Kernel.Keeps.Steps.{
  authorized_execution-Keeping, enqueue_dispatch-Keeping, release_dispatches-Keeping,
  renew_authorized_lease-Keeping, resume_if_idle-Keeping, settle_effect-Keeping,
}
use rebuno.Kernel.Terminal.{
  after_terminal, cancel_child, cancel_execution, cancel_expired_executions, cancel_from,
  cancel_result, cancel_running, cancel_step, cancel_tx, client_cancel, complete_execution,
  complete_tx, expire_approvals, expire_pending, fail_execution, fail_tx, finish_tx,
  settle_subagents,
}
use rebuno.Memstore.Store.{Store}

register_resource_tx-Keeping : (ctx : Context) (r : Resource) → Keeping (register_resource_tx ctx r)
unfolding register_resource_tx
register_resource_tx-Keeping ctx r = search keeping

inherit_from-Keeping :
    (ctx : Context) (exec : Execution) (id : Uuid) → Keeping (inherit_from ctx exec id)
unfolding inherit_from
inherit_from-Keeping ctx exec id = search (keeping, register_resource_tx-Keeping) depth 7

inherit_session_resources-Keeping :
    (ctx : Context) (exec : Execution) → Keeping (inherit_session_resources ctx exec)
unfolding inherit_session_resources
inherit_session_resources-Keeping ctx exec = if-Keeping (exec.session == "") _ _ (search keeping) (
    option-Keeping exec.parent_execution_id _ _ (search keeping) λ parent.
      option-Keeping exec.forked_from _ _ (inherit_from-Keeping ctx exec parent)
        (λ _. search keeping))

set_head-Keeping :
    (ctx : Context) (exec : Execution) (r : Result Execution) → Keeping (set_head ctx exec r)
set_head-Keeping ctx exec (ok head) = search keeping
set_head-Keeping ctx exec (err e) = search keeping

adopt_head-Keeping : (ctx : Context) (exec : Execution) → Keeping (adopt_head ctx exec)
unfolding adopt_head
adopt_head-Keeping ctx exec = if-Keeping (exec.session == "") _ _ (search keeping) (
    option-Keeping exec.parent_execution_id _ _
      (option-Keeping exec.forked_from _ _ (search (keeping, set_head-Keeping))
        (λ _. search keeping))
      (λ _. search keeping))

module _ (env : Env) (ctx : Context) where
  pub start_execution-Keeping : (exec : Execution) → Keeping (start_execution env ctx exec)
  unfolding start_execution
  start_execution-Keeping exec =
      search
        (
          keeping,
          adopt_head-Keeping,
          inherit_session_resources-Keeping,
          enqueue_dispatch-Keeping env ctx,
        )
        depth 9

  admitted-Keeping : (r : Result Execution) → Keeping (admitted env ctx r)
  admitted-Keeping (ok exec) = search keeping
  admitted-Keeping (err conflict) = search keeping
  admitted-Keeping (err not_found) = search keeping
  admitted-Keeping (err execution_terminal) = search keeping
  admitted-Keeping (err _) = search keeping

  pub admit_next-Keeping : (session : String) → Keeping (admit_next env ctx session)
  unfolding admit_next
  admit_next-Keeping session = search (keeping, admitted-Keeping, start_execution-Keeping)

  release_session-Keeping : (session : String) → Keeping (release_session env ctx session)
  unfolding release_session
  release_session-Keeping session = search (keeping, admit_next-Keeping)

  settle_parent_tx-Keeping :
      (parent child : Execution) (step : Step)
      → Keeping (settle_parent_tx env ctx parent child step)
  unfolding settle_parent_tx
  settle_parent_tx-Keeping parent child step =
      search (keeping, settle_effect-Keeping, resume_if_idle-Keeping env ctx) depth 8

  settle_spawned-Keeping :
      (child : Execution) (by : SpawnedBy) → Keeping (settle_spawned env ctx child by)
  settle_spawned-Keeping child by = search (keeping, settle_parent_tx-Keeping) depth 8

  pub settle_parent_step-Keeping : (id : Uuid) → Keeping (settle_parent_step env ctx id)
  unfolding settle_parent_step
  settle_parent_step-Keeping id = bind-Keeping _ _ (search keeping) λ child.
      option-Keeping child.spawned_by _ _ (search keeping)
        (λ by. search (keeping, settle_spawned-Keeping))

  finish_tx-Keeping :
      (id : Uuid) (status : ExecutionStatus) (output : RawMessage) (reason : String)
      → Keeping (finish_tx env ctx id status output reason)
  unfolding finish_tx
  finish_tx-Keeping id status output reason = search (keeping, release_dispatches-Keeping env ctx)

  complete_tx-Keeping :
      (id : Uuid) (lease : Lease) (output state : RawMessage)
      → Keeping (complete_tx env ctx id lease output state)
  unfolding complete_tx
  complete_tx-Keeping id lease output state =
      search
        (
          keeping,
          authorized_execution-Keeping env ctx,
          renew_authorized_lease-Keeping env ctx,
          finish_tx-Keeping,
        )
        depth 10

  pub fail_tx-Keeping :
      (id : Uuid) (lease : Lease) (reason : String) → Keeping (fail_tx env ctx id lease reason)
  unfolding fail_tx
  fail_tx-Keeping id lease reason =
      search
        (
          keeping,
          authorized_execution-Keeping env ctx,
          renew_authorized_lease-Keeping env ctx,
          finish_tx-Keeping,
        )
        depth 10

  expire_pending-Keeping : (id : Uuid) (a : Approval) → Keeping (expire_pending env ctx id a)
  unfolding expire_pending
  expire_pending-Keeping id a = search keeping

  cancel_running-Keeping : (id : Uuid) (step : Step) → Keeping (cancel_running env ctx id step)
  cancel_running-Keeping id step = search (keeping, settle_effect-Keeping)

  cancel_step-Keeping : (id : Uuid) (step : Step) → Keeping (cancel_step env ctx id step)
  unfolding cancel_step
  cancel_step-Keeping id step = search (keeping, cancel_running-Keeping)

  pub cancel_tx-Keeping : (id : Uuid) (reason : String) → Keeping (cancel_tx env ctx id reason)
  unfolding cancel_tx
  cancel_tx-Keeping id reason =
      search
        (keeping, release_dispatches-Keeping env ctx, expire_pending-Keeping, cancel_step-Keeping)
        depth 12

  module _ (cancel : Uuid → String → Action Store (Unit {0}))
      (keeps : (id : Uuid) (reason : String) → Keeping (cancel id reason)) where
    cancel_child-Keeping : (c : Execution) → Keeping (cancel_child env ctx cancel c)
    cancel_child-Keeping c = search (keeping, keeps)

    after_terminal-Keeping : (exec : Execution) → Keeping (after_terminal env ctx cancel exec)
    unfolding after_terminal
    after_terminal-Keeping exec = bind-Keeping _ _ (release_session-Keeping exec.session) λ _.
        bind-Keeping _ _
          (caught-Keeping _ (
            option-Keeping exec.spawned_by _ _ (search keeping)
              (λ _. settle_parent_step-Keeping exec.id)))
          (λ _. search (keeping, cancel_child-Keeping))

  cancel_from-Keeping :
      (fuel : ℕ) (id : Uuid) (reason : String) → Keeping (cancel_from env ctx fuel id reason)
  unfolding cancel_from
  cancel_from-Keeping zero id reason = search keeping
  cancel_from-Keeping (suc fuel) id reason =
      bind-Keeping _ _ (cancel_tx-Keeping id reason)
        (after_terminal-Keeping (cancel_from env ctx fuel) (cancel_from-Keeping fuel))

  pub cancel_execution-Keeping :
      (id : Uuid) (reason : String) → Keeping (cancel_execution env ctx id reason)
  unfolding cancel_execution
  cancel_execution-Keeping id reason = search (keeping, cancel_from-Keeping)

  pub ended-Keeping :
      (exec : Execution) → Keeping (after_terminal env ctx (cancel_execution env ctx) exec)
  ended-Keeping = after_terminal-Keeping (cancel_execution env ctx) cancel_execution-Keeping

  pub complete_execution-Keeping :
      (id : Uuid) (lease : Lease) (output state : RawMessage)
      → Keeping (complete_execution env ctx id lease output state)
  unfolding complete_execution
  complete_execution-Keeping id lease output state =
      search (keeping, complete_tx-Keeping, ended-Keeping)

  pub fail_execution-Keeping :
      (id : Uuid) (lease : Lease) (reason : String)
      → Keeping (fail_execution env ctx id lease reason)
  unfolding fail_execution
  fail_execution-Keeping id lease reason = search (keeping, fail_tx-Keeping, ended-Keeping)

  cancel_result-Keeping : (r : Result (Unit {0})) → Keeping (cancel_result env ctx r)
  cancel_result-Keeping (ok _) = search keeping
  cancel_result-Keeping (err execution_terminal) = search keeping
  cancel_result-Keeping (err _) = search keeping

  pub client_cancel-Keeping : (id : Uuid) → Keeping (client_cancel env ctx id)
  unfolding client_cancel
  client_cancel-Keeping id = search (
    keeping,
    authorized_execution-Keeping env ctx,
    cancel_execution-Keeping,
    cancel_result-Keeping,
  )

  pub cancel_expired_executions-Keeping : Keeping (cancel_expired_executions env ctx)
  unfolding cancel_expired_executions
  cancel_expired_executions-Keeping = search (keeping, cancel_execution-Keeping) depth 8

  pub expire_approvals-Keeping : Keeping (expire_approvals env ctx)
  unfolding expire_approvals
  expire_approvals-Keeping = search (keeping, expire_approval-Keeping) depth 8

  pub settle_subagents-Keeping : Keeping (settle_subagents env ctx)
  unfolding settle_subagents
  settle_subagents-Keeping =
      search (keeping, settle_parent_step-Keeping, cancel_execution-Keeping) depth 8
