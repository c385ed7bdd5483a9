-- ===== src/Kernel/Closing/Handlers.antt =====
-- The operations on the way of a cancellation leave no more executions open.
use rebuno.Prelude.{String, string_eq, suc, zero, ℕ, ℕ_eq, ◌==◌}
use rebuno.Action.{Action, Result, err, ok}
use rebuno.Context.{Context}
use rebuno.Domain.Records.{
  Approval, Dispatch, Execution, Resource, SpawnedBy, Step, Time, Uuid, conflict,
  execution_terminal, not_found,
}
use rebuno.Kernel.Closing.{Closing}
use rebuno.Kernel.Closing.Rules.{
  bind-Closing, caught-Closing, closing, enqueue-Closing, if-Closing, new_uuid-Closing,
  option-Closing,
}
use rebuno.Kernel.Env.{Env, enqueue_dispatch, release_dispatch, release_dispatches}
use rebuno.Kernel.Execution.{
  admit_next, admitted, adopt_head, inherit_from, inherit_session_resources, register_resource_tx,
  release_session, set_head, settle_parent_step, settle_parent_tx, settle_spawned, start_execution,
}
use rebuno.Kernel.Resource.{count_effect, settle_effect}
use rebuno.Kernel.Suspend.{resume, resume_if_idle}
use rebuno.Kernel.Terminal.{
  after_terminal, cancel_child, cancel_from, cancel_running, cancel_step, cancel_tx, expire_pending,
}
use rebuno.Memstore.Store.{Store}

count_effect-Closing : (step : Step) (r : Resource) → Closing (count_effect step r)
count_effect-Closing step r = search closing

pub settle_effect-Closing : (step : Step) → Closing (settle_effect step)
unfolding settle_effect
settle_effect-Closing step = search (closing, count_effect-Closing)

register_resource_tx-Closing : (ctx : Context) (r : Resource) → Closing (register_resource_tx ctx r)
unfolding register_resource_tx
register_resource_tx-Closing ctx r = search closing

inherit_from-Closing :
    (ctx : Context) (exec : Execution) (id : Uuid) → Closing (inherit_from ctx exec id)
unfolding inherit_from
inherit_from-Closing ctx exec id = search (closing, register_resource_tx-Closing) depth 7

inherit_session_resources-Closing :
    (ctx : Context) (exec : Execution) → Closing (inherit_session_resources ctx exec)
unfolding inherit_session_resources
inherit_session_resources-Closing ctx exec = if-Closing (exec.session == "") _ _ (search closing) (
    option-Closing exec.parent_execution_id _ _ (search closing) λ parent.
      option-Closing exec.forked_from _ _ (inherit_from-Closing ctx exec parent)
        (λ _. search closing))

set_head-Closing :
    (ctx : Context) (exec : Execution) (r : Result Execution) → Closing (set_head ctx exec r)
set_head-Closing ctx exec (ok head) = search closing
set_head-Closing ctx exec (err e) = search closing

adopt_head-Closing : (ctx : Context) (exec : Execution) → Closing (adopt_head ctx exec)
unfolding adopt_head
adopt_head-Closing ctx exec = if-Closing (exec.session == "") _ _ (search closing) (
    option-Closing exec.parent_execution_id _ _
      (option-Closing exec.forked_from _ _ (search (closing, set_head-Closing))
        (λ _. search closing))
      (λ _. search closing))

module _ (env : Env) (ctx : Context) where
  enqueue_dispatch-Closing : (id : Uuid) (at : Time) → Closing (enqueue_dispatch env ctx id at)
  unfolding enqueue_dispatch
  enqueue_dispatch-Closing id at =
      bind-Closing _ _ (new_uuid-Closing env)
        (λ d. bind-Closing _ _ (enqueue-Closing ctx _) (λ _. search closing))

  release_dispatch-Closing : (d : Dispatch) → Closing (release_dispatch env ctx d)
  unfolding release_dispatch
  release_dispatch-Closing d = search closing

  pub release_dispatches-Closing : (id : Uuid) → Closing (release_dispatches env ctx id)
  unfolding release_dispatches
  release_dispatches-Closing id = search (closing, release_dispatch-Closing)

  resume-Closing : (id : Uuid) → Closing (resume env ctx id)
  unfolding resume
  resume-Closing id = search (closing, enqueue_dispatch-Closing)

  resume_if_idle-Closing : (id : Uuid) → Closing (resume_if_idle env ctx id)
  unfolding resume_if_idle
  resume_if_idle-Closing id = search (closing, resume-Closing)

  start_execution-Closing : (exec : Execution) → Closing (start_execution env ctx exec)
  unfolding start_execution
  start_execution-Closing exec =
      search
        (closing, adopt_head-Closing, inherit_session_resources-Closing, enqueue_dispatch-Closing)
        depth 9

  admitted-Closing : (r : Result Execution) → Closing (admitted env ctx r)
  admitted-Closing (ok exec) = search closing
  admitted-Closing (err conflict) = search closing
  admitted-Closing (err not_found) = search closing
  admitted-Closing (err execution_terminal) = search closing
  admitted-Closing (err _) = search closing

  admit_next-Closing : (session : String) → Closing (admit_next env ctx session)
  unfolding admit_next
  admit_next-Closing session = search (closing, admitted-Closing, start_execution-Closing)

  pub release_session-Closing : (session : String) → Closing (release_session env ctx session)
  unfolding release_session
  release_session-Closing session = search (closing, admit_next-Closing)

  settle_parent_tx-Closing :
      (parent child : Execution) (step : Step)
      → Closing (settle_parent_tx env ctx parent child step)
  unfolding settle_parent_tx
  settle_parent_tx-Closing parent child step =
      search (closing, settle_effect-Closing, resume_if_idle-Closing) depth 8

  settle_spawned-Closing :
      (child : Execution) (by : SpawnedBy) → Closing (settle_spawned env ctx child by)
  settle_spawned-Closing child by = search (closing, settle_parent_tx-Closing) depth 8

  pub settle_parent_step-Closing : (id : Uuid) → Closing (settle_parent_step env ctx id)
  unfolding settle_parent_step
  settle_parent_step-Closing id = bind-Closing _ _ (search closing) λ child.
      option-Closing child.spawned_by _ _ (search closing)
        (λ by. search (closing, settle_spawned-Closing))

  pub expire_pending-Closing : (id : Uuid) (a : Approval) → Closing (expire_pending env ctx id a)
  unfolding expire_pending
  expire_pending-Closing id a = search closing

  cancel_running-Closing : (id : Uuid) (step : Step) → Closing (cancel_running env ctx id step)
  cancel_running-Closing id step = search (closing, settle_effect-Closing)

  pub cancel_step-Closing : (id : Uuid) (step : Step) → Closing (cancel_step env ctx id step)
  unfolding cancel_step
  cancel_step-Closing id step = search (closing, cancel_running-Closing)

  pub cancel_tx-Closing : (id : Uuid) (reason : String) → Closing (cancel_tx env ctx id reason)
  unfolding cancel_tx
  cancel_tx-Closing id reason =
      search (closing, release_dispatches-Closing, expire_pending-Closing, cancel_step-Closing)
        depth 12

  module _ (cancel : Uuid → String → Action Store (Unit {0}))
      (closes : (id : Uuid) (reason : String) → Closing (cancel id reason)) where
    pub cancel_child-Closing : (c : Execution) → Closing (cancel_child env ctx cancel c)
    cancel_child-Closing c = search (closing, closes)

    after_terminal-Closing : (exec : Execution) → Closing (after_terminal env ctx cancel exec)
    unfolding after_terminal
    after_terminal-Closing exec = bind-Closing _ _ (release_session-Closing exec.session) λ _.
        bind-Closing _ _
          (caught-Closing _ (
            option-Closing exec.spawned_by _ _ (search closing)
              (λ _. settle_parent_step-Closing exec.id)))
          (λ _. search (closing, cancel_child-Closing))

  pub cancel_from-Closing :
      (fuel : ℕ) (id : Uuid) (reason : String) → Closing (cancel_from env ctx fuel id reason)
  unfolding cancel_from
  cancel_from-Closing zero id reason = search closing
  cancel_from-Closing (suc fuel) id reason =
      bind-Closing _ _ (cancel_tx-Closing id reason)
        (after_terminal-Closing (cancel_from env ctx fuel) (cancel_from-Closing fuel))
