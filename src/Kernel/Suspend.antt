-- ===== src/Kernel/Suspend.antt =====
-- internal/kernel/suspend.go, and subagents of internal/kernel/subagent.go.
use rebuno.Prelude.{
  Bool, List, Option, String, [], any, contains, false, if◌then◌else◌, length, none, not, some,
  string_eq, suc, true, zero, ℕ, ℕ_eq, ◌++◌, ◌∷◌,
}
use rebuno.Action.{Action, ok, pure, reads, refuse_if, ◌>>=◌, ◌>>◌}
use rebuno.Auth.{Role}
use rebuno.Context.{Context}
use rebuno.Domain.Json.{empty}
use rebuno.Domain.Payload.{event_execution_blocked, event_execution_resumed, execution_payload}
use rebuno.Domain.Records.{
  Execution, ExecutionFilter, Lease, Step, Uuid, execution_terminal, is_valid, validation,
}
use rebuno.Domain.Status.{ExecutionStatus, is_awaiting_approval, is_executing, is_terminal}
use rebuno.Kernel.Env.{
  Env, authorized_execution, enqueue_dispatch, release_dispatches, renew_authorized_lease,
}
use rebuno.Memstore.Events.{append}
use rebuno.Memstore.Executions.{list_executions, update_execution_status}
use rebuno.Memstore.Steps.{list_by_execution}
use rebuno.Memstore.Store.{Store}
use rebuno.Prelude.Dict.{values}

abbrev pub max_list_executions_limit : ℕ
max_list_executions_limit = 200

abbrev pub spawned_filter : Uuid → Option Uuid → ExecutionFilter
spawned_filter parent cursor = record {
  agent_id = "";
  agent_ids = none;
  session = "";
  idempotency_key = "";
  spawned_by = some parent;
  parent_execution_id = none;
  forked_from = none;
  status = none;
  limit = max_list_executions_limit;
  cursor = cursor;
}

-- The loop of subagents, with fuel for the pages.
unfoldable pub subagents_from : ℕ → Uuid → Option Uuid → Store → List Execution
subagents_from zero parent cursor s = []
subagents_from (suc fuel) parent cursor s =
    let page = list_executions (spawned_filter parent cursor) s in
    page.executions
    ++ elim page.next_cursor [ none ↦ [] | some c ↦ subagents_from fuel parent (some c) s ]

-- subagents. A page that is not the last holds 200 executions and the next starts below its last
-- one, so there are no more pages than executions, and one.
unfoldable pub subagents : Uuid → Store → List Execution
subagents parent s = subagents_from (suc (length (values s.executions))) parent none s

-- The loop of awaitingSteps over the steps: none for its early return, else the executing steps.
unfoldable pub executing_steps : List Step → Option (List String)
executing_steps [] = some []
executing_steps (step ∷ steps) =
    let rest = executing_steps steps in
    if is_awaiting_approval step.status
    then none
    else if is_executing step.status
    then elim rest [ none ↦ none | some ids ↦ some (step.step_id ∷ ids) ]
    else rest

abbrev spawned_from : List String → Execution → Bool
spawned_from ids c = elim c.spawned_by [ none ↦ false | some by ↦ contains ids by.step_id ]

-- awaitingSteps
unfoldable pub awaiting_steps : Uuid → Store → Bool
awaiting_steps exec_id s = elim (executing_steps (list_by_execution exec_id s)) [
  | none ↦ true
  | some [] ↦ false
  | some (id ∷ ids) ↦ any (spawned_from (id ∷ ids)) (subagents exec_id s)
]

module _ (env : Env) (ctx : Context) where
  -- what resumeIfIdleTx does when nothing is awaited
  unfoldable pub resume : Uuid → Action Store (Unit {0})
  resume exec_id = do
    append ctx exec_id event_execution_resumed
        (execution_payload exec_id ExecutionStatus.running empty "")
    update_execution_status ctx exec_id ExecutionStatus.running empty ""
    enqueue_dispatch env ctx exec_id ctx.now

  -- resumeIfIdleTx
  unfoldable pub resume_if_idle : Uuid → Action Store (Unit {0})
  resume_if_idle exec_id = do
    waiting ← reads (λ s. ok (awaiting_steps exec_id s))
    if waiting then pure tt else resume exec_id

  -- the part of Suspend that runs when something is awaited
  unfoldable pub block : Uuid → Action Store Bool
  block exec_id = do
    append ctx exec_id event_execution_blocked
        (execution_payload exec_id ExecutionStatus.blocked empty "awaiting_steps")
    update_execution_status ctx exec_id ExecutionStatus.blocked empty ""
    release_dispatches env ctx exec_id
    pure true

  -- Suspend
  unfoldable pub suspend : Uuid → Lease → Action Store Bool
  suspend exec_id lease = do
    refuse_if (not (is_valid lease)) validation
    exec ← authorized_execution env ctx exec_id Role.write
    refuse_if (is_terminal exec.status) execution_terminal
    renew_authorized_lease env ctx exec_id lease
    waiting ← reads (λ s. ok (awaiting_steps exec_id s))
    if waiting then block exec_id else pure false
