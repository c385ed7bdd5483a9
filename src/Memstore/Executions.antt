-- ===== src/Memstore/Executions.antt =====
-- internal/store/memstore/executions.go, but for the clean-up of old executions.
pub mod Session
pub mod Ending
pub mod Admission
use rebuno.Prelude.{
  Bool, List, Option, String, [], any, contains, false, filter, if◌then◌else◌, leb, length, ltb,
  none, not, some, sort, string_eq, take, true, ℕ, ℕ_eq, ◌&&◌, ◌==◌, ◌||◌, ◌∷◌,
}
use rebuno.Action.{Action, Result, err, ok, or_raise}
use rebuno.Context.{Context}
use rebuno.Domain.Json.{RawMessage, empty, is_empty}
use rebuno.Domain.Records.{
  Execution, ExecutionFilter, ExecutionPage, SpawnedBy, Time, Uuid, conflict, execution_terminal,
  not_found,
}
use rebuno.Domain.Status.{
  ExecutionStatus, is_active, is_completed, is_executing, is_pending, is_terminal, same_status,
}
use rebuno.Memstore.Store.{Store}
use rebuno.Prelude.Dict.{insert, lookup, values}

abbrev pub unset_or : String → String → Bool
unset_or wanted given = wanted == "" || given == wanted

abbrev none_or : Option Uuid → Option Uuid → Bool
none_or none given = true
none_or (some wanted) none = false
none_or (some wanted) (some given) = given == wanted

abbrev spawner : Option SpawnedBy → Option Uuid
spawner none = none
spawner (some by) = some by.execution_id

-- the tests of listExecutionsLocked, in its order
unfoldable pub matches_filter : ExecutionFilter → Execution → Bool
matches_filter f e =
    unset_or f.agent_id e.agent_id
    && (elim f.agent_ids [ none ↦ true | some ids ↦ contains ids e.agent_id ]
        && (unset_or f.session e.session
            && (unset_or f.idempotency_key e.idempotency_key
                && (none_or f.spawned_by (spawner e.spawned_by)
                    && (none_or f.parent_execution_id e.parent_execution_id
                        && (none_or f.forked_from e.forked_from
                            && (elim f.status [ none ↦ true | some st ↦ same_status e.status st ]
                                && elim f.cursor [ none ↦ true | some c ↦ ltb e.id c ])))))))

abbrev pub later_id : Execution → Execution → Bool
later_id a b = ltb b.id a.id

-- matched[limit-1].ID
unfoldable pub last_id : List Execution → Option Uuid
last_id [] = none
last_id (e ∷ []) = some e.id
last_id (e ∷ f ∷ l) = last_id (f ∷ l)

abbrev pub page_of : ℕ → List Execution → ExecutionPage
page_of limit matched =
    if ltb limit (length matched)
    then record { executions = take limit matched; next_cursor = last_id (take limit matched) }
    else record { executions = matched; next_cursor = none }

-- listExecutionsLocked
unfoldable pub list_executions : ExecutionFilter → Store → ExecutionPage
unfolding matches_filter last_id
list_executions f s =
    page_of (if f.limit == 0 then 50 else f.limit)
      (sort later_id (filter (matches_filter f) (values s.executions)))

abbrev spawned_step : Option SpawnedBy → Option String
spawned_step none = none
spawned_step (some by) = some by.step_id

abbrev both_spawned_by : Option String → Option String → Bool
both_spawned_by (some a) (some b) = a == b
both_spawned_by _ _ = false

-- the conflicts that createExecutionLocked looks for
abbrev clashes : Execution → Execution → Bool
clashes exec e =
    (not (exec.idempotency_key == "")
      && (e.agent_id == exec.agent_id && e.idempotency_key == exec.idempotency_key))
    || both_spawned_by (spawned_step e.spawned_by) (spawned_step exec.spawned_by)

abbrev pub created : Context → Execution → Execution
created ctx exec =
    let at = if exec.created_at == 0 then ctx.now else exec.created_at in
    record exec {
      status = ExecutionStatus.pending;
      created_at = at;
      updated_at = at;
      restoration = [];
    }

-- createExecutionLocked
unfoldable pub create_execution : Context → Execution → Action Store (Unit {0})
create_execution ctx exec s = elim (lookup exec.id s.executions) [
  | some _ ↦ (err conflict, s)
  | none ↦
      if any (clashes exec) (values s.executions)
      then (err conflict, s)
      else (ok tt, record s { executions = insert exec.id (created ctx exec) s.executions })
]

-- getExecutionLocked
unfoldable pub get_execution : Uuid → Store → Result Execution
get_execution id s = or_raise not_found (lookup id s.executions)

-- another execution of the session is running or blocked
abbrev pub occupies : Uuid → String → Execution → Bool
occupies id session other =
    not (other.id == id) && (other.session == session && is_active other.status)

abbrev pub with_status : Context → ExecutionStatus → RawMessage → String → Execution → Execution
with_status ctx status output reason e = record e {
  status = status;
  output = if is_empty output then e.output else output;
  failure_reason = if reason == "" then e.failure_reason else reason;
  updated_at = ctx.now;
}

abbrev pub session_taken : Uuid → ExecutionStatus → Execution → Store → Bool
session_taken id status e s =
    not (e.session == "") && (is_active status && any (occupies id e.session) (values s.executions))

-- updateExecutionStatusLocked
unfoldable pub update_execution_status :
    Context → Uuid → ExecutionStatus → RawMessage → String → Action Store (Unit {0})
update_execution_status ctx id status output reason s = elim (lookup id s.executions) [
  | none ↦ (err not_found, s)
  | some e ↦
      if is_terminal e.status
      then (err execution_terminal, s)
      else if session_taken id status e s
      then (err conflict, s)
      else (
        ok tt,
        record s { executions = insert id (with_status ctx status output reason e) s.executions },
      )
]

abbrev deadline_passed : Time → Option Time → Bool
deadline_passed now none = false
deadline_passed now (some at) = leb at now

-- listExpiredExecutionsLocked
unfoldable pub list_expired_executions : Time → Store → List Execution
list_expired_executions now s =
    filter (λ e. not (is_terminal e.status) && deadline_passed now e.deadline_at)
      (values s.executions)

abbrev pub queued_in : String → Time → Execution → Bool
queued_in session now e =
    e.session == session && (is_pending e.status && not (deadline_passed now e.deadline_at))

-- the loop of nextPendingInSessionLocked: the least identifier so far, none for an execution that is
-- still zero; the identifiers come from uuid.NewV7, which never gives uuid.Nil, the mark of that
unfoldable pub first_id : (Execution → Bool) → Option Execution → List Execution → Option Execution
first_id p next [] = next
first_id p next (e ∷ l) =
    first_id p
      (if p e
        then elim next [ none ↦ some e | some n ↦ if ltb e.id n.id then some e else some n ]
        else next)
      l

-- nextPendingInSessionLocked
unfoldable pub next_pending_in_session : String → Time → Store → Result Execution
next_pending_in_session session now s =
    or_raise not_found (first_id (queued_in session now) none (values s.executions))

-- the loop of sessionHeadLocked
unfoldable pub newest_id : (Execution → Bool) → Option Execution → List Execution → Option Execution
newest_id p head [] = head
newest_id p head (e ∷ l) =
    newest_id p
      (if p e
        then elim head [ none ↦ some e | some h ↦ if ltb h.id e.id then some e else some h ]
        else head)
      l

-- sessionHeadLocked
unfoldable pub session_head : String → String → Store → Result Execution
session_head session agent_id s = or_raise not_found (
    newest_id (λ e. e.session == session && (e.agent_id == agent_id && is_completed e.status)) none
      (values s.executions))

-- setExecutionParentLocked
unfoldable pub set_execution_parent : Uuid → Uuid → Action Store (Unit {0})
set_execution_parent id parent s = elim (lookup id s.executions) [
  | none ↦ (err not_found, s)
  | some e ↦ elim (lookup parent s.executions) [
    | none ↦ (err not_found, s)
    | some _ ↦ (
      ok tt,
      record s {
        executions = insert id (record e { parent_execution_id = some parent }) s.executions;
      },
    )
  ]
]

-- setExecutionStateLocked
unfoldable pub set_execution_state : Uuid → RawMessage → Action Store (Unit {0})
set_execution_state id state s = elim (lookup id s.executions) [
  | none ↦ (err not_found, s)
  | some _ ↦ (ok tt, record s { states = insert id state s.states })
]

-- executionStateLocked
unfoldable pub execution_state : Uuid → Store → Result RawMessage
execution_state id s = elim (lookup id s.executions) [
  | none ↦ err not_found
  | some _ ↦ ok (elim (lookup id s.states) [ none ↦ empty | some raw ↦ raw ])
]

abbrev unsettled : Store → Execution → Bool
unsettled s child = elim child.spawned_by [
  | none ↦ false
  | some by ↦ elim (lookup by.execution_id s.executions) [
    | none ↦ false
    | some parent ↦ elim (lookup by.step_id s.steps) [
      | none ↦ false
      | some step ↦
          (is_terminal child.status
            && (is_executing step.status && not (is_terminal parent.status)))
          || (not (is_terminal child.status) && is_terminal parent.status)
    ]
  ]
]

-- listUnsettledSubagentsLocked
unfoldable pub list_unsettled_subagents : Store → List Execution
list_unsettled_subagents s = filter (unsettled s) (values s.executions)
