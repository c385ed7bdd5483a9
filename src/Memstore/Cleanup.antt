-- ===== src/Memstore/Cleanup.antt =====
-- internal/store/memstore/executions.go: the clean-up of old executions, and the sessions that can
-- admit one. The clean-up deletes while it goes over the map; each execution is looked at once, and
-- what it reads of one is not changed by the others.
use rebuno.Prelude.{
  Eq, Bool, List, Option, String, [], any, contains, false, filter, if◌then◌else◌, ltb, map, none,
  not, some, sort, string_eq, true, ℕ_eq, ◌&&◌, ◌==◌, ◌||◌, ◌∷◌,
}
use rebuno.Domain.Records.{
  Approval, Dispatch, Execution, Resource, ResourceCheckpoint, Step, Time, Uuid,
}
use rebuno.Domain.Status.{is_active, is_pending, is_terminal}
use rebuno.Memstore.Store.{Store, step_id_less}
use rebuno.Prelude.Dict.{Dict, delete, lookup, values}

-- an execution keeps the others of its session
abbrev keeps_session : Time → String → Execution → Bool
keeps_session before session e =
    not (session == "")
    && (e.session == session && (not (is_terminal e.status) || not (ltb e.created_at before)))

-- the loop's condition to go on to the next execution, the other way round
abbrev pub is_deletable : Time → Store → Execution → Bool
is_deletable before s e = not (
    not (is_terminal e.status)
    || (not (ltb e.created_at before)
        || any (keeps_session before e.session) (values s.executions)))

abbrev pub cleared_of : Uuid → Option Uuid → Option Uuid
cleared_of id none = none
cleared_of id (some other) = if other == id then none else some other

-- the pointers to a deleted execution
abbrev pub orphaned : Uuid → Execution → Execution
orphaned id child = record child {
  parent_execution_id = cleared_of id child.parent_execution_id;
  forked_from = cleared_of id child.forked_from;
}

module _ {K V : Type 0} where
  unfoldable pub map_values : (V → V) → Dict K V → Dict K V
  map_values f [] = []
  map_values f ((k, v) ∷ m) = (k, f v) ∷ map_values f m

  -- delete(m, k) for the values that fail a test
  unfoldable pub keep_values : ⦃e : Eq K⦄ → (V → Bool) → Dict K V → Dict K V
  unfolding delete
  keep_values p [] = []
  keep_values p ((k, v) ∷ m) =
      let rest = keep_values p m in if p v then (k, v) ∷ rest else delete k rest

-- the step of an approval is a step of the execution
abbrev step_of : Uuid → Store → String → Bool
step_of id s step_id = elim (lookup step_id s.steps) [
  | none ↦ false
  | some step ↦ step.execution_id == id
]

-- one round of the loop, for an execution that is deleted
unfoldable pub delete_execution : Uuid → Store → Store
unfolding map_values keep_values filter
delete_execution id s = record s {
  approvals = keep_values (λ (a : Approval). not (step_of id s a.step_id)) s.approvals;
  steps = keep_values (λ (t : Step). not (t.execution_id == id)) s.steps;
  dispatches = keep_values (λ (d : Dispatch). not (d.execution_id == id)) s.dispatches;
  resources = filter (λ (r : Resource). not (r.execution_id == id)) s.resources;
  checkpoints = filter (λ (c : ResourceCheckpoint). not (c.execution_id == id)) s.checkpoints;
  events = delete id s.events;
  executions = map_values (orphaned id) (delete id s.executions);
  states = delete id s.states;
}

unfoldable pub delete_each : List Execution → Store → Store
unfolding delete_execution
delete_each [] s = s
delete_each (e ∷ es) s = delete_each es (delete_execution e.id s)

-- deleteExecutionsCreatedBeforeLocked
unfoldable pub delete_executions_created_before : Time → Store → Store
unfolding filter
delete_executions_created_before before s =
    delete_each (filter (is_deletable before s) (values s.executions)) s

abbrev waits_in : Time → Execution → Bool
waits_in now e = is_pending e.status && elim e.deadline_at [ none ↦ true | some at ↦ ltb now at ]

abbrev unseen_first : List String → List String
unseen_first [] = []
unseen_first (x ∷ xs) = if contains xs x then unseen_first xs else x ∷ unseen_first xs

-- listIdleSessionsLocked
unfoldable pub list_idle_sessions : Time → Store → List String
unfolding filter contains any
list_idle_sessions now s = sort step_id_less (
    filter
      (λ session.
        not (
          any (λ (e : Execution). e.session == session && is_active e.status)
            (values s.executions)))
      (unseen_first (
        map (λ (e : Execution). e.session)
          (filter (λ (e : Execution). not (e.session == "") && waits_in now e)
            (values s.executions)))))
