-- ===== src/Memstore/Steps.antt =====
-- internal/store/memstore/steps.go
pub mod Outcome
use rebuno.Prelude.{
  Bool, List, Option, String, [], false, filter, if◌then◌else◌, ltb, none, not, some, sort,
  string_eq, ℕ, ℕ_eq, ◌&&◌, ◌+◌, ◌==◌, ◌||◌, ◌∷◌,
}
use rebuno.Action.{Action, Result, err, modify, ok, or_raise, ◌>>◌}
use rebuno.Domain.Records.{Lease, Step, StepKind, Time, Uuid, lease_superseded, not_found}
use rebuno.Domain.Status.{is_settled}
use rebuno.Memstore.Store.{CounterKey, Store, counter_key_eq, step_id_less}
use rebuno.Prelude.Dict.{Dict, insert, lookup, values}

-- the fields that upsertStepLocked keeps when the new step leaves them empty
abbrev keep_text : String → String → String
keep_text new old = if new == "" then old else new

abbrev filled : Step → Step → Step
filled existing step = record step {
  execution_id = if step.execution_id == 0 then existing.execution_id else step.execution_id;
  kind = keep_text step.kind existing.kind;
  target = keep_text step.target existing.target;
  args_hash = keep_text step.args_hash existing.args_hash;
  idempotency = keep_text step.idempotency existing.idempotency;
}

abbrev frozen : Step → Step → Step
frozen existing step = record step {
  status = existing.status;
  result = existing.result;
  error = existing.error;
  completed_at = existing.completed_at;
  usage_input = existing.usage_input;
  usage_output = existing.usage_output;
}

abbrev pub merged : Option Step → Step → Step
merged none step = step
merged (some existing) step =
    if is_settled existing.status
    then frozen existing (filled existing step)
    else filled existing step

-- upsertStepLocked
unfoldable pub upsert : Step → Action Store (Unit {0})
upsert step s = (
  ok tt,
  record s { steps = insert step.step_id (merged (lookup step.step_id s.steps) step) s.steps },
)

-- getStepLocked
unfoldable pub get_step : String → Store → Result Step
get_step id s = or_raise not_found (lookup id s.steps)

-- dispatchOccurrenceLocked
unfoldable pub dispatch_occurrence : CounterKey → Store → ℕ
dispatch_occurrence key s = elim (lookup key s.counters) [ none ↦ 0 | some consumed ↦ consumed + 1 ]

-- clearCountersLocked
unfoldable pub clear_counters : Uuid → Dict CounterKey ℕ → Dict CounterKey ℕ
clear_counters id [] = []
clear_counters id ((k, n) ∷ m) =
    let rest = clear_counters id m in if k.dispatch_id == id then rest else (k, n) ∷ rest

-- checkLeaseLocked of dispatches.go
unfoldable pub check_lease : Uuid → Lease → Action Store (Unit {0})
check_lease exec_id lease s = elim (lookup lease.dispatch_id s.dispatches) [
  | none ↦ (err lease_superseded, s)
  | some d ↦
      if not (d.execution_id == exec_id) || not (d.attempt == lease.attempt)
      then (err lease_superseded, s)
      else (ok tt, s)
]

abbrev advance_counter : CounterKey → ℕ → Dict CounterKey ℕ → Dict CounterKey ℕ
advance_counter key consumed m = elim (lookup key m) [
  | none ↦ insert key consumed m
  | some prev ↦ if ltb consumed prev then m else insert key consumed m
]

-- advanceDispatchOccurrenceLocked
unfoldable pub advance_dispatch_occurrence :
    Uuid → Lease → StepKind → String → String → ℕ → Action Store (Unit {0})
advance_dispatch_occurrence exec_id lease kind target args_hash consumed = do
  check_lease exec_id lease
  let key : CounterKey = record {
    dispatch_id = lease.dispatch_id;
    kind = kind;
    target = target;
    args_hash = args_hash;
  }
  modify (λ s. record s { counters = advance_counter key consumed s.counters })

-- ListByExecution
unfoldable pub list_by_execution : Uuid → Store → List Step
list_by_execution exec_id s =
    sort (λ a b. step_id_less a.step_id b.step_id)
      (filter (λ step. step.execution_id == exec_id) (values s.steps))

unfoldable pub sum_usage : (Step → Bool) → List Step → ℕ
sum_usage p [] = 0
sum_usage p (step ∷ steps) =
    if p step then step.usage_input + step.usage_output + sum_usage p steps else sum_usage p steps

-- ExecutionUsage
unfoldable pub execution_usage : Uuid → Store → ℕ
execution_usage exec_id s = sum_usage (λ step. step.execution_id == exec_id) (values s.steps)

-- s.executions[id].Session, "" for a missing key
abbrev session_of : Store → Uuid → String
session_of s id = elim (lookup id s.executions) [ none ↦ "" | some e ↦ e.session ]

-- SessionUsage
unfoldable pub session_usage : String → Store → ℕ
session_usage session s =
    sum_usage (λ step. session_of s step.execution_id == session) (values s.steps)

abbrev allowed_step : Uuid → String → Time → Store → Step → Bool
allowed_step exec_id session since s step = elim step.started_at [
  | none ↦ false
  | some at ↦
      not (ltb at since)
      && (if session == ""
          then step.execution_id == exec_id
          else session_of s step.execution_id == session)
]

abbrev started_before : Step → Step → Bool
started_before a b = elim a.started_at [
  | none ↦ false
  | some x ↦ elim b.started_at [
    | none ↦ false
    | some y ↦ if x == y then step_id_less a.step_id b.step_id else ltb x y
  ]
]

-- listAllowedStepsLocked
unfoldable pub list_allowed_steps : Uuid → String → Time → Store → List Step
list_allowed_steps exec_id session since s =
    sort started_before (filter (allowed_step exec_id session since s) (values s.steps))
