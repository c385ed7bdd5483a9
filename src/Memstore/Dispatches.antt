-- ===== src/Memstore/Dispatches.antt =====
-- internal/store/memstore/dispatches.go: the job queue. The signal to ListenDispatches holds no data
-- and is left out.
pub mod Fence
pub mod Locked
use rebuno.Prelude.{
  Bool, List, Option, String, [], any, false, filter, if◌then◌else◌, leb, length, limit_to, ltb,
  map, none, not, some, sort, string_eq, true, ℕ, ℕ_eq, ◌&&◌, ◌+◌, ◌==◌, ◌||◌, ◌∷◌,
}
use rebuno.Action.{Action, Result, err, ok, or_raise}
use rebuno.Context.{Context}
use rebuno.Domain.Records.{
  Dispatch, Lease, Time, Uuid, lease_superseded, nil_dereference, not_found,
}
use rebuno.Domain.Status.{DispatchStatus, is_claimable, is_in_flight, pending}
use rebuno.Memstore.Executions.{created}
use rebuno.Memstore.Steps.{clear_counters}
use rebuno.Memstore.Store.{Store, counter_key_eq}
use rebuno.Prelude.Dict.{insert, lookup, values}

abbrev or_now : Time → Time → Time
or_now now t = if t == 0 then now else t

-- enqueueLocked
unfoldable pub enqueue : Context → Dispatch → Action Store (Unit {0})
enqueue ctx d s =
    let created = or_now ctx.now d.created_at in
    let d' : Dispatch = record d {
      created_at = created;
      updated_at = or_now created d.updated_at;
    } in
    (ok tt, record s { dispatches = insert d.id d' s.dispatches })

abbrev put_dispatch : Dispatch → Store → Store
put_dispatch d s = record s { dispatches = insert d.id d s.dispatches }

abbrev pub is_due : Time → Dispatch → Bool
is_due now d = is_claimable d.status && leb d.next_attempt_at now

abbrev pub claimed : String → Time → Dispatch → Dispatch
claimed replica now d = record d {
  attempt = d.attempt + 1;
  status = DispatchStatus.in_flight;
  locked_by = some replica;
  locked_at = some now;
  updated_at = now;
}

-- one round of the last loop of claimLocked
unfoldable pub claim_one : String → Time → Dispatch → Store → Store
claim_one replica now d s = record s {
  counters = clear_counters d.id s.counters;
  dispatches = insert d.id (claimed replica now d) s.dispatches;
}

unfoldable pub claim_each : String → Time → List Dispatch → Store → Store
claim_each replica now [] s = s
claim_each replica now (d ∷ ds) s = claim_each replica now ds (claim_one replica now d s)

unfoldable pub due_dispatches : ℕ → Time → Store → List Dispatch
due_dispatches batch now s = limit_to batch (
    sort (λ a b. ltb a.next_attempt_at b.next_attempt_at)
      (filter (is_due now) (values s.dispatches)))

-- claimLocked
unfoldable pub claim : String → ℕ → Time → Action Store (List Dispatch)
claim replica batch now s =
    let pending = due_dispatches batch now s in
    (ok (map (claimed replica now) pending), claim_each replica now pending s)

abbrev pub with_ack : Context → DispatchStatus → Option Time → Dispatch → Dispatch
with_ack ctx status next d = record d {
  status = status;
  locked_by = none;
  locked_at = none;
  next_attempt_at = elim next [ none ↦ d.next_attempt_at | some t ↦ t ];
  updated_at = ctx.now;
}

-- ackLocked
unfoldable pub ack : Context → Uuid → ℕ → DispatchStatus → Option Time → Action Store (Unit {0})
ack ctx id attempt status next s = elim (lookup id s.dispatches) [
  | none ↦ (err lease_superseded, s)
  | some d ↦
      if not (d.attempt == attempt) || not (is_in_flight d.status)
      then (err lease_superseded, s)
      else (ok tt, record s { dispatches = insert id (with_ack ctx status next d) s.dispatches })
]

abbrev pub retired : Context → Dispatch → Dispatch
retired ctx d = record d {
  status = DispatchStatus.exhausted;
  locked_by = none;
  locked_at = none;
  updated_at = ctx.now;
}

-- retireLocked
unfoldable pub retire : Context → Uuid → Action Store (Unit {0})
retire ctx id s = elim (lookup id s.dispatches) [
  | none ↦ (err not_found, s)
  | some d ↦ (ok tt, record s { dispatches = insert id (retired ctx d) s.dispatches })
]

-- getDispatchLocked
unfoldable pub get_dispatch : Uuid → Store → Result Dispatch
get_dispatch id s = or_raise not_found (lookup id s.dispatches)

-- listDispatchesByExecutionLocked
unfoldable pub list_dispatches_by_execution : Uuid → Store → List Dispatch
list_dispatches_by_execution exec_id s =
    sort (λ a b. ltb a.created_at b.created_at)
      (filter (λ d. d.execution_id == exec_id) (values s.dispatches))

abbrev pub renewed : Time → Dispatch → Dispatch
renewed now d = record d { locked_at = some now; updated_at = now }

-- renewLeaseLocked
unfoldable pub renew_lease : Uuid → Lease → Time → Action Store (Unit {0})
renew_lease exec_id lease now s = elim (lookup lease.dispatch_id s.dispatches) [
  | none ↦ (err lease_superseded, s)
  | some d ↦
      if not (d.execution_id == exec_id)
        || (not (d.attempt == lease.attempt) || not (is_in_flight d.status))
      then (err lease_superseded, s)
      else (ok tt, record s { dispatches = insert lease.dispatch_id (renewed now d) s.dispatches })
]

-- leaseTimeoutLocked
unfoldable pub lease_timeout_of : Store → Dispatch → Time → Time
lease_timeout_of s d fallback = elim (lookup d.execution_id s.executions) [
  | none ↦ fallback
  | some e ↦ elim (lookup e.agent_id s.agents) [
    | none ↦ fallback
    | some a ↦ if ltb 0 a.lease_timeout then a.lease_timeout else fallback
  ]
]

-- The lock is older than the lease allows. The source subtracts the timeout from the clock.
abbrev pub is_stalled : Time → Time → Store → Dispatch → Bool
is_stalled now fallback s d =
    is_in_flight d.status
    && elim d.locked_at [ none ↦ true | some at ↦ ltb (at + lease_timeout_of s d fallback) now ]

-- The comparison of the sort reads through the pointer LockedAt.
abbrev locked_before : Dispatch → Dispatch → Bool
locked_before a b = elim a.locked_at [
  | none ↦ false
  | some x ↦ elim b.locked_at [ none ↦ false | some y ↦ ltb x y ]
]

abbrev pub is_unlocked : Dispatch → Bool
is_unlocked d = elim d.locked_at [ none ↦ true | some _ ↦ false ]

abbrev pub reclaimed : Time → Dispatch → Dispatch
reclaimed now d = record d {
  status = DispatchStatus.pending;
  locked_by = none;
  locked_at = none;
  next_attempt_at = now;
  updated_at = now;
}

unfoldable pub reclaim_each : Time → List Dispatch → Store → Store
reclaim_each now [] s = s
reclaim_each now (d ∷ ds) s =
    reclaim_each now ds (record s { dispatches = insert d.id (reclaimed now d) s.dispatches })

unfoldable pub stalled_dispatches : Time → Time → Store → List Dispatch
stalled_dispatches now fallback s = filter (is_stalled now fallback s) (values s.dispatches)

-- what sorting and cutting the stalled dispatches leaves
abbrev pub first_stalled : Time → Time → ℕ → Store → List Dispatch
first_stalled now fallback batch s =
    limit_to batch (sort locked_before (stalled_dispatches now fallback s))

abbrev pub sort_panics : Time → Time → Store → Bool
sort_panics now fallback s =
    let found = stalled_dispatches now fallback s in ltb 1 (length found) && any is_unlocked found

-- reclaimStalledLocked. Sorting two or more dispatches of which one has no lock time panics.
unfoldable pub reclaim_stalled : Time → Time → ℕ → Action Store (List Dispatch)
reclaim_stalled now fallback batch s =
    let stalled = first_stalled now fallback batch s in
    if sort_panics now fallback s
    then (err nil_dereference, s)
    else (ok (map (reclaimed now) stalled), reclaim_each now stalled s)
