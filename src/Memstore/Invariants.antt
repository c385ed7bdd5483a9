-- ===== src/Memstore/Invariants.antt =====
-- The invariants of sessions, logs and the queue that the clean-up keeps.
use rebuno.Prelude.{
  Bool, Eq, List, Option, [], ap, arith, not, filter, inl, inr, none, refl, some, string_eq, sym,
  Bool-cases, ℕ_eq, ◌==◌, ◌∙◌, ◌∷◌, ◌≡◌,
}
use rebuno.Domain.Records.{Dispatch, Execution, Time, Uuid}
use rebuno.Memstore.Cleaned.{deleted-lookup, lookup-map_values}
use rebuno.Domain.Status.{is_active}
use rebuno.Memstore.Cleanup.{
  delete_each, delete_execution, delete_executions_created_before, is_deletable, keep_values,
  map_values, orphaned,
}
use rebuno.Memstore.Dispatches.Locked.{QueueInv}
use rebuno.Memstore.Events.Log.{IsNumbered}
use rebuno.Memstore.Executions.Session.{SessionInv, execution_id}
use rebuno.Memstore.Store.{Store}
use rebuno.Prelude.Dict.{Dict, IsKeyed, delete, lookup, lookup-delete, values}
use rebuno.Memstore.Retained.{log-delete_execution, lookup-keep_values}

module _ {K V : Type 0} ⦃e : Eq K⦄ (id : V → K) where
  delete-IsKeyed : (k : K) (m : Dict K V) → IsKeyed id m → IsKeyed id (delete k m)
  unfolding delete
  delete-IsKeyed k [] h = tt
  delete-IsKeyed k ((j, v) ∷ m) h = ground (arith, delete-IsKeyed k m h.2, lookup-delete k j m)

  keep_values-IsKeyed : (p : V → Bool) (m : Dict K V) → IsKeyed id m → IsKeyed id (keep_values p m)
  unfolding keep_values
  keep_values-IsKeyed p [] h = tt
  keep_values-IsKeyed p ((j, v) ∷ m) h = ground (
    arith,
    keep_values-IsKeyed p m h.2,
    delete-IsKeyed j (keep_values p m),
    lookup-keep_values p j m,
  )

-- Deleting one execution keeps the invariants.
deleted-from :
    (gone id : Uuid) (s : Store) (x : Execution)
    → lookup id (delete_execution gone s).executions ≡ some x
    → (e : Execution) × (lookup id s.executions ≡ some e) × (x ≡ orphaned gone e)
deleted-from gone id s x h = from (lookup id s.executions) refl
  where
    from :
        (o : Option Execution)
        → lookup id s.executions ≡ o
        → (e : Execution) × (lookup id s.executions ≡ some e) × (x ≡ orphaned gone e)
    from none q =
        let p = lookup-delete gone id s.executions in
        let r = deleted-lookup gone id s in absurd (ground arith)
    from (some e) q =
        let p = lookup-delete gone id s.executions in
        let r = deleted-lookup gone id s in (e, q, ground arith)

map_values-IsKeyed :
    (gone : Uuid) (m : Dict Uuid Execution)
    → IsKeyed execution_id m
    → IsKeyed execution_id (map_values (orphaned gone) m)
unfolding map_values
map_values-IsKeyed gone [] h = tt
map_values-IsKeyed gone ((k, e) ∷ m) h =
    (h.0, lookup-map_values (orphaned gone) k m ∙ rw h.1 refl, map_values-IsKeyed gone m h.2)

delete_execution-SessionInv :
    (gone : Uuid) (s : Store) → SessionInv s → SessionInv (delete_execution gone s)
delete_execution-SessionInv gone s h = record {
  keyed =
      unfold delete_execution in
      map_values-IsKeyed gone (delete gone s.executions)
        (delete-IsKeyed execution_id gone s.executions h.keyed);
  alone = λ a b x y p q ax ay named same.
      let (e, pe, xe) = deleted-from gone a s x p in
      let (f, pf, yf) = deleted-from gone b s y q in
      h.alone a b e f pe pf (ap (λ (z : Execution). is_active z.status) (sym xe) ∙ ax)
        (ap (λ (z : Execution). is_active z.status) (sym yf) ∙ ay)
        (ap (λ (z : Execution). z.session == "") (sym xe) ∙ named)
        (ap (λ (z : Execution). z.session) (sym xe) ∙ same ∙ ap (λ (z : Execution). z.session) yf);
}

delete_execution-IsNumbered :
    (gone : Uuid) (s : Store) → IsNumbered s → IsNumbered (delete_execution gone s)
delete_execution-IsNumbered gone s h id =
    rw (log-delete_execution gone id s)
      (elim (Bool-cases (gone == id)) [ inl same ↦ rw same tt | inr other ↦ rw other (h id) ])

delete_execution-QueueInv :
    (gone : Uuid) (s : Store) → QueueInv s → QueueInv (delete_execution gone s)
unfolding delete_execution
delete_execution-QueueInv gone s h = record {
  queued =
      keep_values-IsKeyed (λ (d : Dispatch). d.id) (λ (d : Dispatch). not (d.execution_id == gone))
        s.dispatches h.queued;
  locked = λ id d p. h.locked id d (stored id d p (lookup id s.dispatches) refl);
}
  where
    stored :
        (id : Uuid) (d : Dispatch)
        → lookup id (keep_values (λ (x : Dispatch). not (x.execution_id == gone)) s.dispatches)
          ≡ some d
        → (o : Option Dispatch) → lookup id s.dispatches ≡ o
        → lookup id s.dispatches ≡ some d
    stored id d p none q =
        let r =
          lookup-keep_values (λ (x : Dispatch). not (x.execution_id == gone)) id s.dispatches in
        absurd (ground arith)
    stored id d p (some x) q =
        let r =
          lookup-keep_values (λ (x : Dispatch). not (x.execution_id == gone)) id s.dispatches in
        ground arith

-- What every deletion of an execution keeps, the clean-up keeps.
delete_each-keeps :
    (P : Store → Type 0)
    → ((gone : Uuid) (s : Store) → P s → P (delete_execution gone s))
    → (ds : List Execution) (s : Store) → P s
    → P (delete_each ds s)
unfolding delete_each
delete_each-keeps P one [] s h = h
delete_each-keeps P one (d ∷ ds) s h =
    delete_each-keeps P one ds (delete_execution d.id s) (one d.id s h)

module _ (before : Time) (s : Store) where
  pub cleanup-SessionInv : SessionInv s → SessionInv (delete_executions_created_before before s)
  unfolding delete_executions_created_before
  cleanup-SessionInv =
      delete_each-keeps SessionInv delete_execution-SessionInv
        (filter (is_deletable before s) (values s.executions)) s

  pub cleanup-IsNumbered : IsNumbered s → IsNumbered (delete_executions_created_before before s)
  unfolding delete_executions_created_before
  cleanup-IsNumbered =
      delete_each-keeps IsNumbered delete_execution-IsNumbered
        (filter (is_deletable before s) (values s.executions)) s

  pub cleanup-QueueInv : QueueInv s → QueueInv (delete_executions_created_before before s)
  unfolding delete_executions_created_before
  cleanup-QueueInv =
      delete_each-keeps QueueInv delete_execution-QueueInv
        (filter (is_deletable before s) (values s.executions)) s
