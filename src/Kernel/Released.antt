-- ===== src/Kernel/Released.antt =====
-- Releasing the dispatches of an execution fences off every worker on it.
use rebuno.Prelude.{
  All, All-filter, All-of_filter, All-of_sort, All-sort, All-weaken, Bool-cases, List, Option, [],
  arith, filter, inl, inr, none, refl, some, string_eq, true, ℕ_eq, ◌==◌, ◌∙◌, ◌∷◌, ◌≡◌, ◌⊎◌,
}
use rebuno.Action.{err, for_each, ok, pure, reads}
use rebuno.Action.Laws.{bind-ok}
use rebuno.Context.{Context}
use rebuno.Domain.Records.{Dispatch, Lease, Time, Uuid, lease_superseded}
use rebuno.Domain.Status.{is_exhausted}
use rebuno.Kernel.Env.{Env, release_dispatch, release_dispatches}
use rebuno.Memstore.Dispatches.{list_dispatches_by_execution, renew_lease, retire, retired}
use rebuno.Memstore.Dispatches.Fence.{Queued}
use rebuno.Memstore.Store.{Store}
use rebuno.Prelude.Dict.{
  All-lookup, IsKeyed-lookup, insert, lookup, lookup-insert, lookup-insert_self, lookup-values,
  values,
}

-- From s to t, every dispatch stays as it was or is exhausted, and none is added.
record Exhausting (s t : Store) : Type 0 where
  pub stays :
      (id : Uuid) (x : Dispatch)
      → lookup id s.dispatches ≡ some x
      → (y : Dispatch) × (lookup id t.dispatches ≡ some y)
        × (y.execution_id ≡ x.execution_id)
        × ((y ≡ x) ⊎ (is_exhausted y.status ≡ true))
  pub was :
      (id : Uuid) (y : Dispatch)
      → lookup id t.dispatches ≡ some y
      → (x : Dispatch) × (lookup id s.dispatches ≡ some x)

Exhausting-refl : (s : Store) → Exhausting s s
Exhausting-refl s = record { stays = λ id x p. (x, p, refl, inl refl); was = λ id y p. (y, p) }

Exhausting-chain : (s t u : Store) → Exhausting s t → Exhausting t u → Exhausting s u
Exhausting-chain s t u a b = record {
  stays = λ id x p.
      let (y, q, e, same) = a.stays id x p in
      let (z, r, f, same') = b.stays id y q in (z, r, f ∙ e, ground arith);
  was = λ id z r. let (y, q) = b.was id z r in a.was id y q;
}

-- The dispatch under the identifier of d is d, or is exhausted.
abbrev Present : Store → Dispatch → Type 0
Present s d =
    (y : Dispatch) × (lookup d.id s.dispatches ≡ some y)
    × ((y ≡ d) ⊎ (is_exhausted y.status ≡ true))

Present-Exhausting : (s t : Store) (d : Dispatch) → Exhausting s t → Present s d → Present t d
Present-Exhausting s t d h (y, p, o) =
    let (z, q, e, same) = h.stays d.id y p in (z, q, ground arith)

abbrev Gone : Store → Dispatch → Type 0
Gone s d = (y : Dispatch) × (lookup d.id s.dispatches ≡ some y) × (is_exhausted y.status ≡ true)

Gone-Exhausting : (s t : Store) (d : Dispatch) → Exhausting s t → Gone s d → Gone t d
Gone-Exhausting s t d h (y, p, o) = let (z, q, e, same) = h.stays d.id y p in (z, q, ground arith)

module _ (env : Env) (ctx : Context) where
  retire-run :
      (id : Uuid) (y : Dispatch) (s : Store)
      → lookup id s.dispatches ≡ some y
      → retire ctx id s ≡ (ok tt, record s { dispatches = insert id (retired ctx y) s.dispatches })
  unfolding retire
  retire-run id y s p = ground arith

  replaced-Exhausting :
      (d y : Dispatch) (s : Store)
      → lookup d.id s.dispatches ≡ some y
      → Exhausting s (record s { dispatches = insert d.id (retired ctx y) s.dispatches })
  replaced-Exhausting d y s p = record {
    stays = λ id x q. elim (Bool-cases (d.id == id)) [
      | inl e ↦ (
        retired ctx y,
        ground (arith, lookup-insert d.id id (retired ctx y) s.dispatches),
        ground (arith, (ℕ_eq.beq_iff d.id id).0 e),
        inr refl,
      )
      | inr e ↦
          (x, ground (arith, lookup-insert d.id id (retired ctx y) s.dispatches), refl, inl refl)
    ];
    was = λ id z q. elim (Bool-cases (d.id == id)) [
      | inl e ↦ (y, ground (arith, (ℕ_eq.beq_iff d.id id).0 e))
      | inr e ↦ (z, ground (arith, lookup-insert d.id id (retired ctx y) s.dispatches))
    ];
  }

  release_one :
      (d : Dispatch) (s : Store)
      → Present s d
      → (t : Store) × (release_dispatch env ctx d s ≡ (ok tt, t)) × Exhausting s t × Gone t d
  unfolding release_dispatch pure
  release_one d s (y, p, o) = elim (Bool-cases (is_exhausted d.status)) [
    | inl e ↦ (s, rw e refl, Exhausting-refl s, (y, p, ground arith))
    | inr e ↦ (
      record s { dispatches = insert d.id (retired ctx y) s.dispatches },
      rw e (retire-run d.id y s p),
      replaced-Exhausting d y s p,
      (retired ctx y, lookup-insert_self d.id (retired ctx y) s.dispatches, refl),
    )
  ]

  release_each :
      (ds : List Dispatch) (s : Store)
      → All (Present s) ds
      → (t : Store) × (for_each (release_dispatch env ctx) ds s ≡ (ok tt, t))
        × Exhausting s t
        × All (Gone t) ds
  unfolding for_each pure
  release_each [] s h = (s, refl, Exhausting-refl s, tt)
  release_each (d ∷ ds) s h =
      let (t, run, first, gone) = release_one d s h.0 in
      let (u, more, rest, all_gone) =
        release_each ds t (All-weaken _ _ ds (λ x. Present-Exhausting s t x first) h.1) in
      (
        u,
        bind-ok (release_dispatch env ctx d) (λ _. for_each (release_dispatch env ctx) ds) s tt t
              run
            ∙ more,
        Exhausting-chain s t u first rest,
        (Gone-Exhausting t u d rest gone, all_gone),
      )

  module _ (id : Uuid) (s : Store) (queued : Queued s) where
    listed-Present : All (Present s) (list_dispatches_by_execution id s)
    unfolding list_dispatches_by_execution
    listed-Present = All-sort _ _ _ (
        All-filter _ _ (values s.dispatches) (
          All-weaken _ _ (values s.dispatches) (λ d p. (d, p, inl refl))
            (lookup-values _ s.dispatches queued)))

    -- The dispatches of the execution are among those listed.
    listed-all :
        (P : Dispatch → Type 0)
        → All P (list_dispatches_by_execution id s)
        → (k : Uuid) (x : Dispatch) → lookup k s.dispatches ≡ some x
        → x.execution_id ≡ id
        → P x
    unfolding list_dispatches_by_execution
    listed-all P h k x p e =
        All-lookup _ s.dispatches k x
          (All-of_filter P (λ d. d.execution_id == id) (values s.dispatches)
            (All-of_sort P _ (filter (λ d. d.execution_id == id) (values s.dispatches)) h))
          p ((ℕ_eq.beq_iff x.execution_id id).1 e)

    worn_out :
        (t : Store)
        → Exhausting s t
        → All (Gone t) (list_dispatches_by_execution id s)
        → (k : Uuid) (y : Dispatch) → lookup k t.dispatches ≡ some y
        → y.execution_id ≡ id
        → is_exhausted y.status ≡ true
    worn_out t h gone k y p e =
        let (x, px) = h.was k y p in
        let (y', q, same_id, same) = h.stays k x px in
        let (z, r, o) = listed-all (Gone t) gone k x px (ground arith) in
        let under = IsKeyed-lookup (λ (d : Dispatch). d.id) k x s.dispatches queued px in
        ground arith

    fenced :
        (t : Store)
        → Exhausting s t
        → All (Gone t) (list_dispatches_by_execution id s)
        → (lease : Lease) (at : Time) → (renew_lease id lease at t).0 ≡ err lease_superseded
    unfolding renew_lease
    fenced t h gone lease at = go (lookup lease.dispatch_id t.dispatches) refl
      where
        go :
            (o : Option Dispatch)
            → lookup lease.dispatch_id t.dispatches ≡ o
            → (renew_lease id lease at t).0 ≡ err lease_superseded
        go none p = ground arith
        go (some y) p = elim (Bool-cases (y.execution_id == id)) [
          | inl e ↦
              let gone_y =
                worn_out t h gone lease.dispatch_id y p ((ℕ_eq.beq_iff y.execution_id id).0 e) in
              ground arith
          | inr e ↦ ground arith
        ]

-- Releasing the dispatches of an execution never fails on a queue whose dispatches stand under their identifiers, and afterwards no lease on any dispatch of the execution renews, whatever attempt it names.
pub release_dispatches-fences :
    (env : Env) (ctx : Context) (id : Uuid) (s : Store)
    → Queued s
    → (t : Store) × (release_dispatches env ctx id s ≡ (ok tt, t))
      × ((lease : Lease) (at : Time) → (renew_lease id lease at t).0 ≡ err lease_superseded)
unfolding release_dispatches reads
release_dispatches-fences env ctx id s queued =
    let (t, run, h, gone) =
      release_each env ctx (list_dispatches_by_execution id s) s
        (listed-Present env ctx id s queued) in
    (
      t,
      bind-ok _ (λ ds. for_each (release_dispatch env ctx) ds) s (list_dispatches_by_execution id s)
            s refl
          ∙ run,
      fenced env ctx id s queued t h gone,
    )
