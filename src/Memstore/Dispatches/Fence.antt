-- ===== src/Memstore/Dispatches/Fence.antt =====
-- A claim hands out a lease and fences off every earlier one.
use rebuno.Prelude.{
  All, All-both, All-filter, All-limit_to, All-map, All-sort, All-weaken, Bool-cases, List, String,
  [], arith, filter-All, if◌then◌else◌, inl, inr, map, refl, some, string_eq, true, ℕ, ℕ_eq, ◌+◌,
  ◌==◌, ◌↔◌, ◌∷◌, ◌≡◌, ◌⊎◌,
}
use rebuno.Action.{ok}
use rebuno.Domain.Records.{Dispatch, Lease, Time, Uuid}
use rebuno.Domain.Status.{is_in_flight}
use rebuno.Memstore.Dispatches.{
  claim, claim_each, claim_one, claimed, due_dispatches, is_due, renew_lease,
}
use rebuno.Memstore.Store.{Store}
use rebuno.Prelude.Dict.{IsKeyed, lookup, lookup-insert, lookup-values, values}

-- The dispatches of the store stand under their identifiers.
abbrev pub Queued : Store → Type 0
Queued s = IsKeyed (λ (d : Dispatch). d.id) s.dispatches

-- The dispatch d is the one that the store s holds under its identifier.
abbrev Held : Store → Dispatch → Type 0
Held s d = lookup d.id s.dispatches ≡ some d

module _ (replica : String) (now : Time) (s : Store) where
  lookup-claim_one :
      (d : Dispatch) (t : Store) (id : Uuid)
      → lookup id (claim_one replica now d t).dispatches
        ≡ (if d.id == id then some (claimed replica now d) else lookup id t.dispatches)
  unfolding claim_one
  lookup-claim_one d t id = lookup-insert d.id id (claimed replica now d) t.dispatches

  -- A dispatch that is claimed stays claimed through the rest of the loop.
  claim_each-stays :
      (ds : List Dispatch) (t : Store) (d : Dispatch)
      → All (Held s) ds
      → Held s d
      → lookup d.id t.dispatches ≡ some (claimed replica now d)
      → lookup d.id (claim_each replica now ds t).dispatches ≡ some (claimed replica now d)
  unfolding claim_each
  claim_each-stays [] t d hs h p = p
  claim_each-stays (x ∷ ds) t d hs h p =
      claim_each-stays ds (claim_one replica now x t) d hs.1 h
        (ground (arith, lookup-claim_one x t d.id, hs.0))

  claim_each-All :
      (ds : List Dispatch) (t : Store)
      → All (Held s) ds
      → All
          (λ d. lookup d.id (claim_each replica now ds t).dispatches ≡ some (claimed replica now d))
          ds
  unfolding claim_each
  claim_each-All [] t hs = tt
  claim_each-All (x ∷ ds) t hs = (
    claim_each-stays ds (claim_one replica now x t) x hs.1 hs.0
        (ground (arith, lookup-claim_one x t x.id)),
    claim_each-All ds (claim_one replica now x t) hs.1,
  )

  claim_each-effect :
      (ds : List Dispatch) (t : Store) (id : Uuid)
      → All (λ d. Held s d × (is_due now d ≡ true)) ds
      → (lookup id (claim_each replica now ds t).dispatches ≡ lookup id t.dispatches)
        ⊎ ((d : Dispatch) × (lookup id s.dispatches ≡ some d)
            × (is_due now d ≡ true)
            × (lookup id (claim_each replica now ds t).dispatches ≡ some (claimed replica now d)))
  unfolding claim_each
  claim_each-effect [] t id hs = inl refl
  claim_each-effect (x ∷ ds) t id hs =
      elim (claim_each-effect ds (claim_one replica now x t) id hs.1) [
        | inr found ↦ inr found
        | inl same ↦ elim (Bool-cases (x.id == id)) [
          | inl e ↦ inr (x, ground (arith, hs.0.0), hs.0.1, ground (arith, lookup-claim_one x t id))
          | inr e ↦ inl (ground (arith, lookup-claim_one x t id))
        ]
      ]

module _ (batch : ℕ) (now : Time) (s : Store) (queued : Queued s) where
  due_dispatches-All : All (λ d. Held s d × (is_due now d ≡ true)) (due_dispatches batch now s)
  unfolding due_dispatches
  due_dispatches-All = All-limit_to _ batch _ (
      All-sort _ _ _ (
        All-both _ _ _
          (All-filter _ (is_due now) (values s.dispatches) (lookup-values _ s.dispatches queued))
          (filter-All (is_due now) (values s.dispatches))))

-- On a queue whose dispatches stand under their identifiers, a claim touches a dispatch only if it was pending or failed and its next attempt was due; it then is in flight under one more attempt, locked now by the replica, and every other dispatch stays as it was.
pub claim_effect :
    (replica : String) (batch : ℕ) (now : Time) (s : Store) (id : Uuid)
    → Queued s
    → (lookup id (claim replica batch now s).1.dispatches ≡ lookup id s.dispatches)
      ⊎ ((d : Dispatch) × (lookup id s.dispatches ≡ some d)
          × (is_due now d ≡ true)
          × (lookup id (claim replica batch now s).1.dispatches ≡ some (claimed replica now d)))
unfolding claim
claim_effect replica batch now s id queued =
    claim_each-effect replica now s (due_dispatches batch now s) s id
      (due_dispatches-All batch now s queued)

-- Which leases on the dispatch c renew: exactly the one of its present attempt, for its execution.
abbrev pub OnlyLease : Store → Dispatch → Type 0
OnlyLease s c =
    (exec_id : Uuid) (lease : Lease) (at : Time)
    → lease.dispatch_id ≡ c.id
    → ((renew_lease exec_id lease at s).0 ≡ ok tt)
      ↔ ((exec_id ≡ c.execution_id) × (lease.attempt ≡ c.attempt))

OnlyLease-of_lookup :
    (s : Store) (c : Dispatch)
    → lookup c.id s.dispatches ≡ some c
    → is_in_flight c.status ≡ true
    → OnlyLease s c
unfolding renew_lease
OnlyLease-of_lookup s c h f exec_id lease at q = (λ p. ground arith, λ p. ground arith)

-- After a claim on a queue whose dispatches stand under their identifiers, the only lease on a claimed dispatch that renews is the one handed out, for the attempt after the one before the claim: every lease from an earlier attempt is fenced off.
pub claim-OnlyLease :
    (replica : String) (batch : ℕ) (now : Time) (s : Store)
    → Queued s
    → (claimed_now : List Dispatch) × ((claim replica batch now s).0 ≡ ok claimed_now)
      × All
          (λ c.
            OnlyLease (claim replica batch now s).1 c
            × ((d : Dispatch) × (lookup c.id s.dispatches ≡ some d) × (c.attempt ≡ d.attempt + 1)))
          claimed_now
unfolding claim
claim-OnlyLease replica batch now s queued =
    let due = due_dispatches batch now s in
    let held = All-weaken _ (Held s) due (λ d h. h.0) (due_dispatches-All batch now s queued) in
    (
      map (claimed replica now) due,
      refl,
      All-map _ (claimed replica now) due (
          All-weaken _ _ due
            (λ d h. (
              OnlyLease-of_lookup (claim_each replica now due s) (claimed replica now d) h.0 refl,
              (d, h.1, refl),
            ))
            (All-both _ _ due (claim_each-All replica now s due s held) held)),
    )
