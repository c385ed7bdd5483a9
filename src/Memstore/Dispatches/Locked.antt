-- ===== src/Memstore/Dispatches/Locked.antt =====
-- A dispatch in flight has a lock time, so that reclaiming stalled dispatches never reads through a
-- nil pointer.
use rebuno.Prelude.{
  All, All-both, All-filter, All-weaken, Bool-cases, List, Option, String, [], any_of_All, ap,
  arith, false, filter, filter-All, inl, inr, map, refl, some, string_eq, subst, true, ℕ, ℕ_eq,
  ◌==◌, ◌∙◌, ◌∷◌, ◌≡◌, ◌⊎◌,
}
use rebuno.Action.{ok}
use rebuno.Context.{Context}
use rebuno.Domain.Records.{Dispatch, Lease, Time, Uuid}
use rebuno.Domain.Status.{DispatchStatus, is_in_flight}
use rebuno.Memstore.Dispatches.{
  ack, claim, claim_each, claim_one, claimed, due_dispatches, enqueue, first_stalled, is_stalled,
  is_unlocked, reclaim_each, reclaim_stalled, reclaimed, renew_lease, renewed, retire, retired,
  stalled_dispatches, with_ack,
}
use rebuno.Memstore.Dispatches.Fence.{Queued}
use rebuno.Memstore.Store.{Store, new_store}
use rebuno.Prelude.Dict.{
  IsKeyed-lookup, insert, insert-IsKeyed, lookup, lookup-insert, lookup-values, values,
}

abbrev HasLock : Dispatch → Type 0
HasLock d = is_in_flight d.status ≡ true → is_unlocked d ≡ false

-- What holds of the queue between two operations.
pub record QueueInv (s : Store) : Type 0 where
  pub queued : Queued s
  pub locked : (id : Uuid) (d : Dispatch) → lookup id s.dispatches ≡ some d → HasLock d

put-QueueInv :
    (id : Uuid) (d : Dispatch) (s t : Store)
    → t.dispatches ≡ insert id d s.dispatches
    → d.id ≡ id
    → HasLock d
    → QueueInv s
    → QueueInv t
put-QueueInv id d s t e q l h = record {
  queued = rw e (insert-IsKeyed (λ (x : Dispatch). x.id) id d s.dispatches q h.queued);
  locked = λ j x p. elim (Bool-cases (id == j)) [
    | inl same ↦
        let found : d ≡ x = ground (arith, ap (lookup j) e, lookup-insert id j d s.dispatches) in
        subst HasLock found l
    | inr other ↦ h.locked j x (ground (arith, ap (lookup j) e, lookup-insert id j d s.dispatches))
  ];
}

module _ (s : Store) (h : QueueInv s) where
  stored-id : (id : Uuid) (d : Dispatch) → lookup id s.dispatches ≡ some d → d.id ≡ id
  stored-id id d p = IsKeyed-lookup (λ (x : Dispatch). x.id) id d s.dispatches h.queued p

  pub enqueue-QueueInv :
      (ctx : Context) (d : Dispatch) → is_in_flight d.status ≡ false → QueueInv (enqueue ctx d s).1
  unfolding enqueue
  enqueue-QueueInv ctx d f = put-QueueInv d.id _ s _ refl refl (λ p. cc) h

  -- A queue operation that leaves the store alone or replaces the dispatch under id.
  abbrev Replaced : Uuid → (Dispatch → Dispatch) → Store → Type 0
  Replaced id f t =
      (t ≡ s)
      ⊎ ((d : Dispatch) × (lookup id s.dispatches ≡ some d)
          × (t ≡ record s { dispatches = insert id (f d) s.dispatches }))

  Replaced-QueueInv :
      (id : Uuid) (f : Dispatch → Dispatch) (t : Store)
      → ((d : Dispatch) → lookup id s.dispatches ≡ some d → ((f d).id ≡ d.id) × HasLock (f d))
      → Replaced id f t
      → QueueInv t
  Replaced-QueueInv id f t keep (inl e) = rw e h
  Replaced-QueueInv id f t keep (inr (d, p, e)) =
      put-QueueInv id (f d) s t (ap (λ (x : Store). x.dispatches) e)
        ((keep d p).0 ∙ stored-id id d p) (keep d p).1 h

  ack-Replaced :
      (ctx : Context) (id : Uuid) (attempt : ℕ) (status : DispatchStatus) (next : Option Time)
      → Replaced id (with_ack ctx status next) (ack ctx id attempt status next s).1
  unfolding ack
  ack-Replaced ctx id attempt status next = ground arith

  retire-Replaced : (ctx : Context) (id : Uuid) → Replaced id (retired ctx) (retire ctx id s).1
  unfolding retire
  retire-Replaced ctx id = ground arith

  renew_lease-Replaced :
      (exec_id : Uuid) (lease : Lease) (now : Time)
      → Replaced lease.dispatch_id (renewed now) (renew_lease exec_id lease now s).1
  unfolding renew_lease
  renew_lease-Replaced exec_id lease now = ground arith

  pub ack-QueueInv :
      (ctx : Context) (id : Uuid) (attempt : ℕ) (status : DispatchStatus) (next : Option Time)
      → is_in_flight status ≡ false
      → QueueInv (ack ctx id attempt status next s).1
  ack-QueueInv ctx id attempt status next f =
      Replaced-QueueInv id (with_ack ctx status next) _ (λ d p. (refl, λ q. cc))
        (ack-Replaced ctx id attempt status next)

  pub retire-QueueInv : (ctx : Context) (id : Uuid) → QueueInv (retire ctx id s).1
  retire-QueueInv ctx id =
      Replaced-QueueInv id (retired ctx) _ (λ d p. (refl, λ q. cc)) (retire-Replaced ctx id)

  pub renew_lease-QueueInv :
      (exec_id : Uuid) (lease : Lease) (now : Time) → QueueInv (renew_lease exec_id lease now s).1
  renew_lease-QueueInv exec_id lease now =
      Replaced-QueueInv lease.dispatch_id (renewed now) _ (λ d p. (refl, λ q. refl))
        (renew_lease-Replaced exec_id lease now)

claim_each-QueueInv :
    (replica : String) (now : Time) (ds : List Dispatch) (s : Store)
    → QueueInv s
    → QueueInv (claim_each replica now ds s)
unfolding claim_each claim_one
claim_each-QueueInv replica now [] s h = h
claim_each-QueueInv replica now (d ∷ ds) s h =
    claim_each-QueueInv replica now ds (claim_one replica now d s)
      (put-QueueInv d.id (claimed replica now d) s _ refl refl (λ _. refl) h)

pub reclaim_each-QueueInv :
    (now : Time) (ds : List Dispatch) (s : Store) → QueueInv s → QueueInv (reclaim_each now ds s)
unfolding reclaim_each
reclaim_each-QueueInv now [] s h = h
reclaim_each-QueueInv now (d ∷ ds) s h =
    reclaim_each-QueueInv now ds
      (record s { dispatches = insert d.id (reclaimed now d) s.dispatches })
      (put-QueueInv d.id (reclaimed now d) s _ refl refl (λ p. cc) h)

found-HasLock :
    (now fallback : Time) (s : Store)
    → QueueInv s
    → All (λ d. is_unlocked d ≡ false) (stalled_dispatches now fallback s)
unfolding stalled_dispatches
found-HasLock now fallback s h =
    let stalled = is_stalled now fallback s in
    let held = lookup-values (λ (d : Dispatch). d.id) s.dispatches h.queued in
    All-weaken _ _ (filter stalled (values s.dispatches))
      (λ d p. h.locked d.id d p.0 (ground (arith, p.1)))
      (All-both _ _ (filter stalled (values s.dispatches))
        (All-filter _ stalled (values s.dispatches) held)
        (filter-All stalled (values s.dispatches)))

pub claim-QueueInv :
    (replica : String) (batch : ℕ) (now : Time) (s : Store)
    → QueueInv s
    → QueueInv (claim replica batch now s).1
unfolding claim
claim-QueueInv replica batch now s h =
    claim_each-QueueInv replica now (due_dispatches batch now s) s h

pub new_store-QueueInv : QueueInv new_store
new_store-QueueInv = record { queued = tt; locked = λ id d p. unfold lookup in cc }

-- Where the invariant of the queue holds, reclaiming returns the dispatches that it put back.
pub reclaim_stalled-returns :
    (s : Store)
    → QueueInv s
    → (now fallback : Time) (batch : ℕ)
    → (ds : List Dispatch) × ((reclaim_stalled now fallback batch s).0 ≡ ok ds)
unfolding reclaim_stalled
reclaim_stalled-returns s h now fallback batch =
    let safe =
      any_of_All is_unlocked (stalled_dispatches now fallback s) (found-HasLock now fallback s h) in
    (map (reclaimed now) (first_stalled now fallback batch s), ground (arith, safe))
