-- ===== src/Kernel/Keeps/Queue.antt =====
-- The dispatcher's operations on the queue keep what Keeps says.
use rebuno.Prelude.{
  Bool-cases, List, Option, String, [], arith, false, inl, inr, string_eq, ℕ, ℕ_eq, ◌∷◌, ◌≡◌,
}
use rebuno.Context.{Context}
use rebuno.Domain.Records.{Dispatch, Time, Uuid}
use rebuno.Domain.Status.{DispatchStatus, is_in_flight}
use rebuno.Kernel.Keeps.{Keeping, Keeps, Keeps-of_queue, Keeps-preorder}
use rebuno.Memstore.Dispatches.{
  ack, claim, claim_each, claim_one, due_dispatches, first_stalled, reclaim_each, reclaim_stalled,
  reclaimed, sort_panics,
}
use rebuno.Memstore.Dispatches.Locked.{
  QueueInv, claim-QueueInv, ack-QueueInv, reclaim_each-QueueInv,
}
use rebuno.Memstore.Store.{Store, counter_key_eq}
use rebuno.Prelude.Dict.{insert}

-- Only the dispatches and the counters of a store change.
record OnlyQueue (s t : Store) : Type 0 where
  pub executions : t.executions ≡ s.executions
  pub steps : t.steps ≡ s.steps
  pub events : t.events ≡ s.events

Keeps-of_OnlyQueue : (s t : Store) → OnlyQueue s t → (QueueInv s → QueueInv t) → Keeps s t
Keeps-of_OnlyQueue s t o q = Keeps-of_queue s t o.executions o.steps o.events q

claim_each-OnlyQueue :
    (replica : String) (now : Time) (ds : List Dispatch) (s : Store)
    → OnlyQueue s (claim_each replica now ds s)
unfolding claim_each claim_one
claim_each-OnlyQueue replica now [] s = ground arith
claim_each-OnlyQueue replica now (d ∷ ds) s =
    let rest = claim_each-OnlyQueue replica now ds (claim_one replica now d s) in
    record { executions = rest.executions; steps = rest.steps; events = rest.events }

reclaim_each-OnlyQueue :
    (now : Time) (ds : List Dispatch) (s : Store) → OnlyQueue s (reclaim_each now ds s)
unfolding reclaim_each
reclaim_each-OnlyQueue now [] s = ground arith
reclaim_each-OnlyQueue now (d ∷ ds) s =
    let rest =
      reclaim_each-OnlyQueue now ds
        (record s { dispatches = insert d.id (reclaimed now d) s.dispatches }) in
    record { executions = rest.executions; steps = rest.steps; events = rest.events }

pub claim-Keeping : (replica : String) (batch : ℕ) (now : Time) → Keeping (claim replica batch now)
unfolding claim
claim-Keeping replica batch now = record {
  at = λ s.
      Keeps-of_OnlyQueue s _ (claim_each-OnlyQueue replica now (due_dispatches batch now s) s)
        (claim-QueueInv replica batch now s);
}

pub reclaim-Keeping :
    (now allowance : Time) (batch : ℕ) → Keeping (reclaim_stalled now allowance batch)
unfolding reclaim_stalled
reclaim-Keeping now allowance batch = record {
  at = λ s. elim (Bool-cases (sort_panics now allowance s)) [
    | inl p ↦ rw p (Keeps-preorder.same s)
    | inr q ↦ rw q (
        Keeps-of_OnlyQueue s _ (reclaim_each-OnlyQueue now (first_stalled now allowance batch s) s)
          (reclaim_each-QueueInv now (first_stalled now allowance batch s) s))
  ];
}

pub ack-Keeping :
    (ctx : Context) (id : Uuid) (attempt : ℕ) (status : DispatchStatus) (next : Option Time)
    → is_in_flight status ≡ false
    → Keeping (ack ctx id attempt status next)
unfolding ack
ack-Keeping ctx id attempt status next f = record {
  at = λ s.
      Keeps-of_queue s _ (ground arith) (ground arith) (ground arith)
        (λ h. unfold ack in ack-QueueInv s h ctx id attempt status next f);
}
