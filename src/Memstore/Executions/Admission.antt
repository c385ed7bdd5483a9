-- ===== src/Memstore/Executions/Admission.antt =====
-- The executions of a session are admitted in the order of their identifiers.
use rebuno.Prelude.{
  All, Bool, Bool-cases, List, String, [], arith, inl, inr, ltb, none, some, string_eq, true, ℕ_eq,
  ◌&&◌, ◌∷◌, ◌≡◌, ◌≤◌, ◌⊎◌,
}
use rebuno.Action.{ok, or_raise}
use rebuno.Domain.Records.{Execution, Time, Uuid}
use rebuno.Memstore.Executions.{first_id, next_pending_in_session, queued_in}
use rebuno.Memstore.Store.{Store}
use rebuno.Prelude.Dict.{All-lookup, lookup, values}

module _ (p : Execution → Bool) (e : Execution) where
  abbrev NoneEarlier : List Execution → Type 0
  NoneEarlier l = All (λ x. p x ≡ true → e.id ≤ x.id) l

  -- The loop from a choice n on.
  first_id-some :
      (l : List Execution) (n : Execution)
      → first_id p (some n) l ≡ some e
      → NoneEarlier l × (e.id ≤ n.id) × ((p e ≡ true) ⊎ (n ≡ e))
  unfolding first_id
  first_id-some [] n h = (tt, ground arith, ground arith)
  first_id-some (x ∷ l) n h = elim (Bool-cases (p x && ltb x.id n.id)) [
    | inl t ↦
        let (rest, least, found) = first_id-some l x (ground arith) in
        ((λ q. least, rest), ground arith, ground arith)
    | inr f ↦
        let (rest, least, found) = first_id-some l n (ground arith) in
        ((λ q. ground arith, rest), least, found)
  ]

  -- The loop before any choice.
  first_id-none : (l : List Execution) → first_id p none l ≡ some e → NoneEarlier l × (p e ≡ true)
  unfolding first_id
  first_id-none [] h = cc
  first_id-none (x ∷ l) h = elim (Bool-cases (p x)) [
    | inl t ↦
        let (rest, least, found) = first_id-some l x (ground arith) in
        ((λ q. least, rest), ground arith)
    | inr f ↦
        let (rest, found) = first_id-none l (ground arith) in ((λ q. absurd (cc), rest), found)
  ]

-- The execution of a session that is admitted next is queued (pending, its deadline not passed), and of all the session's queued executions it has the least identifier.
pub next_pending-least :
    (session : String) (now : Time) (s : Store) (e : Execution)
    → next_pending_in_session session now s ≡ ok e
    → (queued_in session now e ≡ true)
      × ((id : Uuid) (x : Execution)
          → lookup id s.executions ≡ some x
          → queued_in session now x ≡ true
          → e.id ≤ x.id)
unfolding next_pending_in_session or_raise
next_pending-least session now s e h =
    let (none_earlier, is_queued) =
      first_id-none (queued_in session now) e (values s.executions) (ground arith) in
    (is_queued, λ id x p q. All-lookup _ s.executions id x none_earlier p q)
