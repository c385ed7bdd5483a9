-- ===== src/Memstore/Events/Growth.antt =====
-- Logs only grow at their ends.
use rebuno.Prelude.{
  Bool-cases, List, String, [], ap, append-nil, append_assoc, arith, inl, inr, refl, string_eq, sym,
  ℕ, ℕ_eq, ◌++◌, ◌+◌, ◌==◌, ◌∙◌, ◌∷◌, ◌≡◌, Option-cases,
}
use rebuno.Action.Always.{Always, Always-bind, Always-pure, Preorder}
use rebuno.Context.{Context}
use rebuno.Domain.Json.{RawMessage}
use rebuno.Domain.Records.{Event, EventRecord, Uuid}
use rebuno.Memstore.Events.{
  append, append_batch, append_from, append_locked, event_at, log, next_seq, append_refusal,
}
use rebuno.Memstore.Events.Log.{append_locked-live, extended, log-insert, append_locked-refused}
use rebuno.Memstore.Store.{Store}

pub record LogsGrow (s t : Store) : Type 0 where
  pub grown : (id : Uuid) → (rest : List Event) × (log t id ≡ log s id ++ rest)

pub LogsGrow-of_eq : (s t : Store) → t.events ≡ s.events → LogsGrow s t
LogsGrow-of_eq s t q = record { grown = λ id. ([], rw q (sym (append-nil (log s id)))) }

pub LogsGrow-chain : (s t u : Store) → LogsGrow s t → LogsGrow t u → LogsGrow s u
LogsGrow-chain s t u st tu = record {
  grown = λ id.
      let (a, p) = st.grown id in
      let (b, q) = tu.grown id in (a ++ b, q ∙ ap (λ l. l ++ b) p ∙ append_assoc (log s id) a b);
}

append_locked-LogsGrow :
    (ctx : Context) (id : Uuid) (seq : ℕ) (r : EventRecord)
    → Always LogsGrow (append_locked ctx id seq r)
append_locked-LogsGrow ctx id seq r = record {
  at = λ s. elim (Option-cases (append_refusal ctx r.payload)) [
    | inr (e, c) ↦ rw (append_locked-refused ctx s id seq r e c) (LogsGrow-of_eq s s refl)
    | inl c ↦ rw (append_locked-live ctx s id seq r c) (record { grown = extended-grown s })
  ];
}
  where
    extended-grown :
        (s : Store) (j : Uuid)
        → (rest : List Event) × (log (extended ctx s id seq r) j ≡ log s j ++ rest)
    extended-grown s j = elim (Bool-cases (id == j)) [
      | inl same ↦ (
        event_at ctx id seq r ∷ [],
        ground (
          arith,
          log-insert s id j (log s id ++ (event_at ctx id seq r ∷ [])),
          (ℕ_eq.beq_iff id j).0 same,
        ),
      )
      | inr other ↦ (
        [],
        ground (
          arith,
          log-insert s id j (log s id ++ (event_at ctx id seq r ∷ [])),
          append-nil (log s j),
        ),
      )
    ]

LogsGrow-preorder : Preorder LogsGrow
LogsGrow-preorder = record { same = λ s. LogsGrow-of_eq s s refl; chain = LogsGrow-chain }

append_from-LogsGrow :
    (ctx : Context) (id : Uuid) (seq : ℕ) (rs : List EventRecord)
    → Always LogsGrow (append_from ctx id seq rs)
unfolding append_from
append_from-LogsGrow ctx id seq [] = Always-pure LogsGrow-preorder []
append_from-LogsGrow ctx id seq (r ∷ rs) =
    Always-bind LogsGrow-preorder _ _ (append_locked-LogsGrow ctx id seq r) λ e.
      Always-bind LogsGrow-preorder _ _ (append_from-LogsGrow ctx id (seq + 1) rs)
        λ rest. Always-pure LogsGrow-preorder (e ∷ rest)

pub append_batch-LogsGrow :
    (ctx : Context) (id : Uuid) (rs : List EventRecord) → Always LogsGrow (append_batch ctx id rs)
unfolding append_batch
append_batch-LogsGrow ctx id rs = record {
  at = λ s. (append_from-LogsGrow ctx id (next_seq id s) rs).at s;
}

pub append-LogsGrow :
    (ctx : Context) (id : Uuid) (type : String) (payload : RawMessage)
    → Always LogsGrow (append ctx id type payload)
unfolding append
append-LogsGrow ctx id type payload = record {
  at = λ s.
      (append_locked-LogsGrow ctx id (next_seq id s) (record { type = type; payload = payload })).at
        s;
}

-- Appending touches nothing but the events.
pub record OnlyEvents (s t : Store) : Type 0 where
  pub executions : t.executions ≡ s.executions
  pub steps : t.steps ≡ s.steps
  pub dispatches : t.dispatches ≡ s.dispatches

OnlyEvents-preorder : Preorder OnlyEvents
OnlyEvents-preorder = record {
  same = λ s. ground arith;
  chain = λ s t u p q. record {
    executions = q.executions ∙ p.executions;
    steps = q.steps ∙ p.steps;
    dispatches = q.dispatches ∙ p.dispatches;
  };
}

append_locked-OnlyEvents :
    (ctx : Context) (id : Uuid) (seq : ℕ) (r : EventRecord)
    → Always OnlyEvents (append_locked ctx id seq r)
unfolding append_locked
append_locked-OnlyEvents ctx id seq r = record { at = λ s. ground arith }

append_from-OnlyEvents :
    (ctx : Context) (id : Uuid) (seq : ℕ) (rs : List EventRecord)
    → Always OnlyEvents (append_from ctx id seq rs)
unfolding append_from
append_from-OnlyEvents ctx id seq [] = Always-pure OnlyEvents-preorder []
append_from-OnlyEvents ctx id seq (r ∷ rs) =
    Always-bind OnlyEvents-preorder _ _ (append_locked-OnlyEvents ctx id seq r) λ e.
      Always-bind OnlyEvents-preorder _ _ (append_from-OnlyEvents ctx id (seq + 1) rs)
        λ rest. Always-pure OnlyEvents-preorder (e ∷ rest)

pub append_batch-OnlyEvents :
    (ctx : Context) (id : Uuid) (rs : List EventRecord) → Always OnlyEvents (append_batch ctx id rs)
unfolding append_batch
append_batch-OnlyEvents ctx id rs = record {
  at = λ s. (append_from-OnlyEvents ctx id (next_seq id s) rs).at s;
}

pub append-OnlyEvents :
    (ctx : Context) (id : Uuid) (type : String) (payload : RawMessage)
    → Always OnlyEvents (append ctx id type payload)
unfolding append append_locked
append-OnlyEvents ctx id type payload = record { at = λ s. ground arith }
