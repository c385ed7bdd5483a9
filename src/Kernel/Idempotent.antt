-- ===== src/Kernel/Idempotent.antt =====
-- A second CreateExecution with the idempotency key of an execution.
use rebuno.Prelude.{
  All, All-sort, Bool, Bool-cases, List, Option, String, [], any, arith, false, filter, filter-All,
  inl, inr, insert_sorted, none, refl, some, sort, string_eq, subst, true, ℕ_eq, ◌==◌, ◌||◌, ◌∙◌,
  ◌∷◌, ◌≡◌,
}
use rebuno.Action.{of_result, ok, pure, reads, refuse_if, ◌>>=◌}
use rebuno.Action.Laws.{Result-cases}
use rebuno.Auth.{Role, authorize}
use rebuno.Context.{Context}
use rebuno.Domain.Json.{RawMessage}
use rebuno.Domain.Records.{Execution, Uuid}
use rebuno.Kernel.Create.{
  Agents, CreateOptions, client_create, execution_by_idempotency_key, first_of_list, key_filter,
  key_of,
}
use rebuno.Kernel.Env.{Env}
use rebuno.Kernel.Opening.{bad_label}
use rebuno.Memstore.Executions.{later_id, list_executions, matches_filter, page_of, unset_or}
use rebuno.Memstore.Store.{Store}
use rebuno.Prelude.Dict.{any-lookup, lookup, values}

module _ {A : Type 0} where
  abbrev head_of : List A → Option A
  head_of [] = none
  head_of (x ∷ xs) = some x

  insert_sorted-head :
      (less : A → A → Bool) (x : A) (xs : List A)
      → (y : A) × (head_of (insert_sorted less x xs) ≡ some y)
  unfolding insert_sorted
  insert_sorted-head less x [] = (x, refl)
  insert_sorted-head less x (y ∷ ys) = elim (Bool-cases (less y x)) [
    | inl before ↦ (y, ground arith)
    | inr after ↦ (x, ground arith)
  ]

  -- A filter that some element passes is not empty, sorted or not.
  sort-head :
      (less : A → A → Bool) (p : A → Bool) (xs : List A)
      → any p xs ≡ true
      → (y : A) × (head_of (sort less (filter p xs)) ≡ some y)
  unfolding filter any sort
  sort-head less p [] h = cc
  sort-head less p (x ∷ xs) h = elim (Bool-cases (p x)) [
    | inl so ↦ rw so (insert_sorted-head less x (sort less (filter p xs)))
    | inr not_so ↦ rw not_so (sort-head less p xs (ground arith))
  ]

  All-head : (P : A → Type 0) (xs : List A) (y : A) → All P xs → head_of xs ≡ some y → P y
  All-head P [] y h q = cc
  All-head P (x ∷ xs) y h q = let e : x ≡ y = ground arith in subst P e h.0

page_of-head : (l : List Execution) → first_of_list (page_of 1 l).executions ≡ head_of l
page_of-head [] = refl
page_of-head (e ∷ []) = refl
page_of-head (e ∷ f ∷ l) = ground arith

unset_or-eq :
    (wanted given : String) → (wanted == "") ≡ false → unset_or wanted given ≡ true → given ≡ wanted
unset_or-eq wanted given set h = (string_eq.beq_iff given wanted).0 (ground arith)

module _ (agent_id key : String) (s : Store) where
  wanted : Execution → Bool
  wanted = matches_filter (key_filter agent_id key)

  wanted-of_same :
      (e : Execution) → e.agent_id ≡ agent_id → e.idempotency_key ≡ key → wanted e ≡ true
  unfolding wanted matches_filter
  wanted-of_same e same_agent same_key =
      ground (arith, string_eq.beq_iff e.agent_id agent_id, string_eq.beq_iff e.idempotency_key key)

  same-of_wanted :
      (e : Execution)
      → (agent_id == "") ≡ false
      → (key == "") ≡ false
      → wanted e ≡ true
      → (e.agent_id ≡ agent_id) × (e.idempotency_key ≡ key)
  unfolding wanted matches_filter
  same-of_wanted e named keyed h = (
    unset_or-eq agent_id e.agent_id named (ground arith),
    unset_or-eq key e.idempotency_key keyed (ground arith),
  )

  sorted_matches : List Execution
  sorted_matches = sort later_id (filter wanted (values s.executions))

  by_key-eq :
      (key == "") ≡ false → execution_by_idempotency_key agent_id key s ≡ head_of sorted_matches
  unfolding execution_by_idempotency_key list_executions wanted sorted_matches
  by_key-eq keyed = rw keyed (page_of-head sorted_matches)

  by_key-found :
      (id : Uuid) (e : Execution)
      → (agent_id == "") ≡ false
      → (key == "") ≡ false
      → lookup id s.executions ≡ some e
      → e.agent_id ≡ agent_id
      → e.idempotency_key ≡ key
      → (found : Execution) × (execution_by_idempotency_key agent_id key s ≡ some found)
        × (found.agent_id ≡ agent_id)
        × (found.idempotency_key ≡ key)
  unfolding sorted_matches
  by_key-found id e named keyed stored same_agent same_key =
      let passes = wanted-of_same e same_agent same_key in
      let (found, first) = sort-head later_id wanted (values s.executions) present in
      let every =
        All-sort (λ x. wanted x ≡ true) later_id (filter wanted (values s.executions))
          (filter-All wanted (values s.executions)) in
      let (agent_same, key_same) =
        same-of_wanted found named keyed
          (All-head (λ x. wanted x ≡ true) sorted_matches found every first) in
      (found, by_key-eq keyed ∙ first, agent_same, key_same)
    where
      present : any wanted (values s.executions) ≡ true
      present = elim (Bool-cases (any wanted (values s.executions))) [
        | inl so ↦ so
        | inr not_so ↦
            let missed = any-lookup wanted s.executions id e not_so stored in
            let passes = wanted-of_same e same_agent same_key in absurd (cc)
      ]

-- CreateExecution with the idempotency key that an execution of the agent has changes nothing in the store, whoever calls it and with whatever input and options; and if it succeeds, the execution that it returns is one of the agent with that key.
pub client_create-idempotent :
    (env : Env) (ctx : Context) (agents : Agents) (agent_id : String) (input : RawMessage)
    (opts : CreateOptions) (s : Store) (id : Uuid) (e : Execution)
    → (agent_id == "") ≡ false
    → (key_of env ctx agents opts == "") ≡ false
    → lookup id s.executions ≡ some e
    → e.agent_id ≡ agent_id
    → e.idempotency_key ≡ key_of env ctx agents opts
    → ((client_create env ctx agents agent_id input opts s).1 ≡ s)
      × ((made : Execution)
          → (client_create env ctx agents agent_id input opts s).0 ≡ ok made
          → (made.agent_id ≡ agent_id) × (made.idempotency_key ≡ key_of env ctx agents opts))
unfolding client_create ◌>>=◌ refuse_if of_result reads pure
client_create-idempotent env ctx agents agent_id input opts s id e named keyed stored same_agent
      same_key =
    let (found, q, own, own_key) =
      by_key-found agent_id (key_of env ctx agents opts) s id e named keyed stored same_agent
        same_key in
    elim (Bool-cases (bad_label opts.session || bad_label opts.idempotency_key)) [
      | inl bad ↦ rw bad (refl, λ made h. absurd (cc))
      | inr fine ↦ elim (Result-cases (authorize env.access ctx Role.write agent_id)) [
        | inl (e1, refused) ↦ rw fine (rw refused (refl, λ made h. absurd (cc)))
        | inr (_, authorized) ↦ elim (Result-cases (agents.get_agent agent_id)) [
          | inl (e2, unknown) ↦ rw fine (rw authorized (rw unknown (refl, λ made h. absurd (cc))))
          | inr (agent, known) ↦
              rw fine (
                rw authorized (rw known (rw q (refl, λ made h. returned made found h own own_key))))
        ]
      ]
    ]
  where
    returned :
        (made found : Execution)
        → ok found ≡ ok made
        → found.agent_id ≡ agent_id
        → found.idempotency_key ≡ key_of env ctx agents opts
        → (made.agent_id ≡ agent_id) × (made.idempotency_key ≡ key_of env ctx agents opts)
    returned made found h own own_key =
        let q : found ≡ made = cc in
        subst
          (λ (x : Execution).
            (x.agent_id ≡ agent_id) × (x.idempotency_key ≡ key_of env ctx agents opts))
          q (own, own_key)
