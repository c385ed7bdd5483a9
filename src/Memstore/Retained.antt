-- ===== src/Memstore/Retained.antt =====
-- What the clean-up leaves of steps, executions and logs.
use rebuno.Prelude.{
  Bool, Eq, List, any-filter, String, [], All, any, arith, not, false, filter, if◌then◌else◌, inl,
  inr, none, refl, some, string_eq, sym, true, Bool-cases, ℕ_eq, ◌&&◌, ◌==◌, ◌∙◌, ◌∷◌, ◌≡◌, ◌⊎◌,
}
use rebuno.Domain.Records.{Execution, Step, Time, Uuid}
use rebuno.Memstore.Cleaned.{IsRemnant, delete_each-gone, delete_each-kept}
use rebuno.Memstore.Cleanup.{
  delete_each, delete_execution, delete_executions_created_before, is_deletable, keep_values,
}
use rebuno.Memstore.Events.{log}
use rebuno.Memstore.Store.{Store}
use rebuno.Prelude.Dict.{Dict, lookup, lookup-delete, values}

pub lookup-keep_values :
    {K V : Type 0} ⦃e : Eq K⦄ (p : V → Bool) (k : K) (m : Dict K V)
    → lookup k (keep_values p m)
      ≡ elim (lookup k m) [ none ↦ none | some v ↦ if p v then some v else none ]
unfolding lookup keep_values
lookup-keep_values p k [] = refl
lookup-keep_values ⦃e⦄ p k ((j, v) ∷ m) =
    ground (arith, e.beq_iff j k, lookup-keep_values p k m, lookup-delete j k (keep_values p m))

-- An execution of the identifier is one that the clean-up deletes.
abbrev pub is_swept : Time → Store → Uuid → Bool
is_swept before s id =
    any (λ (e : Execution). is_deletable before s e && e.id == id) (values s.executions)

abbrev is_among : List Execution → Uuid → Bool
is_among ds id = any (λ (d : Execution). d.id == id) ds

lookup-delete_steps :
    (gone : Uuid) (id : String) (s : Store)
    → lookup id (delete_execution gone s).steps ≡ elim (lookup id s.steps) [
      | none ↦ none
      | some step ↦ if step.execution_id == gone then none else some step
    ]
unfolding delete_execution
lookup-delete_steps gone id s =
    ground (arith, lookup-keep_values (λ (t : Step). not (t.execution_id == gone)) id s.steps)

delete_each-no_step :
    (ds : List Execution) (id : String) (s : Store)
    → lookup id s.steps ≡ none
    → lookup id (delete_each ds s).steps ≡ none
unfolding delete_each
delete_each-no_step [] id s h = h
delete_each-no_step (d ∷ ds) id s h =
    let p = lookup-delete_steps d.id id s in
    delete_each-no_step ds id (delete_execution d.id s) (ground arith)

-- A step is left as it is, or deleted with its execution.
delete_each-steps :
    (ds : List Execution) (id : String) (step : Step) (s : Store)
    → lookup id s.steps ≡ some step
    → (lookup id (delete_each ds s).steps ≡ some step)
      ⊎ ((is_among ds step.execution_id ≡ true) × (lookup id (delete_each ds s).steps ≡ none))
unfolding delete_each any
delete_each-steps [] id step s stored = inl stored
delete_each-steps (d ∷ ds) id step s stored =
    let p = lookup-delete_steps d.id id s in
    elim (Bool-cases (step.execution_id == d.id)) [
      | inl same ↦
          inr (ground arith, delete_each-no_step ds id (delete_execution d.id s) (ground arith))
      | inr other ↦ elim (delete_each-steps ds id step (delete_execution d.id s) (ground arith)) [
        | inl kept ↦ inl kept
        | inr (among, gone) ↦ inr (ground arith, gone)
      ]
    ]

delete_each-executions :
    (ds : List Execution) (id : Uuid) (e : Execution) (s : Store)
    → lookup id s.executions ≡ some e
    → ((left : Execution) × (lookup id (delete_each ds s).executions ≡ some left)
        × IsRemnant e left)
      ⊎ ((is_among ds id ≡ true) × (lookup id (delete_each ds s).executions ≡ none))
unfolding any
delete_each-executions ds id e s stored = elim (Bool-cases (is_among ds id)) [
  | inl among ↦ inr (among, delete_each-gone ds id s (inr among))
  | inr not_among ↦ inl (delete_each-kept ds id s e (All-of_any ds not_among) stored)
]
  where
    All-of_any : (l : List Execution) → is_among l id ≡ false → All (λ d. (d.id == id) ≡ false) l
    All-of_any [] h = tt
    All-of_any (d ∷ l) h = (ground arith, All-of_any l (ground arith))

pub log-delete_execution :
    (gone id : Uuid) (s : Store)
    → log (delete_execution gone s) id ≡ (if gone == id then [] else log s id)
unfolding delete_execution
log-delete_execution gone id s = ground (arith, lookup-delete gone id s.events)

delete_each-no_log :
    (ds : List Execution) (id : Uuid) (s : Store) → log s id ≡ [] → log (delete_each ds s) id ≡ []
unfolding delete_each
delete_each-no_log [] id s h = h
delete_each-no_log (d ∷ ds) id s h =
    let p = log-delete_execution d.id id s in
    delete_each-no_log ds id (delete_execution d.id s) (p ∙ ground arith)

-- A log is left as it is, or deleted with its execution.
delete_each-log :
    (ds : List Execution) (id : Uuid) (s : Store)
    → (log (delete_each ds s) id ≡ log s id)
      ⊎ ((is_among ds id ≡ true) × (log (delete_each ds s) id ≡ []))
unfolding delete_each any
delete_each-log [] id s = inl refl
delete_each-log (d ∷ ds) id s =
    let p = log-delete_execution d.id id s in
    elim (Bool-cases (d.id == id)) [
      | inl same ↦
          inr (ground arith, delete_each-no_log ds id (delete_execution d.id s) (p ∙ rw same refl))
      | inr other ↦ elim (delete_each-log ds id (delete_execution d.id s)) [
        | inl kept ↦ inl (kept ∙ p ∙ rw other refl)
        | inr (among, gone) ↦ inr (ground arith, gone)
      ]
    ]

swept-of_among :
    (before : Time) (s : Store) (id : Uuid)
    → is_among (filter (is_deletable before s) (values s.executions)) id ≡ true
    → is_swept before s id ≡ true
swept-of_among before s id h =
    sym (any-filter (λ (d : Execution). d.id == id) (is_deletable before s) (values s.executions))
    ∙ h

module _ (before : Time) (s : Store) where
  pub cleanup-steps :
      (id : String) (step : Step)
      → lookup id s.steps ≡ some step
      → (lookup id (delete_executions_created_before before s).steps ≡ some step)
        ⊎ ((is_swept before s step.execution_id ≡ true)
            × (lookup id (delete_executions_created_before before s).steps ≡ none))
  unfolding delete_executions_created_before
  cleanup-steps id step stored =
      elim (delete_each-steps (filter (is_deletable before s) (values s.executions)) id step s
        stored) [
          | inl kept ↦ inl kept
          | inr (among, gone) ↦ inr (swept-of_among before s step.execution_id among, gone)
        ]

  pub cleanup-executions :
      (id : Uuid) (e : Execution)
      → lookup id s.executions ≡ some e
      → ((left : Execution) × (lookup id (delete_executions_created_before before s).executions
            ≡ some left)
          × IsRemnant e left)
        ⊎ ((is_swept before s id ≡ true)
            × (lookup id (delete_executions_created_before before s).executions ≡ none))
  unfolding delete_executions_created_before
  cleanup-executions id e stored =
      elim (delete_each-executions (filter (is_deletable before s) (values s.executions)) id e s
        stored) [
          | inl kept ↦ inl kept
          | inr (among, gone) ↦ inr (swept-of_among before s id among, gone)
        ]

  pub cleanup-log :
      (id : Uuid)
      → (log (delete_executions_created_before before s) id ≡ log s id)
        ⊎ ((is_swept before s id ≡ true)
            × (log (delete_executions_created_before before s) id ≡ []))
  unfolding delete_executions_created_before
  cleanup-log id =
      elim (delete_each-log (filter (is_deletable before s) (values s.executions)) id s) [
        | inl kept ↦ inl kept
        | inr (among, gone) ↦ inr (swept-of_among before s id among, gone)
      ]
