-- ===== src/Memstore/Cleaned.antt =====
-- Which executions the clean-up deletes, and what is left of the others.
use rebuno.Prelude.{
  any-filter, All, All-both, All-filter, All-weaken, Bool-cases, List, Option, [], any, ap, arith,
  false, filter, filter-All, inl, inr, none, refl, some, string_eq, subst, sym, true, ℕ_eq, ◌&&◌,
  ◌==◌, ◌∙◌, ◌∷◌, ◌≡◌, ◌≢◌, ◌⊎◌,
}
use rebuno.Domain.Records.{Execution, Time, Uuid}
use rebuno.Memstore.Cleanup.{
  cleared_of, delete_each, delete_execution, delete_executions_created_before, is_deletable,
  map_values, orphaned,
}
use rebuno.Memstore.Store.{Store}
use rebuno.Policy.Cache.{others}
use rebuno.Prelude.Dict.{
  Dict, IsKeyed, IsKeyed-lookup, any-lookup, delete, lookup, lookup-delete, lookup-values, values,
}

pub lookup-map_values :
    {V : Type 0} (f : V → V) (k : Uuid) (m : Dict Uuid V)
    → lookup k (map_values f m) ≡ elim (lookup k m) [ none ↦ none | some v ↦ some (f v) ]
unfolding lookup map_values
lookup-map_values f k [] = refl
lookup-map_values f k ((j, v) ∷ m) = elim (Bool-cases (j == k)) [
  | inl same ↦ rw same refl
  | inr other ↦ rw other (lookup-map_values f k m)
]

-- The execution, but for its pointers to others.
abbrev pub IsRemnant : Execution → Execution → Type 0
IsRemnant e left =
    (parent : Option Uuid) × (fork : Option Uuid) × (left
      ≡ record e { parent_execution_id = parent; forked_from = fork })

pub IsRemnant-trans : (e f g : Execution) → IsRemnant e f → IsRemnant f g → IsRemnant e g
IsRemnant-trans e f g (p, q, h) (p1, q1, h1) =
    (p1, q1, h1 ∙ ap (λ (x : Execution). record x { parent_execution_id = p1; forked_from = q1 }) h)

pub deleted-lookup :
    (gone id : Uuid) (s : Store)
    → lookup id (delete_execution gone s).executions ≡ elim (lookup id (delete gone s.executions)) [
      | none ↦ none
      | some e ↦ some (orphaned gone e)
    ]
unfolding delete_execution
deleted-lookup gone id s = lookup-map_values (orphaned gone) id (delete gone s.executions)

pub delete_each-kept :
    (ds : List Execution) (id : Uuid) (s : Store) (e : Execution)
    → All (λ d. (d.id == id) ≡ false) ds
    → lookup id s.executions ≡ some e
    → (left : Execution) × (lookup id (delete_each ds s).executions ≡ some left) × IsRemnant e left
unfolding delete_each
delete_each-kept [] id s e others stored = (e, stored, (e.parent_execution_id, e.forked_from, refl))
delete_each-kept (d ∷ ds) id s e others stored =
    let p = lookup-delete d.id id s.executions in
    let q = deleted-lookup d.id id s in
    let kept : lookup id (delete_execution d.id s).executions ≡ some (orphaned d.id e) =
      ground arith in
    let (left, found, remnant) =
      delete_each-kept ds id (delete_execution d.id s) (orphaned d.id e) others.1 kept in
    (
      left,
      found,
      IsRemnant-trans e (orphaned d.id e) left
          (cleared_of d.id e.parent_execution_id, cleared_of d.id e.forked_from, refl) remnant,
    )

pub delete_each-gone :
    (ds : List Execution) (id : Uuid) (s : Store)
    → (lookup id s.executions ≡ none) ⊎ (any (λ d. d.id == id) ds ≡ true)
    → lookup id (delete_each ds s).executions ≡ none
unfolding delete_each any
delete_each-gone [] id s h = ground arith
delete_each-gone (d ∷ ds) id s h =
    let p = lookup-delete d.id id s.executions in
    let q = deleted-lookup d.id id s in
    delete_each-gone ds id (delete_execution d.id s) (ground arith)

true_is_not_false : true ≢ false
true_is_not_false h = cc

-- The clean-up deletes exactly the executions that ended, were created before the time, and are alone in their session with executions like that: in a store whose executions stand under their identifiers, one that is not deletable is still there, changed at most in its pointers to a parent and to the execution it was forked from, and one that is deletable is gone.
pub cleanup-exact :
    (before : Time) (s : Store) (id : Uuid) (e : Execution)
    → IsKeyed (λ (x : Execution). x.id) s.executions
    → lookup id s.executions ≡ some e
    → (is_deletable before s e ≡ false
        → (left : Execution) × (lookup id (delete_executions_created_before before s).executions
            ≡ some left)
          × IsRemnant e left)
      × (is_deletable before s e ≡ true
          → lookup id (delete_executions_created_before before s).executions ≡ none)
unfolding delete_executions_created_before
cleanup-exact before s id e keyed stored = (
  λ kept.
      delete_each-kept (filter (is_deletable before s) (values s.executions)) id s e (spared kept)
        stored,
  λ old.
      delete_each-gone (filter (is_deletable before s) (values s.executions)) id s
        (inr (listed old)),
)
  where
    own : e.id ≡ id
    own = IsKeyed-lookup (λ (x : Execution). x.id) id e s.executions keyed stored

    spared :
        is_deletable before s e ≡ false
        → All (λ d. (d.id == id) ≡ false) (filter (is_deletable before s) (values s.executions))
    spared kept =
        All-weaken _ _ (filter (is_deletable before s) (values s.executions))
          (λ d h. differs d h.0 h.1)
          (All-both _ _ (filter (is_deletable before s) (values s.executions))
            (filter-All (is_deletable before s) (values s.executions))
            (All-filter _ (is_deletable before s) (values s.executions)
              (lookup-values (λ (x : Execution). x.id) s.executions keyed)))
      where
        differs :
            (d : Execution)
            → is_deletable before s d ≡ true
            → lookup d.id s.executions ≡ some d
            → (d.id == id) ≡ false
        differs d deletable found = elim (Bool-cases (d.id == id)) [
          | inr other ↦ other
          | inl same ↦
              let ids : d.id ≡ id = (ℕ_eq.beq_iff d.id id).0 same in
              let found_at : lookup id s.executions ≡ some d =
                subst (λ i. lookup i s.executions ≡ some d) ids found in
              let one : d ≡ e = ground arith in
              let again : is_deletable before s e ≡ true =
                subst (λ x. is_deletable before s x ≡ true) one deletable in
              absurd (true_is_not_false (sym again ∙ kept))
        ]

    listed :
        is_deletable before s e ≡ true
        → any (λ d. d.id == id) (filter (is_deletable before s) (values s.executions)) ≡ true
    listed old =
        let test = λ (x : Execution). is_deletable before s x && x.id == id in
        any-filter (λ (d : Execution). d.id == id) (is_deletable before s) (values s.executions)
        ∙ elim (Bool-cases (any test (values s.executions))) [
          | inl so ↦ so
          | inr not_so ↦
              let missed = any-lookup test s.executions id e not_so stored in
              let hit : test e ≡ true = rw old ((ℕ_eq.beq_iff e.id id).1 own) in
              absurd (true_is_not_false (sym hit ∙ missed))
        ]
