-- ===== src/Prelude/Dict.antt =====
-- A Go map as an association list. Go visits a map in no fixed order; here the order is that of the
-- list, and the theorems hold for every list.
use mathlib.Core.Path.{◌≡◌, ◌∙◌, refl}
use mathlib.Core.Bool.{Bool, false}
use mathlib.Core.List.{List, [], ◌∷◌}
use mathlib.Core.Option.{Option, none, some}
use native.Mathlib.Omega.{arith}
use rebuno.Prelude.Tests.{if◌then◌else◌, Eq, ◌==◌}
use rebuno.Prelude.Lists.{All, any}

abbrev pub Dict {ℓ κ} : Type ℓ → Type κ → Type (ℓ ⊔ κ)
Dict K V = List (K × V)

module _ {ℓ κ} {K : Type ℓ} {V : Type κ} where
  unfoldable pub values : Dict K V → List V
  values [] = []
  values ((k, v) ∷ m) = v ∷ values m

module _ {ℓ κ} {K : Type ℓ} {V : Type κ} ⦃e : Eq K⦄ where
  -- v, ok := m[k]
  unfoldable pub lookup : (wanted : K) → Dict K V → Option V
  lookup wanted ((key, value) ∷ entries) =
      if key == wanted then some value else lookup wanted entries
  lookup wanted [] = none

  -- delete(m, k)
  unfoldable pub delete : (gone : K) → Dict K V → Dict K V
  delete gone ((key, value) ∷ entries) =
      let rest = delete gone entries in if key == gone then rest else (key, value) ∷ rest
  delete gone [] = []

  -- m[k] = v
  unfoldable pub insert : (key : K) → V → Dict K V → Dict K V
  insert key value ((old, stored) ∷ entries) =
      if old == key then (key, value) ∷ entries else (old, stored) ∷ insert key value entries
  insert key value [] = (key, value) ∷ []

  pub lookup-insert :
      (key wanted : K) (value : V) (entries : Dict K V)
      → lookup wanted (insert key value entries)
        ≡ (if key == wanted then some value else lookup wanted entries)
  unfolding lookup insert
  lookup-insert key wanted value ((old, stored) ∷ entries) = ground (
    arith,
    lookup-insert key wanted value entries,
    e.beq_iff key wanted,
    e.beq_iff old key,
    e.beq_iff old wanted,
  )
  lookup-insert key wanted value [] = refl

  pub lookup-insert_self : (k : K) (v : V) (m : Dict K V) → lookup k (insert k v m) ≡ some v
  lookup-insert_self k v m = rw (lookup-insert k k v m) (rw ((e.beq_iff k k).1 refl))

  pub lookup-delete :
      (k j : K) (m : Dict K V) → lookup j (delete k m) ≡ (if k == j then none else lookup j m)
  unfolding lookup delete
  lookup-delete k j [] = ground arith
  lookup-delete k j ((i, w) ∷ m) =
      ground (arith, e.beq_iff k j, e.beq_iff i k, e.beq_iff i j, lookup-delete k j m)

  -- What holds of every value holds of the value at a key.
  pub All-lookup {μ} :
      (P : V → Type μ) (m : Dict K V) (k : K) (v : V) → All P (values m) → lookup k m ≡ some v → P v
  unfolding values lookup
  All-lookup P [] k v h p = cc
  All-lookup P ((j, w) ∷ m) k v h p = ground (arith, All-lookup P m k v)

  -- A test that fails on every value fails on the value at a key.
  pub any-lookup :
      (p : V → Bool) (m : Dict K V) (k : K) (v : V)
      → any p (values m) ≡ false
      → lookup k m ≡ some v
      → p v ≡ false
  unfolding values lookup any
  any-lookup p [] k v h q = cc
  any-lookup p ((j, w) ∷ m) k v h q = ground (arith, any-lookup p m k v)

pub ruleset dict_laws = (lookup-insert, lookup-delete)

-- Each value is stored under its own identifier, and no identifier twice.
module _ {ℓ κ} {K : Type ℓ} {V : Type κ} ⦃e : Eq K⦄ (id : V → K) where
  abbrev pub IsKeyed : Dict K V → Type (ℓ ⊔ κ)
  IsKeyed [] = Unit
  IsKeyed ((k, v) ∷ m) = (id v ≡ k) × (lookup k m ≡ none) × IsKeyed m

  lookup-insert-none :
      (k j : K) (v : V) (m : Dict K V)
      → lookup j m ≡ none
      → e.beq k j ≡ false
      → lookup j (insert k v m) ≡ none
  lookup-insert-none k j v m h ne = lookup-insert k j v m ∙ cc

  pub insert-IsKeyed :
      (k : K) (v : V) (m : Dict K V) → id v ≡ k → IsKeyed m → IsKeyed (insert k v m)
  unfolding insert lookup
  insert-IsKeyed k v [] q h = (q, refl, tt)
  insert-IsKeyed k v ((j, w) ∷ m) q h =
      ground
        (arith, e.beq_iff j k, e.beq_iff k j, insert-IsKeyed k v m q, lookup-insert-none k j v m)

  pub IsKeyed-lookup : (k : K) (v : V) (m : Dict K V) → IsKeyed m → lookup k m ≡ some v → id v ≡ k
  unfolding lookup
  IsKeyed-lookup k v [] h p = cc
  IsKeyed-lookup k v ((j, w) ∷ m) h p = ground (arith, e.beq_iff j k, IsKeyed-lookup k v m h.2)

  -- Every value is found under its identifier.
  All-values_from :
      (P : V → Type κ) (m : Dict K V)
      → IsKeyed m
      → ((v : V) → lookup (id v) m ≡ some v → P v)
      → All P (values m)
  unfolding values lookup
  All-values_from P [] h f = tt
  All-values_from P ((j, w) ∷ m) h f = (
    f w (ground (arith, e.beq_iff j (id w))),
    All-values_from P m h.2 (λ v p. f v (ground (arith, e.beq_iff j (id v)))),
  )

  pub lookup-values : (m : Dict K V) → IsKeyed m → All (λ v. lookup (id v) m ≡ some v) (values m)
  lookup-values m h = All-values_from (λ v. lookup (id v) m ≡ some v) m h (λ v p. p)
