-- ===== src/Prelude/Lists.antt =====
-- Lists measured by native numbers, filtered by Boolean tests, and sorted.
use Prim.Native.Nat.{ℕ, zero, suc, ◌+◌}
use mathlib.Core.Path.{◌≡◌, refl}
use mathlib.Core.Bool.{Bool, true, false, ◌&&◌, ◌||◌}
use mathlib.Core.List.{List, [], ◌∷◌, ◌++◌, map}
use mathlib.Core.Logic.{inl, inr}
use mathlib.Core.Option.{Option, none, some}
use native.Mathlib.Omega.{arith}
use rebuno.Prelude.Tests.{if◌then◌else◌, Bool-cases, Eq, ◌==◌}

module _ {ℓ} {A : Type ℓ} where
  abbrev pub length : List A → ℕ
  length [] = 0
  length (x ∷ xs) = suc (length xs)

  abbrev pub take : ℕ → List A → List A
  take zero xs = []
  take (suc n) [] = []
  take (suc n) (x ∷ xs) = x ∷ take n xs

  abbrev pub drop : ℕ → List A → List A
  drop zero xs = xs
  drop (suc n) [] = []
  drop (suc n) (x ∷ xs) = drop n xs

  -- Every element satisfies P.
  abbrev pub All {κ} : (A → Type κ) → List A → Type κ
  All P [] = Unit
  All P (x ∷ xs) = P x × All P xs

  pub drop-nil : (n : ℕ) → drop n [] ≡ []
  drop-nil zero = refl
  drop-nil (suc n) = refl

  pub take-nil : (n : ℕ) → take n [] ≡ []
  take-nil zero = refl
  take-nil (suc n) = refl

  pub length-append : (xs ys : List A) → length (xs ++ ys) ≡ length xs + length ys
  length-append [] ys = omega arith
  length-append (x ∷ xs) ys = omega (arith, length-append xs ys)

  -- A loop that appends the elements that pass a test.
  unfoldable pub filter : (A → Bool) → List A → List A
  filter p [] = []
  filter p (x ∷ xs) = let rest = filter p xs in if p x then x ∷ rest else rest

  unfoldable pub any : (A → Bool) → List A → Bool
  any p [] = false
  any p (x ∷ xs) = p x || any p xs

  -- slices.IndexFunc and the element at the index.
  unfoldable pub find : (A → Bool) → List A → Option A
  find p [] = none
  find p (x ∷ xs) = if p x then some x else find p xs

  -- sort.Slice. Go leaves the order of elements that compare equal open; here they keep it.
  unfoldable pub insert_sorted : (A → A → Bool) → A → List A → List A
  insert_sorted less x [] = x ∷ []
  insert_sorted less x (y ∷ ys) = if less y x then y ∷ insert_sorted less x ys else x ∷ y ∷ ys

  unfoldable pub sort : (A → A → Bool) → List A → List A
  unfolding insert_sorted
  sort less [] = []
  sort less (x ∷ xs) = insert_sorted less x (sort less xs)

  -- The head of a list that is cut to at most n elements, where a limit of 0 means no limit.
  unfoldable pub limit_to : ℕ → List A → List A
  limit_to zero xs = xs
  limit_to (suc n) xs = take (suc n) xs

module _ {ℓ} {A : Type ℓ} ⦃e : Eq A⦄ where
  -- slices.Contains
  unfoldable pub contains : (elements : List A) (wanted : A) → Bool
  contains [] wanted = false
  contains (first ∷ others) wanted = first == wanted || contains others wanted

module _ {ℓ κ} {A : Type ℓ} (P : A → Type κ) where
  pub All-filter : (p : A → Bool) (xs : List A) → All P xs → All P (filter p xs)
  unfolding filter
  All-filter p [] h = tt
  All-filter p (x ∷ xs) h = ground (arith, All-filter p xs)

  pub All-insert_sorted :
      (less : A → A → Bool) (x : A) (xs : List A) → P x → All P xs → All P (insert_sorted less x xs)
  unfolding insert_sorted
  All-insert_sorted less x [] hx h = (hx, tt)
  All-insert_sorted less x (y ∷ ys) hx h = ground (arith, All-insert_sorted less x ys)

  pub All-sort : (less : A → A → Bool) (xs : List A) → All P xs → All P (sort less xs)
  unfolding sort
  All-sort less [] h = tt
  All-sort less (x ∷ xs) h = All-insert_sorted less x (sort less xs) h.0 (All-sort less xs h.1)

  All-of_insert_sorted :
      (less : A → A → Bool) (x : A) (xs : List A) → All P (insert_sorted less x xs) → P x × All P xs
  unfolding insert_sorted
  All-of_insert_sorted less x [] h = (h.0, tt)
  All-of_insert_sorted less x (y ∷ ys) h = ground (arith, All-of_insert_sorted less x ys)

  -- What holds of the elements of a sorted list held of those of the list.
  pub All-of_sort : (less : A → A → Bool) (xs : List A) → All P (sort less xs) → All P xs
  unfolding sort
  All-of_sort less [] h = tt
  All-of_sort less (x ∷ xs) h =
      let (hx, rest) = All-of_insert_sorted less x (sort less xs) h in
      (hx, All-of_sort less xs rest)

  pub All-of_filter :
      (p : A → Bool) (xs : List A) → All P (filter p xs) → All (λ x. p x ≡ true → P x) xs
  unfolding filter
  All-of_filter p [] h = tt
  All-of_filter p (x ∷ xs) h = elim (Bool-cases (p x)) [
    | inl e ↦ ground (arith, All-of_filter p xs)
    | inr e ↦ (λ q. absurd (cc), ground (arith, All-of_filter p xs))
  ]

  pub All-take : (n : ℕ) (xs : List A) → All P xs → All P (take n xs)
  All-take zero xs h = tt
  All-take (suc n) [] h = tt
  All-take (suc n) (x ∷ xs) h = (h.0, All-take n xs h.1)

  pub All-limit_to : (n : ℕ) (xs : List A) → All P xs → All P (limit_to n xs)
  unfolding limit_to
  All-limit_to zero xs h = h
  All-limit_to (suc n) xs h = All-take (suc n) xs h

  pub All-append : (xs ys : List A) → All P xs → All P ys → All P (xs ++ ys)
  All-append [] ys hx hy = hy
  All-append (x ∷ xs) ys hx hy = (hx.0, All-append xs ys hx.1 hy)

module _ {ℓ} {A : Type ℓ} (p : A → Bool) where
  -- What a filter keeps passes the test.
  pub filter-All : (xs : List A) → All (λ x. p x ≡ true) (filter p xs)
  unfolding filter
  filter-All [] = tt
  filter-All (x ∷ xs) = ground (arith, filter-All xs)

  pub any_of_All : (xs : List A) → All (λ x. p x ≡ false) xs → any p xs ≡ false
  unfolding any
  any_of_All [] h = refl
  any_of_All (x ∷ xs) h = ground (arith, any_of_All xs)

module _ {ℓ κ} {A B : Type ℓ} (P : B → Type κ) where
  pub All-map : (f : A → B) (xs : List A) → All (λ x. P (f x)) xs → All P (map f xs)
  All-map f [] h = tt
  All-map f (x ∷ xs) h = (h.0, All-map f xs h.1)

module _ {ℓ κ μ} {A : Type ℓ} (P : A → Type κ) (Q : A → Type μ) where
  pub All-weaken : (xs : List A) → ((x : A) → P x → Q x) → All P xs → All Q xs
  All-weaken [] f h = tt
  All-weaken (x ∷ xs) f h = (f x h.0, All-weaken xs f h.1)

module _ {ℓ κ μ} {A : Type ℓ} (P : A → Type κ) (Q : A → Type μ) where
  pub All-both : (xs : List A) → All P xs → All Q xs → All (λ x. P x × Q x) xs
  All-both [] h k = tt
  All-both (x ∷ xs) h k = ((h.0, k.0), All-both xs h.1 k.1)

module _ {ℓ} {A : Type ℓ} (p : A → Bool) where
  -- What a search finds passes the test.
  pub find-passes : (xs : List A) (x : A) → find p xs ≡ some x → p x ≡ true
  unfolding find
  find-passes [] x h = cc
  find-passes (y ∷ ys) x h = ground (arith, find-passes ys x)

  -- A narrower search finds the same element if that one passes its test.
  pub find-narrowed :
      (q : A → Bool) (xs : List A) (x : A)
      → ((y : A) → q y ≡ true → p y ≡ true)
      → find p xs ≡ some x
      → q x ≡ true
      → find q xs ≡ some x
  unfolding find
  find-narrowed q [] x narrower h t = cc
  find-narrowed q (y ∷ ys) x narrower h t = ground (arith, find-narrowed q ys x, narrower y)

-- A test of some element, of a list that is sorted or filtered.
module _ {ℓ} {A : Type ℓ} (p : A → Bool) where
  any-insert_sorted :
      (less : A → A → Bool) (x : A) (xs : List A)
      → any p (insert_sorted less x xs) ≡ (p x || any p xs)
  unfolding any insert_sorted
  any-insert_sorted less x [] = refl
  any-insert_sorted less x (y ∷ ys) = ground (arith, any-insert_sorted less x ys)

  pub any-sort : (less : A → A → Bool) (xs : List A) → any p (sort less xs) ≡ any p xs
  unfolding any sort
  any-sort less [] = refl
  any-sort less (x ∷ xs) = ground (arith, any-insert_sorted less x (sort less xs), any-sort less xs)

  pub any-filter :
      (keep : A → Bool) (xs : List A) → any p (filter keep xs) ≡ any (λ x. keep x && p x) xs
  unfolding any filter
  any-filter keep [] = refl
  any-filter keep (x ∷ xs) = ground (arith, any-filter keep xs)
