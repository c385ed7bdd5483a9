-- ===== src/Prelude/Tests.antt =====
-- Boolean tests on native numbers, the conditional, and decidable equality as an interface.
use Prim.Native.Nat.{ℕ, ◌≤◌, ◌<◌, compare, Ordering}
use Prim.Native.String.{String}
use mathlib.Core.Path.{◌≡◌, refl}
use mathlib.Core.Logic.{◌≢◌, ◌↔◌, ◌⊎◌, inl, inr}
use mathlib.Core.Bool.{Bool, true, false}
use mathlib.Core.Option.{Option, none, some}
use native.Mathlib.Omega.{arith}
use text.Mathlib.Text.{◌==◌ as str_eq}
use text.Mathlib.TextEquality.{eq_iff}

abbrev pub ltb : ℕ → ℕ → Bool
ltb a b = elim (compare a b) [ Ordering.lt ↦ true | _ ↦ false ]

abbrev pub leb : ℕ → ℕ → Bool
leb a b = elim (compare a b) [ Ordering.gt ↦ false | _ ↦ true ]

abbrev pub nat_eq : ℕ → ℕ → Bool
nat_eq a b = elim (compare a b) [ Ordering.eq ↦ true | _ ↦ false ]

infix 1 if◌then◌else◌
abbrev pub if◌then◌else◌ {ℓ} : {A : Type ℓ} → Bool → A → A → A
if true then x else y = x
if false then x else y = y

-- x == y of a comparable type, and what it means.
pub record Eq {κ} (K : Type κ) : Type κ where
  pub beq : (x y : K) → Bool
  pub beq_iff : (x y : K) → (beq x y ≡ true) ↔ (x ≡ y)

infix 50 ◌==◌
abbrev pub ◌==◌ {κ} : {K : Type κ} ⦃eq_K : Eq K⦄ → (x y : K) → Bool
◌==◌ ⦃eq_K⦄ x y = eq_K.beq x y

pub nat_eq_iff : (a b : ℕ) → (nat_eq a b ≡ true) ↔ (a ≡ b)
nat_eq_iff a b = ground arith

instance abbrev pub string_eq : Eq String
string_eq = record { beq = str_eq; beq_iff = eq_iff }

instance abbrev pub ℕ_eq : Eq ℕ
ℕ_eq = record { beq_iff = nat_eq_iff; beq = nat_eq }

pub ltb→lt : (a b : ℕ) → ltb a b ≡ true → a < b
ltb→lt a b h = ground arith

pub leb→le : (a b : ℕ) → leb a b ≡ true → a ≤ b
leb→le a b h = ground arith

-- To split on a computed test and keep the equation.
pub Bool-cases : (test : Bool) → (test ≡ true) ⊎ (test ≡ false)
Bool-cases true = inl refl
Bool-cases false = inr refl

pub Option-cases : {A : Type 0} (o : Option A) → (o ≡ none) ⊎ ((value : A) × (o ≡ some value))
Option-cases none = inl refl
Option-cases (some value) = inr (value, refl)

-- Texts that compare unequal differ; for two literals the test computes.
pub texts_differ : (a b : String) → (a == b) ≡ false → a ≢ b
texts_differ a b h p = let e : (a == b) ≡ true = (eq_iff a b).1 p in cc
