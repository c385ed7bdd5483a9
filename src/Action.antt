-- ===== src/Action.antt =====
-- Operations that change a store and may fail. The in-memory store does not roll back, so the state
-- comes back beside an error too.
pub mod Always
pub mod Laws
use rebuno.Prelude.{Bool, List, Option, [], if◌then◌else◌, none, some, ◌∷◌}
use rebuno.Domain.Records.{Err}

pub data Result {ℓ} (A : Type ℓ) : Type ℓ where
  ok : A → Result A
  err : Err → Result A

abbrev pub Action : Type 0 → Type 0 → Type 0
Action S A = S → Result A × S

unfoldable pub or_raise : {A : Type 0} → Err → Option A → Result A
or_raise e none = err e
or_raise e (some a) = ok a

module _ {S A : Type 0} where
  unfoldable pub pure : A → Action S A
  pure a s = (ok a, s)

  unfoldable pub raise : Err → Action S A
  raise e s = (err e, s)

  -- A read of the state, which may fail.
  unfoldable pub reads : (S → Result A) → Action S A
  reads f s = (f s, s)

  unfoldable pub of_result : Result A → Action S A
  of_result r s = (r, s)

  -- The error becomes a value, for code that looks at it.
  unfoldable pub caught : Action S A → Action S (Result A)
  caught m s = let (r, t) = m s in (ok r, t)

unfoldable pub modify : {S : Type 0} → (S → S) → Action S (Unit {0})
modify f s = (ok tt, f s)

module _ {S A B : Type 0} where
  abbrev pub proceed : Result A → (A → Action S B) → Action S B
  proceed (ok a) f s = f a s
  proceed (err e) f s = (err e, s)

  infixl 5 ◌>>=◌ ◌>>◌
  unfoldable pub ◌>>=◌ : Action S A → (A → Action S B) → Action S B
  unfolding pure raise reads of_result or_raise
  ◌>>=◌ m f s = let (r, t) = m s in proceed r f t

  abbrev pub ◌>>◌ : Action S A → Action S B → Action S B
  m >> k = m >>= λ _. k

-- if b { return e }
unfoldable pub refuse_if : {S : Type 0} → Bool → Err → Action S (Unit {0})
refuse_if b e s = if b then (err e, s) else (ok tt, s)

-- for _, x := range xs { if err := f(x); err != nil { return err } }
unfoldable pub for_each : {S A : Type 0} → (A → Action S (Unit {0})) → List A → Action S (Unit {0})
for_each f [] = pure tt
for_each f (x ∷ xs) = f x >> for_each f xs
