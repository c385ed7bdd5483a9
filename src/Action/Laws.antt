-- ===== src/Action/Laws.antt =====
-- How a chain of actions runs, from what its first action does.
use rebuno.Prelude.{Bool, false, inl, inr, refl, true, ◌≡◌, ◌⊎◌}
use rebuno.Action.{Action, Result, err, ok, proceed, pure, reads, refuse_if, ◌>>=◌}
use rebuno.Domain.Records.{Err}

module _ {S A B : Type 0} (m : Action S A) (f : A → Action S B) (s : S) where
  pub bind-ok : (a : A) (t : S) → m s ≡ (ok a, t) → (m >>= f) s ≡ f a t
  unfolding ◌>>=◌
  bind-ok a t h = rw h

  pub bind-err : (e : Err) (t : S) → m s ≡ (err e, t) → (m >>= f) s ≡ (err e, t)
  unfolding ◌>>=◌
  bind-err e t h = rw h

-- A chain that succeeds ran its first action to the end.
module _ {S A B : Type 0} (m : Action S A) (f : A → Action S B) (s : S) where
  pub bind_ok_inversion :
      (b : B) (u : S)
      → (m >>= f) s ≡ (ok b, u)
      → (a : A) × (t : S) × (m s ≡ (ok a, t)) × (f a t ≡ (ok b, u))
  unfolding ◌>>=◌
  bind_ok_inversion b u h = go (m s).0 (m s).1 refl h
    where
      go :
          (r : Result A) (t : S)
          → m s ≡ (r, t)
          → proceed r f t ≡ (ok b, u)
          → (a : A) × (v : S) × (m s ≡ (ok a, v)) × (f a v ≡ (ok b, u))
      go (ok a) t p q = (a, t, p, q)
      go (err e) t p q = cc

-- What comes after only computes a value.
pub state-bind_pure :
    {S A B : Type 0} (m : Action S A) (f : A → B) (s : S) → ((m >>= λ a. pure (f a)) s).1 ≡ (m s).1
unfolding ◌>>=◌
state-bind_pure {S} {A} {B} m f s = go (m s).0 (m s).1
  where
    go : (r : Result A) (t : S) → (proceed r (λ a. pure (f a)) t).1 ≡ t
    go (ok a) t = refl
    go (err e) t = refl

-- A guard that let the chain go on was false, and a read that did found its value.
module _ {S B : Type 0} (s t : S) (b : B) where
  pub refuse_if-inversion :
      (c : Bool) (e : Err) (f : Unit {0} → Action S B)
      → (refuse_if c e >>= f) s ≡ (ok b, t)
      → (c ≡ false) × (f tt s ≡ (ok b, t))
  unfolding ◌>>=◌ refuse_if
  refuse_if-inversion true e f h = cc
  refuse_if-inversion false e f h = (refl, h)

  pub reads-inversion :
      {A : Type 0} (g : S → Result A) (f : A → Action S B)
      → (reads g >>= f) s ≡ (ok b, t)
      → (a : A) × (g s ≡ ok a) × (f a s ≡ (ok b, t))
  unfolding ◌>>=◌ reads
  reads-inversion {A} g f h = go (g s) refl h
    where
      go :
          (r : Result A)
          → g s ≡ r
          → proceed r f s ≡ (ok b, t)
          → (a : A) × (g s ≡ ok a) × (f a s ≡ (ok b, t))
      go (ok a) p q = (a, p, q)
      go (err e) p q = cc

pub Result-cases : {A : Type 0} (r : Result A) → ((e : Err) × (r ≡ err e)) ⊎ ((a : A) × (r ≡ ok a))
Result-cases (err e) = inl (e, refl)
Result-cases (ok a) = inr (a, refl)
