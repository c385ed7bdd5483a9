-- ===== src/Action/Always.antt =====
-- What an action does to its state whatever it returns: a reflexive and transitive relation between
-- the state before and the state after, with a rule for each way to build an action.
use rebuno.Prelude.{Bool, List, [], false, if◌then◌else◌, true, ◌∷◌}
use rebuno.Action.{
  Action, Result, caught, err, for_each, of_result, ok, proceed, pure, raise, reads, refuse_if,
  ◌>>=◌,
}
use rebuno.Domain.Records.{Err}

pub record Preorder {S : Type 0} (R : S → S → Type 0) : Type 0 where
  pub same : (s : S) → R s s
  pub chain : (s t u : S) → R s t → R t u → R s u

-- Every run of m relates its two states.
pub record Always {S A : Type 0} (R : S → S → Type 0) (m : Action S A) : Type 0 where
  pub at : (s : S) → R s (m s).1

module _ {S : Type 0} {R : S → S → Type 0} (p : Preorder R) where
  module _ {A : Type 0} where
    pub Always-pure : (a : A) → Always R (pure a)
    unfolding pure
    Always-pure a = record { at = λ s. p.same s }

    pub Always-raise : (e : Err) → Always R (raise {A = A} e)
    unfolding raise
    Always-raise e = record { at = λ s. p.same s }

    pub Always-reads : (f : S → Result A) → Always R (reads f)
    unfolding reads
    Always-reads f = record { at = λ s. p.same s }

    pub Always-of_result : (r : Result A) → Always R (of_result r)
    unfolding of_result
    Always-of_result r = record { at = λ s. p.same s }

    pub Always-caught : (m : Action S A) → Always R m → Always R (caught m)
    unfolding caught
    Always-caught m h = record { at = λ s. h.at s }

    pub Always-if :
        (b : Bool) (m n : Action S A) → Always R m → Always R n → Always R (if b then m else n)
    Always-if true m n hm hn = hm
    Always-if false m n hm hn = hn

  pub Always-refuse_if : (b : Bool) (e : Err) → Always R (refuse_if b e)
  unfolding refuse_if
  Always-refuse_if true e = record { at = λ s. p.same s }
  Always-refuse_if false e = record { at = λ s. p.same s }

  module _ {A B : Type 0} where
    Always-proceed :
        (r : Result A) (f : A → Action S B) → ((a : A) → Always R (f a)) → Always R (proceed r f)
    Always-proceed (ok a) f hf = record { at = (hf a).at }
    Always-proceed (err e) f hf = record { at = λ s. p.same s }

    pub Always-bind :
        (m : Action S A) (f : A → Action S B)
        → Always R m
        → ((a : A) → Always R (f a))
        → Always R (m >>= f)
    unfolding ◌>>=◌
    Always-bind m f hm hf = record {
      at = λ s.
          let (r, t) = m s in
          p.chain s t (proceed r f t).1 (hm.at s) ((Always-proceed r f hf).at t);
    }

  pub Always-for_each :
      {A : Type 0} (f : A → Action S (Unit {0})) (xs : List A)
      → ((a : A) → Always R (f a))
      → Always R (for_each f xs)
  unfolding for_each
  Always-for_each f [] hf = Always-pure tt
  Always-for_each f (x ∷ xs) hf =
      Always-bind (f x) (λ _. for_each f xs) (hf x) (λ _. Always-for_each f xs hf)
