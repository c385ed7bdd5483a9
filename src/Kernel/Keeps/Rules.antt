-- ===== src/Kernel/Keeps/Rules.antt =====
-- The ways to chain actions keep what Keeps says.
use rebuno.Prelude.{Bool, List, Option, if◌then◌else◌, none, some}
use rebuno.Action.{
  Action, Result, caught, for_each, of_result, pure, raise, reads, refuse_if, ◌>>=◌,
}
use rebuno.Action.Always.{
  Always-bind, Always-caught, Always-for_each, Always-if, Always-of_result, Always-pure,
  Always-raise, Always-reads, Always-refuse_if,
}
use rebuno.Domain.Records.{Err}
use rebuno.Kernel.Keeps.{Keeping, Keeps-preorder}
use rebuno.Memstore.Store.{Store}

module _ {A : Type 0} where
  pub pure-Keeping : (a : A) → Keeping (pure a)
  pure-Keeping = Always-pure Keeps-preorder

  pub raise-Keeping : (e : Err) → Keeping (raise {A = A} e)
  raise-Keeping = Always-raise Keeps-preorder

  pub reads-Keeping : (f : Store → Result A) → Keeping (reads f)
  reads-Keeping = Always-reads Keeps-preorder

  pub of_result-Keeping : (r : Result A) → Keeping (of_result r)
  of_result-Keeping = Always-of_result Keeps-preorder

  pub caught-Keeping : (m : Action Store A) → Keeping m → Keeping (caught m)
  caught-Keeping = Always-caught Keeps-preorder

  pub if-Keeping :
      (b : Bool) (m n : Action Store A) → Keeping m → Keeping n → Keeping (if b then m else n)
  if-Keeping = Always-if Keeps-preorder

  pub option-Keeping :
      {B : Type 0} (o : Option B) (m : Action Store A) (f : B → Action Store A)
      → Keeping m
      → ((b : B) → Keeping (f b))
      → Keeping (elim o [ none ↦ m | some b ↦ f b ])
  option-Keeping none m f hm hf = hm
  option-Keeping (some b) m f hm hf = hf b

pub refuse_if-Keeping : (b : Bool) (e : Err) → Keeping (refuse_if b e)
refuse_if-Keeping = Always-refuse_if Keeps-preorder

pub for_each-Keeping :
    {A : Type 0} (f : A → Action Store (Unit {0})) (xs : List A)
    → ((a : A) → Keeping (f a))
    → Keeping (for_each f xs)
for_each-Keeping = Always-for_each Keeps-preorder

pub bind-Keeping :
    {A B : Type 0} (m : Action Store A) (f : A → Action Store B)
    → Keeping m
    → ((a : A) → Keeping (f a))
    → Keeping (m >>= f)
bind-Keeping = Always-bind Keeps-preorder
