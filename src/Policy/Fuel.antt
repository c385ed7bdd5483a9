-- ===== src/Policy/Fuel.antt =====
-- The loops on keys and patterns end: the fuel that is the length of the text is enough.
use Prim.Native.Char.{code}
use rebuno.Prelude.{
  Bool-cases, Option, Option-cases, String, arith, inl, inr, none, refl, some, string_eq, subst,
  suc, zero, ℕ, ℕ_eq, ◌<◌, ◌==◌, ◌∙◌, ◌≡◌,
}
use rebuno.Domain.Json.{Fields, Json}
use rebuno.Policy.Arguments.{
  after_cut, cut_at, dot, find_member, in_object, lookup_argument, lookup_within, nested_object,
  or_nested, text_length,
}

cut_at-shorter :
    (sep : ℕ) (key : String) (parts : String × String)
    → cut_at sep key ≡ some parts
    → text_length parts.1 < text_length key
unfolding cut_at text_length
cut_at-shorter sep String.[] parts h = cc
cut_at-shorter sep (String.◌∷◌ c key) parts h = elim (Bool-cases (code c == sep)) [
  | inl at_start ↦
      let q : ("", key) ≡ parts = ground arith in
      subst (λ (p : String × String). text_length p.1 < suc (text_length key)) q (ground arith)
  | inr further ↦ elim (Option-cases (cut_at sep key)) [
    | inl nothing ↦ ground arith
    | inr ((head, rest), found) ↦
        let shorter = cut_at-shorter sep key (head, rest) found in
        let q : (String.◌∷◌ c head, rest) ≡ parts = ground arith in
        subst (λ (p : String × String). text_length p.1 < suc (text_length key)) q (ground arith)
  ]
]

-- A call depends on its own calls only where the key is cut.
or_nested-same :
    (f g : Fields → String → Option Json) (fields : Fields) (key : String)
    → ((inner : Fields) (rest : String)
        → text_length rest < text_length key
        → f inner rest ≡ g inner rest)
    → or_nested f fields key (find_member fields key)
      ≡ or_nested g fields key (find_member fields key)
or_nested-same f g fields key same = at_name (find_member fields key)
  where
    at_object :
        (o : Option Fields) (rest : String)
        → text_length rest < text_length key
        → in_object f o rest ≡ in_object g o rest
    at_object none rest shorter = refl
    at_object (some inner) rest shorter = same inner rest shorter

    at_cut :
        (o : Option (String × String))
        → cut_at dot key ≡ o
        → after_cut f fields o ≡ after_cut g fields o
    at_cut none q = refl
    at_cut (some (head, rest)) q =
        at_object (nested_object fields head) rest (cut_at-shorter dot key (head, rest) q)

    at_name : (o : Option Json) → or_nested f fields key o ≡ or_nested g fields key o
    at_name (some v) = refl
    at_name none = at_cut (cut_at dot key) refl

lookup_within-enough :
    (n m : ℕ) (fields : Fields) (key : String)
    → text_length key < n
    → text_length key < m
    → lookup_within n fields key ≡ lookup_within m fields key
unfolding lookup_within
lookup_within-enough zero m fields key h k = ground arith
lookup_within-enough (suc n) zero fields key h k = ground arith
lookup_within-enough (suc n) (suc m) fields key h k =
    or_nested-same (lookup_within n) (lookup_within m) fields key
      (λ inner rest shorter. lookup_within-enough n m inner rest (ground arith) (ground arith))

-- The recursion of lookupArgument ends, with what its text says: an argument of the name is the answer, even where the name has a dot; else the name is cut at its first dot, and the part after the dot is looked up the same way in the object that is the argument named by the part before; a name without a dot, and a part that is no object, has no answer.
pub lookup_argument-recursion :
    (fields : Fields) (key : String)
    → lookup_argument fields key ≡ elim (find_member fields key) [
      | some v ↦ some v
      | none ↦ elim (cut_at dot key) [
        | none ↦ none
        | some parts ↦ elim (nested_object fields parts.0) [
          | none ↦ none
          | some inner ↦ lookup_argument inner parts.1
        ]
      ]
    ]
unfolding lookup_argument lookup_within
lookup_argument-recursion fields key =
    or_nested-same (lookup_within (text_length key)) lookup_argument fields key
      (λ inner rest shorter.
        lookup_within-enough (text_length key) (suc (text_length rest)) inner rest shorter
          (ground arith))
    ∙ at_name (find_member fields key)
  where
    at_object :
        (o : Option Fields) (rest : String)
        → in_object lookup_argument o rest
          ≡ elim o [ none ↦ none | some inner ↦ lookup_argument inner rest ]
    at_object none rest = refl
    at_object (some inner) rest = refl

    at_cut :
        (o : Option (String × String))
        → after_cut lookup_argument fields o ≡ elim o [
          | none ↦ none
          | some parts ↦ elim (nested_object fields parts.0) [
            | none ↦ none
            | some inner ↦ lookup_argument inner parts.1
          ]
        ]
    at_cut none = refl
    at_cut (some (head, rest)) = at_object (nested_object fields head) rest

    at_name :
        (o : Option Json)
        → or_nested lookup_argument fields key o ≡ elim o [
          | some v ↦ some v
          | none ↦ elim (cut_at dot key) [
            | none ↦ none
            | some parts ↦ elim (nested_object fields parts.0) [
              | none ↦ none
              | some inner ↦ lookup_argument inner parts.1
            ]
          ]
        ]
    at_name (some v) = refl
    at_name none = at_cut (cut_at dot key)
