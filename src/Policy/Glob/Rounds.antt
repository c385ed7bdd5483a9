-- ===== src/Policy/Glob/Rounds.antt =====
-- The loops of compileGlob end: every round reads at least a character of the pattern.
use Prim.Native.Char.{code}
use rebuno.Prelude.{
  Option, String, none, some, zero, suc, refl, ap, arith, not, Bool-cases, inl, inr, ℕ, ℕ_eq, ◌&&◌,
  ◌<◌, ◌≡◌, ◌==◌,
}
use rebuno.Policy.Arguments.{text_length}
use rebuno.Policy.Glob.{
  GlobMode, GlobRound, emits, finished, out_of_range, in_class, outside, glob_from, glob_round,
  next_literal, emits_literal, range_or_literal, class_literal, class_start, glued,
}

-- what a round leaves is shorter than a length
LeavesLess : ℕ → GlobRound → Type 0
LeavesLess n finished = Unit {0}
LeavesLess n out_of_range = Unit {0}
LeavesLess n (emits s mode rest) = text_length rest < n

RestLess : ℕ → Option (String × String) → Type 0
RestLess n none = Unit {0}
RestLess n (some (lit, rest)) = text_length rest < n

next_literal-RestLess : (text : String) → RestLess (text_length text) (next_literal text)
unfolding text_length RestLess
next_literal-RestLess String.[] = tt
next_literal-RestLess (String.◌∷◌ c String.[]) = elim (Bool-cases (code c == 92)) [
  | inl is ↦ rw is (ground arith)
  | inr is_not ↦ rw is_not (ground arith)
]
next_literal-RestLess (String.◌∷◌ c (String.◌∷◌ d rest)) = elim (Bool-cases (code c == 92)) [
  | inl is ↦ rw is (ground arith)
  | inr is_not ↦ rw is_not (ground arith)
]

emits_literal-LeavesLess :
    (n : ℕ) (before : String) (mode : GlobMode) (o : Option (String × String))
    → RestLess n o
    → LeavesLess n (emits_literal before mode o)
unfolding LeavesLess RestLess
emits_literal-LeavesLess n before mode none less = tt
emits_literal-LeavesLess n before mode (some (lit, rest)) less = less

RestLess-trans : (m n : ℕ) (o : Option (String × String)) → RestLess m o → m < n → RestLess n o
unfolding RestLess
RestLess-trans m n none less below = tt
RestLess-trans m n (some (lit, rest)) less below = ground arith

range_or_literal-LeavesLess :
    (n : ℕ) (lit rest : String) → text_length rest < n → LeavesLess n (range_or_literal lit rest)
unfolding LeavesLess text_length
range_or_literal-LeavesLess n lit String.[] less = tt
range_or_literal-LeavesLess n lit (String.◌∷◌ c rest) less = elim (Bool-cases (code c == 45)) [
  | inl is ↦ rw is (
      emits_literal-LeavesLess n _ _ (next_literal rest) (
        RestLess-trans (text_length rest) n (next_literal rest) (next_literal-RestLess rest)
          (ground arith)))
  | inr is_not ↦ rw is_not less
]

class_literal-LeavesLess :
    (n : ℕ) (o : Option (String × String)) → RestLess n o → LeavesLess n (class_literal o)
unfolding LeavesLess RestLess
class_literal-LeavesLess n none less = tt
class_literal-LeavesLess n (some (lit, rest)) less = range_or_literal-LeavesLess n lit rest less

class_start-LeavesLess : (text : String) → LeavesLess (suc (text_length text)) (class_start text)
unfolding LeavesLess text_length
class_start-LeavesLess String.[] = tt
class_start-LeavesLess (String.◌∷◌ c rest) = elim (Bool-cases (code c == 94)) [
  | inl is ↦ rw is (ground arith)
  | inr is_not ↦ rw is_not (ground arith)
]

glob_round-LeavesLess :
    (mode : GlobMode) (text : String) → LeavesLess (text_length text) (glob_round mode text)
unfolding LeavesLess text_length glob_round
glob_round-LeavesLess outside String.[] = tt
glob_round-LeavesLess outside (String.◌∷◌ c rest) = elim (Bool-cases (code c == 42)) [
  | inl star ↦ rw star (ground arith)
  | inr no_star ↦ elim (Bool-cases (code c == 63)) [
    | inl any_one ↦ rw no_star (rw any_one (ground arith))
    | inr no_mark ↦ elim (Bool-cases (code c == 91)) [
      | inl class ↦ rw no_star (rw no_mark (rw class (class_start-LeavesLess rest)))
      | inr no_class ↦ rw no_star (
          rw no_mark (
            rw no_class (
              emits_literal-LeavesLess (suc (text_length rest)) _ _
                (next_literal (String.◌∷◌ c rest)) (next_literal-RestLess (String.◌∷◌ c rest)))))
    ]
  ]
]
glob_round-LeavesLess (in_class first) String.[] = tt
glob_round-LeavesLess (in_class first) (String.◌∷◌ c rest) =
    elim (Bool-cases (not first && code c == 93)) [
      | inl closes ↦ rw closes (ground arith)
      | inr goes_on ↦ rw goes_on (
          class_literal-LeavesLess (suc (text_length rest)) (next_literal (String.◌∷◌ c rest))
            (next_literal-RestLess (String.◌∷◌ c rest)))
    ]

rounds-same :
    (f g : GlobMode → String → Option String) (n : ℕ) (round : GlobRound)
    → LeavesLess n round
    → ((following : GlobMode) (rest : String)
        → text_length rest < n
        → f following rest ≡ g following rest)
    → ◌≡◌ {A = Option String}
        (elim round [
          | finished ↦ some ""
          | out_of_range ↦ none
          | emits s following rest ↦ glued s (f following rest)
        ])
        (elim round [
          | finished ↦ some ""
          | out_of_range ↦ none
          | emits s following rest ↦ glued s (g following rest)
        ])
unfolding LeavesLess
rounds-same f g n finished less same = refl
rounds-same f g n out_of_range less same = refl
rounds-same f g n (emits s following rest) less same = ap (glued s) (same following rest less)

-- More rounds than the pattern has characters change nothing.
glob_from-enough :
    (n m : ℕ) (mode : GlobMode) (text : String)
    → text_length text < n
    → text_length text < m
    → glob_from n mode text ≡ glob_from m mode text
unfolding glob_from
glob_from-enough zero m mode text h k = ground arith
glob_from-enough (suc n) zero mode text h k = ground arith
glob_from-enough (suc n) (suc m) mode text h k =
    rounds-same (glob_from n) (glob_from m) (text_length text) (glob_round mode text)
      (glob_round-LeavesLess mode text)
      (λ following rest less. glob_from-enough n m following rest (ground arith) (ground arith))

-- The loops of compileGlob end: with a round more than the pattern has characters they are a round, followed by the loops on what it leaves.
glob_from-recursion :
    (mode : GlobMode) (text : String)
    → glob_from (suc (text_length text)) mode text ≡ elim (glob_round mode text) [
      | finished ↦ some ""
      | out_of_range ↦ none
      | emits s following rest ↦ glued s (glob_from (suc (text_length rest)) following rest)
    ]
unfolding glob_from
glob_from-recursion mode text =
    rounds-same (glob_from (text_length text))
      (λ following rest. glob_from (suc (text_length rest)) following rest) (text_length text)
      (glob_round mode text) (glob_round-LeavesLess mode text)
      (λ following rest less.
        glob_from-enough (text_length text) (suc (text_length rest)) following rest less
          (ground arith))
