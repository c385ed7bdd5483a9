-- ===== src/Identity/Injective.antt =====
-- Different steps are hashed from different texts.
use Prim.Native.Char.{Char, code}
use Prim.Native.String.{◌++◌ as text_append}
use text.Mathlib.TextLemmas.{cons-append, head-eq_of_cons-eq, nil-append, tail-eq_of_cons-eq}
use rebuno.Prelude.{
  Bool, List, String, [], ap, arith, length, not, refl, string_eq, suc, sym, true, zero, ℕ, ℕ_eq,
  ◌&&◌, ◌<◌, ◌==◌, ◌∙◌, ◌∷◌, ◌≡◌,
}
use rebuno.Domain.Records.{StepKind, Uuid}
use rebuno.Identity.{Printing, byte_length, compute_step_id, encoded, step_fields, utf8_length}

-- The text has no character of a code.
unfoldable pub lacks : ℕ → String → Bool
lacks sep String.[] = true
lacks sep (String.◌∷◌ c text) = not (code c == sep) && lacks sep text

abbrev pub colon : ℕ
colon = 58

utf8_length-pos : (c : ℕ) → 0 < utf8_length c
utf8_length-pos c = ground arith

cons_inversion : (c d : Char) (x y : String) → String.◌∷◌ c x ≡ String.◌∷◌ d y → (c ≡ d) × (x ≡ y)
cons_inversion c d x y h = (head-eq_of_cons-eq h, tail-eq_of_cons-eq h)

-- A text ends at its first colon.
before_colon :
    (a b x y : String)
    → lacks colon a ≡ true
    → lacks colon b ≡ true
    → text_append a (String.◌∷◌ ":" x) ≡ text_append b (String.◌∷◌ ":" y)
    → (a ≡ b) × (x ≡ y)
unfolding lacks
before_colon String.[] String.[] x y h k q =
    (refl, tail-eq_of_cons-eq (sym (nil-append _) ∙ q ∙ nil-append _))
before_colon String.[] (String.◌∷◌ d b) x y h k q =
    let same : colon ≡ code d =
      ap code (head-eq_of_cons-eq (sym (nil-append _) ∙ q ∙ cons-append d b _)) in
    absurd (ground arith)
before_colon (String.◌∷◌ c a) String.[] x y h k q =
    let same : code c ≡ colon =
      ap code (head-eq_of_cons-eq (sym (cons-append c a _) ∙ q ∙ nil-append _)) in
    absurd (ground arith)
before_colon (String.◌∷◌ c a) (String.◌∷◌ d b) x y h k q =
    let (heads, tails) = cons_inversion c d _ _ (sym (cons-append c a _) ∙ q ∙ cons-append d b _) in
    let (same, rest) = before_colon a b x y (ground arith) (ground arith) tails in
    (ap (λ (t : String). String.◌∷◌ c t) same ∙ ap (λ (e : Char). String.◌∷◌ e b) heads, rest)

-- Prefixes with the same number of bytes are the same.
same_prefix :
    (a b x y : String)
    → byte_length a ≡ byte_length b
    → text_append a x ≡ text_append b y
    → (a ≡ b) × (x ≡ y)
unfolding byte_length
same_prefix String.[] String.[] x y h q = (refl, sym (nil-append x) ∙ q ∙ nil-append y)
same_prefix String.[] (String.◌∷◌ d b) x y h q = absurd (ground (arith, utf8_length-pos (code d)))
same_prefix (String.◌∷◌ c a) String.[] x y h q = absurd (ground (arith, utf8_length-pos (code c)))
same_prefix (String.◌∷◌ c a) (String.◌∷◌ d b) x y h q =
    let (heads, tails) = cons_inversion c d _ _ (sym (cons-append c a x) ∙ q ∙ cons-append d b y) in
    let lengths : utf8_length (code c) ≡ utf8_length (code d) =
      ap (λ (e : Char). utf8_length (code e)) heads in
    let (same, rest) = same_prefix a b x y (ground arith) tails in
    (ap (λ (t : String). String.◌∷◌ c t) same ∙ ap (λ (e : Char). String.◌∷◌ e b) heads, rest)

module _ (p : Printing) where
  -- What fmt and strconv say of a number: digits alone, and different for different numbers.
  pub record IsDecimal : Type 0 where
    pub digits : (n : ℕ) → lacks colon (p.decimal n) ≡ true
    pub injective : (n m : ℕ) → p.decimal n ≡ p.decimal m → n ≡ m

  encoded-injective :
      (fs gs : List String)
      → IsDecimal
      → length fs ≡ length gs
      → encoded p fs ≡ encoded p gs
      → fs ≡ gs
  unfolding encoded
  encoded-injective [] [] decimal n q = refl
  encoded-injective [] (g ∷ gs) decimal n q = absurd (omega (arith, n))
  encoded-injective (f ∷ fs) [] decimal n q = absurd (omega (arith, n))
  encoded-injective (f ∷ fs) (g ∷ gs) decimal n q =
      let (numbers, texts) =
        before_colon (p.decimal (byte_length f)) (p.decimal (byte_length g))
          (text_append f (encoded p fs)) (text_append g (encoded p gs))
          (decimal.digits (byte_length f)) (decimal.digits (byte_length g)) q in
      let (same, rest) =
        same_prefix f g (encoded p fs) (encoded p gs) (decimal.injective _ _ numbers) texts in
      let more = encoded-injective fs gs decimal (omega (arith, n)) rest in
      ap (λ (l : List String). f ∷ l) more ∙ ap (λ (h : String). h ∷ gs) same

  -- If %d prints numbers in digits, different numbers differently, different identifiers have different texts, and the two texts that ComputeStepID digests for two steps do not collide, then it gives the steps the same identifier only if they have the same execution, kind, target, hash of the arguments and occurrence: the lengths before the fields keep one field from running into the next.
  pub compute_step_id-injective :
      (exec1 exec2 : Uuid) (kind1 kind2 : StepKind) (target1 target2 hash1 hash2 : String)
      (occurrence1 occurrence2 : ℕ)
      → IsDecimal
      → ((a b : Uuid) → p.uuid_text a ≡ p.uuid_text b → a ≡ b)
      → (p.digest (encoded p (step_fields p exec1 kind1 target1 hash1 occurrence1))
            ≡ p.digest (encoded p (step_fields p exec2 kind2 target2 hash2 occurrence2))
          → encoded p (step_fields p exec1 kind1 target1 hash1 occurrence1)
            ≡ encoded p (step_fields p exec2 kind2 target2 hash2 occurrence2))
      → compute_step_id p exec1 kind1 target1 hash1 occurrence1
        ≡ compute_step_id p exec2 kind2 target2 hash2 occurrence2
      → (exec1 ≡ exec2)
        × (kind1 ≡ kind2)
        × (target1 ≡ target2)
        × (hash1 ≡ hash2)
        × (occurrence1 ≡ occurrence2)
  unfolding compute_step_id
  compute_step_id-injective exec1 exec2 kind1 kind2 target1 target2 hash1 hash2 occurrence1
        occurrence2 decimal texts apart q =
      let same =
        encoded-injective (step_fields p exec1 kind1 target1 hash1 occurrence1)
          (step_fields p exec2 kind2 target2 hash2 occurrence2) decimal refl (apart q) in
      (
        texts exec1 exec2 (ap (at 0) same),
        ap (at 1) same,
        ap (at 2) same,
        ap (at 3) same,
        decimal.injective occurrence1 occurrence2 (ap (at 4) same),
      )
    where
      at : ℕ → List String → String
      at n [] = ""
      at zero (f ∷ fs) = f
      at (suc n) (f ∷ fs) = at n fs
