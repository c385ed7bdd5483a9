-- ===== src/Identity.antt =====
-- internal/identity/identity.go, ComputeStepID: the identifier of a step from what it does. The
-- canonical form of the arguments is not modelled; their hash comes in as a text.
pub mod Injective
use Prim.Native.Char.{code}
use Prim.Native.String.{◌++◌ as text_append}
use rebuno.Prelude.{List, String, [], if◌then◌else◌, ltb, ℕ, ◌+◌, ◌∷◌}
use rebuno.Domain.Records.{StepKind, Uuid}

-- the bytes of a character in UTF-8
abbrev pub utf8_length : ℕ → ℕ
utf8_length c = if ltb c 128 then 1 else if ltb c 2048 then 2 else if ltb c 65536 then 3 else 4

-- len(text)
unfoldable pub byte_length : String → ℕ
byte_length String.[] = 0
byte_length (String.◌∷◌ c text) = utf8_length (code c) + byte_length text

-- fmt's %d and strconv.Itoa, the text of a UUID, and the hexadecimal SHA-256 of a text
pub record Printing : Type 0 where
  pub decimal : ℕ → String
  pub uuid_text : Uuid → String
  pub digest : String → String

module _ (p : Printing) where
  -- fmt.Fprintf(&b, "%d:%s", len(f), f)
  abbrev pub prefixed : String → String → String
  prefixed f rest = text_append (p.decimal (byte_length f)) (String.◌∷◌ ":" (text_append f rest))

  -- the loop of ComputeStepID over the fields
  unfoldable pub encoded : List String → String
  encoded [] = ""
  encoded (f ∷ fs) = prefixed f (encoded fs)

  abbrev pub step_fields : Uuid → StepKind → String → String → ℕ → List String
  step_fields exec_id kind target args_hash occurrence =
      p.uuid_text exec_id ∷ kind ∷ target ∷ args_hash ∷ p.decimal occurrence ∷ []

  -- ComputeStepID
  unfoldable pub compute_step_id : Uuid → StepKind → String → String → ℕ → String
  unfolding encoded
  compute_step_id exec_id kind target args_hash occurrence =
      p.digest (encoded (step_fields exec_id kind target args_hash occurrence))
