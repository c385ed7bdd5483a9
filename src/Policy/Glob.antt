-- ===== src/Policy/Glob.antt =====
-- internal/policy/engine.go, compileGlob: the regular expression of a pattern of path.Match.
mod Rounds
use Prim.Native.Char.{Char, code}
use Prim.Native.String.{◌++◌ as text_append}
use rebuno.Prelude.{
  Bool, Option, String, false, if◌then◌else◌, leb, ltb, none, not, some, string_eq, suc, true, zero,
  ℕ, ℕ_eq, ◌&&◌, ◌==◌, ◌||◌,
}
use rebuno.Policy.Arguments.{text_length}

-- Where the loops of compileGlob stand: outside a class, or in one, with what `first` is.
pub data GlobMode : Type 0 where
  outside : GlobMode
  in_class : Bool → GlobMode

-- One round of a loop: the end of the pattern, a read past its end, or what is written, and where
-- the next round starts.
pub data GlobRound : Type 0 where
  finished out_of_range : GlobRound
  emits : String → GlobMode → String → GlobRound

abbrev within_range : ℕ → ℕ → ℕ → Bool
within_range low high c = leb low c && leb c high

-- r < utf8.RuneSelf && !unicode.IsLetter(r) && !unicode.IsDigit(r)
abbrev pub is_ascii_punctuation : ℕ → Bool
is_ascii_punctuation c =
    ltb c 128 && not (within_range 48 57 c || (within_range 65 90 c || within_range 97 122 c))

abbrev escaped : Char → String
escaped c =
    if is_ascii_punctuation (code c) then String.◌∷◌ "\\" (String.◌∷◌ c "") else String.◌∷◌ c ""

-- next: the literal at an index, and the pattern after it
abbrev pub next_literal : String → Option (String × String)
next_literal String.[] = none
next_literal (String.◌∷◌ c String.[]) =
    if code c == 92 then some ("�", "") else some (escaped c, "")
next_literal (String.◌∷◌ c (String.◌∷◌ d rest)) =
    if code c == 92 then some (escaped d, rest) else some (escaped c, String.◌∷◌ d rest)

abbrev pub emits_literal : String → GlobMode → Option (String × String) → GlobRound
emits_literal before mode none = out_of_range
emits_literal before mode (some (lit, rest)) = emits (text_append before lit) mode rest

-- the rest of a round in a class, after its first literal: perhaps a range
abbrev pub range_or_literal : String → String → GlobRound
range_or_literal lit String.[] = out_of_range
range_or_literal lit (String.◌∷◌ c rest) =
    if code c == 45
    then emits_literal (text_append lit "-") (in_class false) (next_literal rest)
    else emits lit (in_class false) (String.◌∷◌ c rest)

abbrev pub class_literal : Option (String × String) → GlobRound
class_literal none = out_of_range
class_literal (some (lit, rest)) = range_or_literal lit rest

abbrev pub class_start : String → GlobRound
class_start String.[] = out_of_range
class_start (String.◌∷◌ c rest) =
    if code c == 94
    then emits "[^" (in_class true) rest
    else emits "[" (in_class true) (String.◌∷◌ c rest)

unfoldable pub glob_round : GlobMode → String → GlobRound
glob_round outside String.[] = finished
glob_round outside (String.◌∷◌ c rest) =
    if code c == 42
    then emits ".*" outside rest
    else if code c == 63
    then emits "." outside rest
    else if code c == 91
    then class_start rest
    else emits_literal "" outside (next_literal (String.◌∷◌ c rest))
glob_round (in_class first) String.[] = out_of_range
glob_round (in_class first) (String.◌∷◌ c rest) =
    if not first && code c == 93
    then emits "]" outside rest
    else class_literal (next_literal (String.◌∷◌ c rest))

abbrev pub glued : String → Option String → Option String
glued s none = none
glued s (some rest) = some (text_append s rest)

-- The loops of compileGlob; none for a read past the end.
unfoldable pub glob_from : ℕ → GlobMode → String → Option String
glob_from zero mode pattern = none
glob_from (suc fuel) mode pattern = elim (glob_round mode pattern) [
  | finished ↦ some ""
  | out_of_range ↦ none
  | emits s following rest ↦ glued s (glob_from fuel following rest)
]

unfoldable pub glob_text : String → Option String
glob_text pattern = elim (glob_from (suc (text_length pattern)) outside pattern) [
  | none ↦ none
  | some body ↦ some (text_append "(?s)^" (text_append body "$"))
]
