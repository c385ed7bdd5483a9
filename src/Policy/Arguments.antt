-- ===== src/Policy/Arguments.antt =====
-- internal/policy/engine.go: predicates on the arguments of a step.
use Prim.Native.Char.{Char, code}
use rebuno.Prelude.{
  Bool, Option, String, [], contains, false, if◌then◌else◌, length, ltb, none, not, some, string_eq,
  suc, true, zero, ℕ, ℕ_eq, ◌&&◌, ◌==◌, ◌∷◌,
}
use rebuno.Domain.Json.{Fields, Json, RawMessage, end, field, json, null, obj, str, uuid}
use rebuno.Domain.Policy.{Float}
use rebuno.Kernel.Approval.{current}
use rebuno.Policy.{ArgPredicate, GoLibrary}
use rebuno.Policy.Cache.{others}
use rebuno.Prelude.Dict.{Dict}

-- json.Unmarshal into a map[string]json.RawMessage: none for an error, and the nil map for null
abbrev pub unmarshal_object : RawMessage → Option Fields
unmarshal_object (json (obj fields)) = some fields
unmarshal_object (json null) = some end
unmarshal_object _ = none

-- v, ok := obj[key] of the map that the object denotes: the last member of a name counts
unfoldable pub find_member : Fields → (key : String) → Option Json
find_member end key = none
find_member (field name value others) key = elim (find_member others key) [
  | some v ↦ some v
  | none ↦ if name == key then some value else none
]

abbrev in_head : Option (String × String) → Char → Option (String × String)
in_head none c = none
in_head (some (head, tail)) c = some (String.◌∷◌ c head, tail)

-- strings.Cut(key, sep) for a separator of one character
unfoldable pub cut_at : ℕ → String → Option (String × String)
cut_at sep String.[] = none
cut_at sep (String.◌∷◌ c key) = if code c == sep then some ("", key) else in_head (cut_at sep key) c

abbrev pub dot : ℕ
dot = 46

unfoldable pub text_length : String → ℕ
text_length String.[] = 0
text_length (String.◌∷◌ c text) = suc (text_length text)

-- the nested object of a dotted path
abbrev pub nested_object : Fields → String → Option Fields
nested_object fields head = elim (find_member fields head) [
  | none ↦ none
  | some v ↦ unmarshal_object (json v)
]

-- One call of lookupArgument, with what it calls itself.
abbrev pub in_object : (Fields → String → Option Json) → Option Fields → String → Option Json
in_object again none rest = none
in_object again (some inner) rest = again inner rest

abbrev pub after_cut :
    (Fields → String → Option Json) → Fields → Option (String × String) → Option Json
after_cut again fields none = none
after_cut again fields (some (head, rest)) = in_object again (nested_object fields head) rest

abbrev pub or_nested : (Fields → String → Option Json) → Fields → String → Option Json → Option Json
or_nested again fields key (some v) = some v
or_nested again fields key none = after_cut again fields (cut_at dot key)

unfoldable pub lookup_within : ℕ → Fields → String → Option Json
lookup_within zero fields key = none
lookup_within (suc fuel) fields key =
    or_nested (lookup_within fuel) fields key (find_member fields key)

-- lookupArgument, which calls itself on a shorter key
unfoldable pub lookup_argument : Fields → String → Option Json
lookup_argument fields key = lookup_within (suc (text_length key)) fields key

module _ (lib : GoLibrary) where
  -- argString
  abbrev pub arg_string : Json → String
  arg_string (str s) = s
  arg_string (uuid u) = lib.uuid_text u
  arg_string v = lib.compact v

  -- the argument that equals_arg names is there and has the same text
  abbrev pub equals_current : RawMessage → String → String → Bool
  equals_current current key s = elim (unmarshal_object current) [
    | none ↦ false
    | some cur ↦ elim (lookup_argument cur key) [ none ↦ false | some cv ↦ arg_string cv == s ]
  ]

  abbrev pub rx_matches : Option String → String → Bool
  rx_matches none s = false
  rx_matches (some rx) s = lib.regexp_matches rx s

  -- one round of the loop of matchArguments, once the argument is found
  abbrev pub predicate_holds : ArgPredicate → String → RawMessage → Bool
  predicate_holds p s current =
      if not (p.equals == "") && not (p.equals == s)
      then false
      else if not (p.equals_arg == "") && not (equals_current current p.equals_arg s)
      then false
      else if not (p.includes == "") && not (lib.text_contains s p.includes)
      then false
      else if ltb 0 (length p.one_of) && not (contains p.one_of s)
      then false
      else not (not (p.regex == "") && not (rx_matches p.rx s))

  abbrev pub argument_matches : Fields → RawMessage → String × ArgPredicate → Bool
  argument_matches fields current (key, p) = elim (lookup_argument fields key) [
    | none ↦ false
    | some v ↦ predicate_holds p (arg_string v) current
  ]

  abbrev pub all_match : Fields → RawMessage → Dict String ArgPredicate → Bool
  all_match fields current [] = true
  all_match fields current (p ∷ ps) =
      if argument_matches fields current p then all_match fields current ps else false

  -- matchArguments
  unfoldable pub match_arguments : Dict String ArgPredicate → RawMessage → RawMessage → Bool
  match_arguments predicates args current = elim (unmarshal_object args) [
    | none ↦ false
    | some fields ↦ all_match fields current predicates
  ]

  -- numericArgument
  unfoldable pub numeric_argument : RawMessage → String → Option Float
  numeric_argument args key = elim (unmarshal_object args) [
    | none ↦ none
    | some fields ↦ elim (lookup_argument fields key) [
      | none ↦ none
      | some v ↦ lib.parse_float (arg_string v)
    ]
  ]
