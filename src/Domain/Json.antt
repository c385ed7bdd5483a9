-- ===== src/Domain/Json.antt =====
-- JSON as encoding/json reads and writes it. A json.RawMessage is no bytes at all, bytes that do
-- not parse, or the value that the bytes denote. The text of a UUID is a value of its own.
use rebuno.Prelude.{
  Bool, List, Option, String, [], false, if◌then◌else◌, none, some, string_eq, true, ℕ, ℕ_eq, ◌==◌,
  ◌∷◌,
}

mutual
  pub data Json : Type 0 where
    null : Json
    bool : Bool → Json
    num : ℕ → Json
    str : String → Json
    uuid : ℕ → Json
    arr : Items → Json
    obj : Fields → Json

  pub data Items : Type 0 where
    nil : Items
    cons : Json → Items → Items

  pub data Fields : Type 0 where
    end : Fields
    field : String → Json → Fields → Fields

pub data RawMessage : Type 0 where
  empty malformed : RawMessage
  json : Json → RawMessage

-- len(raw) > 0
abbrev pub is_empty : RawMessage → Bool
is_empty empty = true
is_empty _ = false

-- string(raw) == "null"
abbrev pub is_null : RawMessage → Bool
is_null (json null) = true
is_null _ = false

-- m[key] = value under a condition
abbrev pub field_if : Bool → String → Json → Fields → Fields
field_if true k v rest = field k v rest
field_if false k v rest = rest

abbrev pub is_malformed : RawMessage → Bool
is_malformed malformed = true
is_malformed _ = false

-- A map that holds a json.RawMessage: json.Marshal of it fails where the message does not parse.
abbrev pub marshalled : RawMessage → Fields → RawMessage
marshalled malformed fields = malformed
marshalled _ fields = json (obj fields)

-- json.RawMessage(err) as a member of a payload that marshals
abbrev pub embedded : RawMessage → Json
embedded (json v) = v
embedded _ = null

unfoldable pub member : String → Fields → Json
member k end = null
member k (field j v rest) = if j == k then v else member k rest

-- json.Unmarshal into a []string: none for an error
unfoldable pub string_items : Items → Option (List String)
string_items nil = some []
string_items (cons (str s) rest) = elim (string_items rest) [
  | none ↦ none
  | some ss ↦ some (s ∷ ss)
]
string_items (cons null rest) = elim (string_items rest) [ none ↦ none | some ss ↦ some ("" ∷ ss) ]
string_items (cons _ rest) = none

unfoldable pub unmarshal_strings : RawMessage → Option (List String)
unfolding string_items
unmarshal_strings (json (arr items)) = string_items items
unmarshal_strings (json null) = some []
unmarshal_strings _ = none

-- json.Marshal of a []string
unfoldable pub marshal_strings : List String → Items
marshal_strings [] = nil
marshal_strings (s ∷ ss) = cons (str s) (marshal_strings ss)
