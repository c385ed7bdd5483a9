-- ===== src/Auth.antt =====
-- internal/auth/access.go and internal/auth/principal.go: who may do what to which agent.
pub mod Roles
use Prim.Native.Char.{code}
use Prim.Native.String.{◌++◌ as text_append}
use rebuno.Prelude.{
  Bool, List, Option, String, [], any, contains, false, if◌then◌else◌, none, not, some, string_eq,
  true, ℕ_eq, ◌&&◌, ◌==◌, ◌||◌,
}
use rebuno.Action.{Result, err, ok}
use rebuno.Context.{Context, Principal}
use rebuno.Domain.Records.{forbidden, unauthorized}
use rebuno.Prelude.Dict.{Dict, lookup}

pub data Role : Type 0 where
  read write approve admin : Role

abbrev pub all_agents : String
all_agents = "*"

-- An Access that is nil grants every client every role.
abbrev pub Access : Type 0
Access = Option (Dict String (List (Role × List String)))

abbrev pub same_role : Role → Role → Bool
same_role read read = true
same_role write write = true
same_role approve approve = true
same_role admin admin = true
same_role _ _ = false

unfoldable pub grants : Role → Role → Bool
grants have need = same_role have need || same_role have admin || same_role need read

-- strings.CutPrefix
unfoldable pub cut_prefix : String → String → Option String
cut_prefix String.[] t = some t
cut_prefix (String.◌∷◌ c p) String.[] = none
cut_prefix (String.◌∷◌ c p) (String.◌∷◌ d t) = if code c == code d then cut_prefix p t else none

-- strings.Cut(entry, ":")
unfoldable pub cut_colon : String → String × Option String
cut_colon String.[] = ("", none)
cut_colon (String.◌∷◌ c entry) =
    let (kind, name) = cut_colon entry in
    if code c == 58 then ("", some entry) else (String.◌∷◌ c kind, name)

-- ValidPrincipal
unfoldable pub valid_principal : String → Bool
valid_principal entry =
    let (kind, name) = cut_colon entry in
    elim name [
      | none ↦ false
      | some n ↦ not (n == "") && (kind == "user" || (kind == "service" || kind == "group"))
    ]

abbrev entry_matches : String → List String → String → Bool
entry_matches id groups e =
    e == id || elim (cut_prefix "group:" e) [ none ↦ false | some g ↦ contains groups g ]

-- MatchPrincipal
unfoldable pub match_principal : List String → String → List String → Bool
match_principal entries id groups = any (entry_matches id groups) entries

-- principal.identity
unfoldable pub identity : Principal → String
identity p =
    if p.admin
    then "admin"
    else if not (p.user == "")
    then text_append "user:" p.user
    else if p.client
    then text_append "service:" p.key_id
    else if not (p.agent_id == "")
    then text_append "agent:" p.agent_id
    else ""

-- Identity
unfoldable pub caller_identity : Context → String
caller_identity ctx = elim ctx.principal [ none ↦ "" | some p ↦ identity p ]

-- HasScope
unfoldable pub has_scope : Context → String → Bool
has_scope ctx scope = elim ctx.principal [
  | none ↦ false
  | some p ↦ p.admin || (p.client && contains p.scopes scope)
]

-- principal.matches
unfoldable pub principal_matches : Principal → List String → Bool
principal_matches p entries = match_principal entries (identity p) p.groups

-- Matches
unfoldable pub caller_matches : Context → List String → Bool
caller_matches ctx entries = elim ctx.principal [
  | none ↦ false
  | some p ↦ principal_matches p entries
]

abbrev pub roles_of : Dict String (List (Role × List String)) → String → List (Role × List String)
roles_of a key = elim (lookup key a) [ none ↦ [] | some roles ↦ roles ]

abbrev pub role_allows : Principal → Role → Role × List String → Bool
role_allows p need (role, entries) = grants role need && principal_matches p entries

-- Access.allows
unfoldable pub allows : Dict String (List (Role × List String)) → Principal → Role → String → Bool
allows a p need agent_id =
    any (role_allows p need) (roles_of a all_agents)
    || any (role_allows p need) (roles_of a agent_id)

abbrev pub client_allowed : Access → Principal → Role → String → Bool
client_allowed none p need agent_id = true
client_allowed (some a) p need agent_id = allows a p need agent_id

abbrev pub granted_if : Bool → Result (Unit {0})
granted_if true = ok tt
granted_if false = err forbidden

abbrev pub principal_authorized : Access → Principal → Role → String → Bool
principal_authorized access p need agent_id =
    if p.admin
    then true
    else if not (p.agent_id == "")
    then p.agent_id == agent_id
    else p.client && client_allowed access p need agent_id

-- Access.Authorize
unfoldable pub authorize : Access → Context → Role → String → Result (Unit {0})
authorize access ctx need agent_id = elim ctx.principal [
  | none ↦ err unauthorized
  | some p ↦ granted_if (principal_authorized access p need agent_id)
]
