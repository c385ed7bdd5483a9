-- ===== src/Kernel/Keys.antt =====
-- internal/kernel/api_key.go, without the security log. The secret is the text of random bytes.
pub mod Issued
use Prim.Native.String.{◌++◌ as text_append}
use rebuno.Prelude.{
  Bool, List, Option, String, [], any, contains, false, if◌then◌else◌, leb, length, ltb, none, not,
  some, sort, string_eq, true, ℕ, ℕ_eq, ◌&&◌, ◌==◌, ◌||◌, ◌∷◌,
}
use rebuno.Action.{Action, Result, err, ok, pure, reads, refuse_if, ◌>>=◌, ◌>>◌}
use rebuno.Auth.{cut_prefix}
use rebuno.Context.{Context}
use rebuno.Domain.Records.{conflict, not_found, unauthorized, validation}
use rebuno.Identity.{byte_length}
use rebuno.Memstore.Keys.{
  ApiKey, KeyStore, create_api_key, get_api_key, revoke_api_key, rotate_api_key,
}
use rebuno.Memstore.Store.{step_id_less}
use rebuno.Policy.Arguments.{cut_at, dot}

-- strings.TrimSpace, uuid.Parse, the text of a UUID, and SHA-256 as a number
pub record KeyServices : Type 0 where
  pub trim_space : String → String
  pub parses_uuid : String → Bool
  pub hash : String → ℕ

-- AllScopes of internal/domain/api_key.go
abbrev known_scopes : List String
known_scopes =
    "executions:read" ∷ "executions:write" ∷ "executions:impersonate" ∷ "approvals:read"
    ∷ "approvals:write" ∷ "approvals:delegate" ∷ "agents:read" ∷ "agents:write" ∷ "policies:write"
    ∷ "api_keys:manage" ∷ []

abbrev pub token_prefix : String
token_prefix = "rbk_"

-- the token of issueAPIKey
abbrev pub issued_token : String → String → String
issued_token id secret = text_append token_prefix (text_append id (String.◌∷◌ "." secret))

-- slices.Compact of a sorted list
unfoldable pub compacted : List String → List String
compacted [] = []
compacted (x ∷ []) = x ∷ []
compacted (x ∷ y ∷ l) = let rest = compacted (y ∷ l) in if x == y then rest else x ∷ rest

abbrev pub not_revoked : ApiKey → Bool
not_revoked k = elim k.revoked_at [ none ↦ true | some at ↦ false ]

module _ (sv : KeyServices) (ctx : Context) where
  abbrev pub new_key : String → String → List String → String → ApiKey
  new_key id name scopes secret = record {
    id = id;
    name = sv.trim_space name;
    secret_hash = sv.hash (issued_token id secret);
    scopes = compacted (sort step_id_less scopes);
    created_at = ctx.now;
    revoked_at = none;
  }

  -- CreateAPIKey, for a new identifier and a new secret
  unfoldable pub client_create_key :
      String → String → String → List String → Action KeyStore (ApiKey × String)
  client_create_key id secret name scopes = do
    refuse_if
        (sv.trim_space name == ""
          || (ltb 200 (byte_length (sv.trim_space name)) || leb (length scopes) 0))
        validation
    refuse_if (any (λ scope. not (contains known_scopes scope)) scopes) validation
    create_api_key (new_key id name scopes secret)
    pure (new_key id name scopes secret, issued_token id secret)

  -- RotateAPIKey, for a new secret
  unfoldable pub client_rotate_key : String → String → Action KeyStore (ApiKey × String)
  client_rotate_key id secret = do
    key ← reads (get_api_key id)
    refuse_if (not (not_revoked key)) conflict
    rotate_api_key id key.secret_hash (sv.hash (issued_token id secret))
    pure (record key { secret_hash = sv.hash (issued_token id secret) }, issued_token id secret)

  -- RevokeAPIKey
  unfoldable pub client_revoke_key : String → Action KeyStore (Unit {0})
  client_revoke_key id = revoke_api_key id ctx.now

abbrev pub unauthorized_unless : Bool → ApiKey → Result ApiKey
unauthorized_unless true key = ok key
unauthorized_unless false key = err unauthorized

module _ (sv : KeyServices) where
  abbrev pub stored_key : String → Result ApiKey → Result ApiKey
  stored_key token (ok key) =
      unauthorized_unless (not_revoked key && sv.hash token == key.secret_hash) key
  stored_key token (err not_found) = err unauthorized
  stored_key token (err e) = err e

  abbrev with_parts : String → Option (String × String) → KeyStore → Result ApiKey
  with_parts token none keys = err unauthorized
  with_parts token (some (id, secret)) keys =
      if not (byte_length secret == 43) || not (sv.parses_uuid id)
      then err unauthorized
      else stored_key token (get_api_key id keys)

  abbrev without_prefix : String → Option String → KeyStore → Result ApiKey
  without_prefix token none keys = err unauthorized
  without_prefix token (some rest) keys = with_parts token (cut_at dot rest) keys

  -- AuthenticateAPIKey
  unfoldable pub authenticate : String → KeyStore → Result ApiKey
  authenticate token keys = without_prefix token (cut_prefix token_prefix token) keys
