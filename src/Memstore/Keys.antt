-- ===== src/Memstore/Keys.antt =====
-- internal/store/memstore/api_keys.go. The map of the keys is a state of its own; a secret's hash is
-- the number that its bytes spell.
use rebuno.Prelude.{
  Bool, List, Option, Option-cases, String, arith, false, if◌then◌else◌, inl, inr, none, not, some,
  sort, string_eq, true, ℕ, ℕ_eq, ◌==◌, ◌||◌, ◌≡◌,
}
use rebuno.Action.{Action, Result, err, ok, or_raise}
use rebuno.Domain.Records.{Time, conflict, not_found}
use rebuno.Memstore.Store.{step_id_less}
use rebuno.Prelude.Dict.{Dict, insert, lookup, lookup-insert, values}

pub record ApiKey : Type 0 where
  pub id : String
  pub name : String
  pub secret_hash : ℕ
  pub scopes : List String
  pub created_at : Time
  pub revoked_at : Option Time

abbrev pub KeyStore : Type 0
KeyStore = Dict String ApiKey

-- CreateAPIKey
unfoldable pub create_api_key : ApiKey → Action KeyStore (Unit {0})
create_api_key key keys = elim (lookup key.id keys) [
  | some _ ↦ (err conflict, keys)
  | none ↦ (ok tt, insert key.id key keys)
]

-- GetAPIKey
unfoldable pub get_api_key : String → KeyStore → Result ApiKey
get_api_key id keys = or_raise not_found (lookup id keys)

-- ListAPIKeys
unfoldable pub list_api_keys : KeyStore → List ApiKey
list_api_keys keys = sort (λ (a b : ApiKey). step_id_less a.id b.id) (values keys)

abbrev is_revoked : ApiKey → Bool
is_revoked k = elim k.revoked_at [ none ↦ false | some at ↦ true ]

-- RotateAPIKey
unfoldable pub rotate_api_key : String → ℕ → ℕ → Action KeyStore (Unit {0})
rotate_api_key id old_hash new_hash keys = elim (lookup id keys) [
  | none ↦ (err not_found, keys)
  | some k ↦
      if is_revoked k || not (k.secret_hash == old_hash)
      then (err conflict, keys)
      else (ok tt, insert id (record k { secret_hash = new_hash }) keys)
]

-- RevokeAPIKey
unfoldable pub revoke_api_key : String → Time → Action KeyStore (Unit {0})
revoke_api_key id at keys = elim (lookup id keys) [
  | none ↦ (err not_found, keys)
  | some k ↦
      if is_revoked k
      then (ok tt, keys)
      else (ok tt, insert id (record k { revoked_at = some at }) keys)
]

-- A call that changes the keys.
pub data KeyStep : KeyStore → KeyStore → Type 0 where
  creates_key : (key : ApiKey) (keys : KeyStore) → KeyStep keys (create_api_key key keys).1
  rotates_key :
      (id : String) (old_hash new_hash : ℕ) (keys : KeyStore)
      → KeyStep keys (rotate_api_key id old_hash new_hash keys).1
  revokes_key :
      (id : String) (at : Time) (keys : KeyStore) → KeyStep keys (revoke_api_key id at keys).1

pub data KeyReach : KeyStore → KeyStore → Type 0 where
  same_keys : (keys : KeyStore) → KeyReach keys keys
  then_key : {k l m : KeyStore} → KeyReach k l → KeyStep l m → KeyReach k m

step-revoked :
    (id : String) (key : ApiKey) (t : Time) {k l : KeyStore}
    → KeyStep k l
    → key.revoked_at ≡ some t
    → lookup id k ≡ some key
    → lookup id l ≡ some key
unfolding create_api_key rotate_api_key revoke_api_key
step-revoked id key t (creates_key new keys) r h = elim (Option-cases (lookup new.id keys)) [
  | inl free ↦
      let q = lookup-insert new.id id new keys in ground (arith, string_eq.beq_iff new.id id)
  | inr (old, taken) ↦ ground arith
]
step-revoked id key t (rotates_key other old_hash new_hash keys) r h =
    elim (Option-cases (lookup other keys)) [
      | inl missing ↦ ground arith
      | inr (k, found) ↦
          let q = lookup-insert other id (record k { secret_hash = new_hash }) keys in
          ground (arith, string_eq.beq_iff other id)
    ]
step-revoked id key t (revokes_key other at keys) r h = elim (Option-cases (lookup other keys)) [
  | inl missing ↦ ground arith
  | inr (k, found) ↦
      let q = lookup-insert other id (record k { revoked_at = some at }) keys in
      ground (arith, string_eq.beq_iff other id)
]

-- A revoked key stands: whatever calls follow, its secret is not rotated and its revocation keeps its time, and no key of the same identifier is created.
pub revoked_key_stands :
    (id : String) (key : ApiKey) (t : Time) {before after : KeyStore}
    → KeyReach before after
    → key.revoked_at ≡ some t
    → lookup id before ≡ some key
    → lookup id after ≡ some key
revoked_key_stands id key t (same_keys keys) r h = h
revoked_key_stands id key t (then_key reach step) r h =
    step-revoked id key t step r (revoked_key_stands id key t reach r h)
