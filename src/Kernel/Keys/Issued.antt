-- ===== src/Kernel/Keys/Issued.antt =====
-- A token that was issued opens its key, until the key is rotated or revoked.
use Prim.Native.Char.{code}
use Prim.Native.String.{◌++◌ as text_append}
use text.Mathlib.TextLemmas.{cons-append, nil-append}
use rebuno.Prelude.{
  Bool, List, Option-cases, String, arith, false, inl, inr, refl, some, string_eq, subst, sym, true,
  ℕ, ℕ_eq, ◌&&◌, ◌==◌, ◌∙◌, ◌≡◌, ◌≢◌,
}
use rebuno.Action.{err, ok, or_raise, pure}
use rebuno.Action.Laws.{bind_ok_inversion, reads-inversion, refuse_if-inversion}
use rebuno.Auth.{cut_prefix}
use rebuno.Context.{Context}
use rebuno.Domain.Records.{unauthorized}
use rebuno.Identity.{byte_length}
use rebuno.Identity.Injective.{lacks}
use rebuno.Kernel.Keys.{
  KeyServices, authenticate, client_create_key, client_rotate_key, issued_token, new_key,
  not_revoked, stored_key, token_prefix, unauthorized_unless,
}
use rebuno.Memstore.Keys.{ApiKey, KeyStore, create_api_key, get_api_key, rotate_api_key}
use rebuno.Policy.Arguments.{cut_at, dot}
use rebuno.Prelude.Dict.{lookup, lookup-insert_self}

cut_prefix-append : (p t : String) → cut_prefix p (text_append p t) ≡ some t
unfolding cut_prefix
cut_prefix-append String.[] t = rw (nil-append t) refl
cut_prefix-append (String.◌∷◌ c p) t =
    rw (cons-append c p t) (rw ((ℕ_eq.beq_iff (code c) (code c)).1 refl) (cut_prefix-append p t))

cut_at-append :
    (id rest : String)
    → lacks dot id ≡ true
    → cut_at dot (text_append id (String.◌∷◌ "." rest)) ≡ some (id, rest)
unfolding cut_at lacks
cut_at-append String.[] rest h = rw (nil-append (String.◌∷◌ "." rest)) refl
cut_at-append (String.◌∷◌ c id) rest h =
    let later = cut_at-append id rest (ground arith) in
    let other : (code c == dot) ≡ false = ground arith in
    rw (cons-append c id (String.◌∷◌ "." rest)) (rw other (rw later refl))

-- What CreateAPIKey and RotateAPIKey use as an identifier and a secret: the text of a UUID, which has no dot, and 43 characters of base64.
pub record IsIssuable (sv : KeyServices) (id secret : String) : Type 0 where
  pub dotless : lacks dot id ≡ true
  pub parses : sv.parses_uuid id ≡ true
  pub full : byte_length secret ≡ 43

pure-inversion : {A : Type 0} (a b : A) (s t : KeyStore) → pure a s ≡ (ok b, t) → (a ≡ b) × (s ≡ t)
unfolding pure
pure-inversion a b s t h = (cc, cc)

module _ (sv : KeyServices) where
  authenticate_issued :
      (id secret : String) (keys : KeyStore)
      → IsIssuable sv id secret
      → authenticate sv (issued_token id secret) keys
        ≡ stored_key sv (issued_token id secret) (get_api_key id keys)
  unfolding authenticate
  authenticate_issued id secret keys good =
      rw (cut_prefix-append token_prefix (text_append id (String.◌∷◌ "." secret)))
        (rw (cut_at-append id secret good.dotless) (rw good.full (rw good.parses refl)))

  -- A token opens a key that stands under its identifier with its hash and is not revoked.
  opens :
      (id secret : String) (keys : KeyStore) (key : ApiKey)
      → IsIssuable sv id secret
      → get_api_key id keys ≡ ok key
      → key.secret_hash ≡ sv.hash (issued_token id secret)
      → not_revoked key ≡ true
      → authenticate sv (issued_token id secret) keys ≡ ok key
  opens id secret keys key good stored hashed live =
      let same = (ℕ_eq.beq_iff (sv.hash (issued_token id secret)) key.secret_hash).1 (sym hashed) in
      authenticate_issued id secret keys good ∙ rw stored (rw live (rw same refl))

  stays_shut :
      (id secret : String) (keys : KeyStore) (key : ApiKey)
      → IsIssuable sv id secret
      → get_api_key id keys ≡ ok key
      → (sv.hash (issued_token id secret) == key.secret_hash) ≡ false
      → authenticate sv (issued_token id secret) keys ≡ err unauthorized
  stays_shut id secret keys key good stored other =
      authenticate_issued id secret keys good ∙ rw stored (rw other (refused (not_revoked key)))
    where
      refused : (live : Bool) → unauthorized_unless (live && false) key ≡ err unauthorized
      refused true = refl
      refused false = refl

  rotated-lookup :
      (id : String) (old_hash new_hash : ℕ) (key : ApiKey) (keys keys_after : KeyStore)
      → get_api_key id keys ≡ ok key
      → rotate_api_key id old_hash new_hash keys ≡ (ok tt, keys_after)
      → get_api_key id keys_after ≡ ok (record key { secret_hash = new_hash })
  unfolding rotate_api_key get_api_key or_raise
  rotated-lookup id old_hash new_hash key keys keys_after found h =
      let q = lookup-insert_self id (record key { secret_hash = new_hash }) keys in ground arith

  created-lookup :
      (key : ApiKey) (keys keys_after : KeyStore)
      → create_api_key key keys ≡ (ok tt, keys_after)
      → get_api_key key.id keys_after ≡ ok key
  unfolding create_api_key get_api_key or_raise
  created-lookup key keys keys_after h = elim (Option-cases (lookup key.id keys)) [
    | inr (old, taken) ↦ ground arith
    | inl free ↦ let q = lookup-insert_self key.id key keys in ground arith
  ]

  -- The token that CreateAPIKey returns is one that AuthenticateAPIKey accepts in the store it leaves, and the key it answers is the one that was created.
  pub issued_key_authenticates :
      (ctx : Context) (id secret name token : String) (scopes : List String)
      (keys keys_after : KeyStore) (key : ApiKey)
      → IsIssuable sv id secret
      → client_create_key sv ctx id secret name scopes keys ≡ (ok (key, token), keys_after)
      → authenticate sv token keys_after ≡ ok key
  unfolding client_create_key
  issued_key_authenticates ctx id secret name token scopes keys keys_after key good ran =
      let (_, ran1) = refuse_if-inversion keys keys_after (key, token) _ _ _ ran in
      let (_, ran2) = refuse_if-inversion keys keys_after (key, token) _ _ _ ran1 in
      let (_, k1, made, ran3) = bind_ok_inversion _ _ keys (key, token) keys_after ran2 in
      let stored = created-lookup (new_key sv ctx id name scopes secret) keys k1 made in
      let (pair, store) = pure-inversion _ (key, token) k1 keys_after ran3 in
      subst (λ (k : KeyStore). authenticate sv token k ≡ ok key) store
        (subst (λ (p : ApiKey × String). authenticate sv p.1 k1 ≡ ok p.0) pair
          (opens id secret k1 (new_key sv ctx id name scopes secret) good stored refl refl))

  -- If RotateAPIKey succeeds, the token that it returns is accepted for the key, and a token of the key with a secret of another hash is refused.
  pub rotated_key_authenticates :
      (ctx : Context) (id secret old token : String) (keys keys_after : KeyStore) (key : ApiKey)
      → IsIssuable sv id secret
      → IsIssuable sv id old
      → sv.hash (issued_token id old) ≢ sv.hash (issued_token id secret)
      → client_rotate_key sv ctx id secret keys ≡ (ok (key, token), keys_after)
      → (authenticate sv token keys_after ≡ ok key)
        × (authenticate sv (issued_token id old) keys_after ≡ err unauthorized)
  unfolding client_rotate_key
  rotated_key_authenticates ctx id secret old token keys keys_after key good good_old differ ran =
      let (held, found, ran1) =
        reads-inversion keys keys_after (key, token) (get_api_key id) _ ran in
      let (revoked, ran2) = refuse_if-inversion keys keys_after (key, token) _ _ _ ran1 in
      let (_, k1, turned, ran3) = bind_ok_inversion _ _ keys (key, token) keys_after ran2 in
      let new_hash = sv.hash (issued_token id secret) in
      let stored = rotated-lookup id held.secret_hash new_hash held keys k1 found turned in
      let (pair, store) = pure-inversion _ (key, token) k1 keys_after ran3 in
      let rotated = record held { secret_hash = new_hash } in
      let other : (sv.hash (issued_token id old) == new_hash) ≡ false = ground arith in
      subst
        (λ (k : KeyStore).
          (authenticate sv token k ≡ ok key)
          × (authenticate sv (issued_token id old) k ≡ err unauthorized))
        store
        (
          subst (λ (p : ApiKey × String). authenticate sv p.1 k1 ≡ ok p.0) pair
              (opens id secret k1 rotated good stored refl (ground arith)),
          stays_shut id old k1 rotated good_old stored other,
        )
