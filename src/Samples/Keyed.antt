-- ===== src/Samples/Keyed.antt =====
-- The theorems on creation, cancellation, clean-up, agents, keys and step identifiers.
use Prim.Native.Char.{code}
use text.Mathlib.TextLemmas.{tail-eq_of_cons-eq}
use rebuno.Prelude.{
  Option, String, [], any, ap, contains, false, if◌then◌else◌, insert_sorted, length, none, refl,
  some, sort, string_eq, suc, true, zero, ℕ, ℕ_eq, ◌+◌, ◌==◌, ◌∷◌, ◌≡◌, ◌≢◌,
}
use rebuno.Action.{err, ok, or_raise, pure, reads, refuse_if, ◌>>=◌}
use rebuno.Domain.Json.{empty}
use rebuno.Domain.Records.{Agent, Execution, StepKind, Uuid, unauthorized}
use rebuno.Domain.Status.{ExecutionStatus}
use rebuno.Identity.{Printing, byte_length}
use rebuno.Identity.Injective.{colon, compute_step_id-injective, lacks}
use rebuno.Kernel.Agents.{client_register_agent}
use rebuno.Kernel.Agents.Bundles.{AgentStep-BundlesCompile, BundlesCompile, registers}
use rebuno.Kernel.Closing.Enough.{cancel_execution-ends}
use rebuno.Kernel.Create.{Agents, CreateOptions, client_create}
use rebuno.Kernel.Idempotent.{client_create-idempotent}
use rebuno.Kernel.Keys.{
  KeyServices, authenticate, client_create_key, client_rotate_key, compacted, issued_token, new_key,
}
use rebuno.Kernel.Keys.Issued.{IsIssuable, issued_key_authenticates, rotated_key_authenticates}
use rebuno.Kernel.Terminal.{cancel_execution, cancel_from}
use rebuno.Memstore.Cleaned.{IsRemnant, cleanup-exact}
use rebuno.Memstore.Cleanup.{delete_executions_created_before, is_deletable}
use rebuno.Memstore.Keys.{
  ApiKey, KeyStore, create_api_key, get_api_key, revoke_api_key, revoked_key_stands, revokes_key,
  rotate_api_key, rotates_key, same_keys, then_key,
}
use rebuno.Memstore.Store.{Store, new_store}
use rebuno.Policy.{RuleEngine}
use rebuno.Prelude.Dict.{insert, lookup, values}
use rebuno.Samples.{at_time, sample_env, sample_execution}
use rebuno.Samples.Policies.{sample_engine}

abbrev keyed_execution : Execution
keyed_execution = record (sample_execution 1 "") { idempotency_key = "key" }

abbrev keyed_store : Store
keyed_store = record new_store { executions = (1, keyed_execution) ∷ [] }

abbrev bare_agent : Agent
bare_agent = record {
  id = "agent";
  webhook_url = "";
  secret = "";
  lease_timeout = 0;
  policy_bundle = "";
  registered_at = 1;
  metadata = record { description = ""; input_schema = empty; output_schema = empty };
}

abbrev sample_agents : Agents
sample_agents = record { get_agent = λ id. ok bare_agent; validate_input = λ agent input. ok tt }

abbrev keyed_options : CreateOptions
keyed_options = record {
  session = "";
  parent_execution_id = none;
  idempotency_key = "key";
  spawned_by = none;
  on_behalf_of = "";
}

client_create-idempotent_example :
    ((client_create sample_env (at_time 70) sample_agents "agent" empty keyed_options keyed_store).1
      ≡ keyed_store)
    × ((made : Execution)
        → (client_create sample_env
            (at_time 70)
            sample_agents
            "agent"
            empty
            keyed_options
            keyed_store).0
          ≡ ok made
        → (made.agent_id ≡ "agent") × (made.idempotency_key ≡ "key"))
unfolding lookup
client_create-idempotent_example =
    client_create-idempotent sample_env (at_time 70) sample_agents "agent" empty keyed_options
      keyed_store 1 keyed_execution refl refl refl refl refl

cancel_execution-ends_example :
    cancel_execution sample_env (at_time 70) 1 "stop" keyed_store
    ≡ cancel_from sample_env
        (at_time 70)
        (suc (length (values keyed_store.executions)) + 5)
        1
        "stop"
        keyed_store
cancel_execution-ends_example = cancel_execution-ends sample_env (at_time 70) 1 "stop" keyed_store 5

abbrev old_execution : Execution
old_execution = record keyed_execution { status = ExecutionStatus.completed; created_at = 5 }

abbrev old_store : Store
old_store = record new_store { executions = (1, old_execution) ∷ [] }

cleanup-exact_example :
    (is_deletable 9 old_store old_execution ≡ false
      → (left : Execution) × (lookup 1 (delete_executions_created_before 9 old_store).executions
          ≡ some left)
        × IsRemnant old_execution left)
    × (is_deletable 9 old_store old_execution ≡ true
        → lookup 1 (delete_executions_created_before 9 old_store).executions ≡ none)
unfolding lookup
cleanup-exact_example = cleanup-exact 9 old_store 1 old_execution (refl, refl, tt) refl

abbrev revoked_key : ApiKey
revoked_key = record {
  id = "key";
  name = "name";
  secret_hash = 1;
  scopes = [];
  created_at = 2;
  revoked_at = some 5;
}

abbrev revoked_keys : KeyStore
revoked_keys = ("key", revoked_key) ∷ []

revoked_key_stands_example :
    lookup "key" (revoke_api_key "key" 9 (rotate_api_key "key" 1 2 revoked_keys).1).1
    ≡ some revoked_key
unfolding lookup
revoked_key_stands_example =
    revoked_key_stands "key" revoked_key 5
      (then_key (then_key (same_keys revoked_keys) (rotates_key "key" 1 2 revoked_keys))
        (revokes_key "key" 9 (rotate_api_key "key" 1 2 revoked_keys).1))
      refl refl

-- Numbers as strokes.
abbrev strokes : ℕ → String
strokes zero = ""
strokes (suc n) = String.◌∷◌ "1" (strokes n)

abbrev sample_printing : Printing
sample_printing = record { decimal = strokes; uuid_text = strokes; digest = λ text. text }

strokes-lacks : (n : ℕ) → lacks colon (strokes n) ≡ true
unfolding lacks
strokes-lacks zero = refl
strokes-lacks (suc n) = strokes-lacks n

strokes-injective : (n m : ℕ) → strokes n ≡ strokes m → n ≡ m
strokes-injective zero zero h = refl
strokes-injective zero (suc m) h = absurd (cc)
strokes-injective (suc n) zero h = absurd (cc)
strokes-injective (suc n) (suc m) h = ap suc (strokes-injective n m (tail-eq_of_cons-eq h))

abbrev sample_id : Uuid
sample_id = 7

abbrev tool_call : StepKind
tool_call = "tool_call"

abbrev pay : String
pay = "pay"

abbrev sample_hash : String
sample_hash = "hash"

abbrev third : ℕ
third = 2

compute_step_id-injective_example :
    (sample_id ≡ sample_id)
    × (tool_call ≡ tool_call)
    × (pay ≡ pay)
    × (sample_hash ≡ sample_hash)
    × (third ≡ third)
compute_step_id-injective_example =
    compute_step_id-injective sample_printing sample_id sample_id tool_call tool_call pay pay
      sample_hash sample_hash third third
      (record { digits = strokes-lacks; injective = strokes-injective }) strokes-injective (λ h. h)
      refl

abbrev sum_of_codes : String → ℕ
sum_of_codes String.[] = 0
sum_of_codes (String.◌∷◌ c text) = code c + sum_of_codes text

abbrev sample_key_services : KeyServices
sample_key_services = record {
  trim_space = λ text. text;
  parses_uuid = λ id. true;
  hash = sum_of_codes;
}

abbrev secret_a : String
secret_a = "AAAAAAAAAAAAAAAAAAAAAAAAAAAAAAAAAAAAAAAAAAA"

abbrev secret_b : String
secret_b = "ABAAAAAAAAAAAAAAAAAAAAAAAAAAAAAAAAAAAAAAAAA"

abbrev created_key : ApiKey
created_key = new_key sample_key_services (at_time 70) "id" "name" ("agents:read" ∷ []) secret_a

IsIssuable-a : IsIssuable sample_key_services "id" secret_a
unfolding lacks byte_length
IsIssuable-a = record { dotless = refl; parses = refl; full = refl }

IsIssuable-b : IsIssuable sample_key_services "id" secret_b
unfolding lacks byte_length
IsIssuable-b = record { dotless = refl; parses = refl; full = refl }

key_created :
    client_create_key sample_key_services (at_time 70) "id" secret_a "name" ("agents:read" ∷ []) []
    ≡ (ok (created_key, issued_token "id" secret_a), ("id", created_key) ∷ [])
unfolding client_create_key ◌>>=◌ refuse_if pure create_api_key lookup insert contains any sort
    insert_sorted compacted byte_length
key_created = refl

issued_key_authenticates_example :
    authenticate sample_key_services (issued_token "id" secret_a) (("id", created_key) ∷ [])
    ≡ ok created_key
issued_key_authenticates_example =
    issued_key_authenticates sample_key_services (at_time 70) "id" secret_a "name"
      (issued_token "id" secret_a) ("agents:read" ∷ []) [] (("id", created_key) ∷ []) created_key
      IsIssuable-a key_created

abbrev rotated_key : ApiKey
rotated_key = record created_key { secret_hash = sum_of_codes (issued_token "id" secret_b) }

key_rotated :
    client_rotate_key sample_key_services (at_time 70) "id" secret_b (("id", created_key) ∷ [])
    ≡ (ok (rotated_key, issued_token "id" secret_b), ("id", rotated_key) ∷ [])
unfolding client_rotate_key ◌>>=◌ refuse_if pure reads get_api_key or_raise rotate_api_key lookup
    insert sort insert_sorted compacted
key_rotated = refl

numbers_differ : (a b : ℕ) → (a == b) ≡ false → a ≢ b
numbers_differ a b h p = let e : (a == b) ≡ true = (ℕ_eq.beq_iff a b).1 p in cc

rotated_key_authenticates_example :
    (authenticate sample_key_services (issued_token "id" secret_b) (("id", rotated_key) ∷ [])
      ≡ ok rotated_key)
    × (authenticate sample_key_services (issued_token "id" secret_a) (("id", rotated_key) ∷ [])
        ≡ err unauthorized)
rotated_key_authenticates_example =
    rotated_key_authenticates sample_key_services (at_time 70) "id" secret_b secret_a
      (issued_token "id" secret_b) (("id", created_key) ∷ []) (("id", rotated_key) ∷ []) rotated_key
      IsIssuable-b IsIssuable-a
      (numbers_differ (sum_of_codes (issued_token "id" secret_a))
        (sum_of_codes (issued_token "id" secret_b)) refl)
      key_rotated

abbrev compiles_well : String → Option RuleEngine
compiles_well bundle = if bundle == "broken" then none else some sample_engine

no_agents-BundlesCompile : BundlesCompile compiles_well new_store
unfolding lookup
no_agents-BundlesCompile = record { at = λ id agent p. absurd (cc) }

AgentStep-BundlesCompile_example :
    BundlesCompile compiles_well
      (client_register_agent sample_env (at_time 70) compiles_well bare_agent new_store).1
AgentStep-BundlesCompile_example =
    AgentStep-BundlesCompile compiles_well sample_env (registers (at_time 70) bare_agent new_store)
      no_agents-BundlesCompile
