-- ===== src/Kernel/Agents.antt =====
-- internal/kernel/agent.go, without the security log. compileSchema is a parameter: it calls a JSON
-- schema library. A bundle is valid if an engine can be made of it.
pub mod Bundles
use rebuno.Prelude.{
  Bool, Option, String, false, if◌then◌else◌, ltb, none, not, some, string_eq, true, ℕ, ℕ_eq, ◌&&◌,
  ◌==◌,
}
use rebuno.Action.{Action, of_result, reads, refuse_if, ◌>>◌}
use rebuno.Auth.{Role, authorize}
use rebuno.Context.{Context}
use rebuno.Domain.Json.{RawMessage, empty, is_null}
use rebuno.Domain.Records.{Agent, AgentMetadata, validation}
use rebuno.Kernel.Env.{Env}
use rebuno.Memstore.Agents.{
  delete_agent, get_agent, register_agent, set_agent_metadata, set_policy_bundle,
}
use rebuno.Memstore.Store.{Store}
use rebuno.Policy.{RuleEngine}

abbrev min_lease_timeout : ℕ
min_lease_timeout = 10000000000

module _ (compile : String → Option RuleEngine) where
  abbrev is_some : Option RuleEngine → Bool
  is_some none = false
  is_some (some engine) = true

  -- validatePolicyBundle refuses the bundle
  abbrev pub bad_bundle : String → Bool
  bad_bundle bundle = not (bundle == "") && not (is_some (compile bundle))

module _ (env : Env) (ctx : Context) (compile : String → Option RuleEngine) where
  -- RegisterAgent
  unfoldable pub client_register_agent : Agent → Action Store (Unit {0})
  client_register_agent agent = do
    of_result (authorize env.access ctx Role.admin agent.id)
    refuse_if (bad_bundle compile agent.policy_bundle) validation
    register_agent ctx (record agent {
      lease_timeout = if ltb agent.lease_timeout min_lease_timeout then 0 else agent.lease_timeout;
    })

  abbrev pub without_null : RawMessage → RawMessage
  without_null schema = if is_null schema then empty else schema

  -- SetAgentMetadata, with the schemas that compileSchema refuses
  unfoldable pub client_set_agent_metadata :
      (RawMessage → Bool) → String → AgentMetadata → Action Store (Unit {0})
  client_set_agent_metadata bad_schema id metadata = do
    of_result (authorize env.access ctx Role.admin id)
    refuse_if (bad_schema (without_null metadata.input_schema)) validation
    refuse_if (bad_schema (without_null metadata.output_schema)) validation
    set_agent_metadata id (record metadata {
      input_schema = without_null metadata.input_schema;
      output_schema = without_null metadata.output_schema;
    })

  -- GetAgent
  unfoldable pub client_get_agent : String → Action Store Agent
  client_get_agent id = do of_result (authorize env.access ctx Role.read id); reads (get_agent id)

  -- DeleteAgent
  unfoldable pub client_delete_agent : String → Action Store (Unit {0})
  client_delete_agent id = do of_result (authorize env.access ctx Role.admin id); delete_agent id

  -- LoadPolicyBundle
  unfoldable pub load_policy_bundle : String → String → Action Store (Unit {0})
  load_policy_bundle id bundle = do
    of_result (authorize env.access ctx Role.admin id)
    refuse_if (bad_bundle compile bundle) validation
    set_policy_bundle id bundle
