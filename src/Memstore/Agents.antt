-- ===== src/Memstore/Agents.antt =====
-- internal/store/memstore/agents.go
use rebuno.Prelude.{
  List, Option, String, any, if◌then◌else◌, none, some, sort, string_eq, ℕ_eq, ◌==◌,
}
use rebuno.Action.{Action, Result, err, ok, or_raise}
use rebuno.Context.{Context}
use rebuno.Domain.Json.{empty}
use rebuno.Domain.Records.{Agent, AgentMetadata, Execution, conflict, not_found}
use rebuno.Memstore.Store.{Store, step_id_less}
use rebuno.Prelude.Dict.{delete, insert, lookup, values}

abbrev no_metadata : AgentMetadata
no_metadata = record { description = ""; input_schema = empty; output_schema = empty }

-- the fields of an agent that a registration takes from the one it replaces
abbrev pub registered_over : Context → Option Agent → Agent → Agent
registered_over ctx existing agent = record agent {
  registered_at = if agent.registered_at == 0 then ctx.now else agent.registered_at;
  metadata = elim existing [ none ↦ no_metadata | some old ↦ old.metadata ];
  policy_bundle =
      if agent.policy_bundle == ""
      then elim existing [ none ↦ "" | some old ↦ old.policy_bundle ]
      else agent.policy_bundle;
}

-- RegisterAgent
unfoldable pub register_agent : Context → Agent → Action Store (Unit {0})
register_agent ctx agent s = (
  ok tt,
  record s {
    agents = insert agent.id (registered_over ctx (lookup agent.id s.agents) agent) s.agents;
  },
)

-- SetPolicyBundle
unfoldable pub set_policy_bundle : String → String → Action Store (Unit {0})
set_policy_bundle id bundle s = elim (lookup id s.agents) [
  | none ↦ (err not_found, s)
  | some a ↦ (ok tt, record s { agents = insert id (record a { policy_bundle = bundle }) s.agents })
]

-- SetAgentMetadata
unfoldable pub set_agent_metadata : String → AgentMetadata → Action Store (Unit {0})
set_agent_metadata id metadata s = elim (lookup id s.agents) [
  | none ↦ (err not_found, s)
  | some a ↦ (ok tt, record s { agents = insert id (record a { metadata = metadata }) s.agents })
]

-- GetAgent
unfoldable pub get_agent : String → Store → Result Agent
get_agent id s = or_raise not_found (lookup id s.agents)

-- DeleteAgent
unfoldable pub delete_agent : String → Action Store (Unit {0})
delete_agent id s =
    if any (λ (e : Execution). e.agent_id == id) (values s.executions)
    then (err conflict, s)
    else (ok tt, record s { agents = delete id s.agents })

-- ListAgents
unfoldable pub list_agents : Store → List Agent
list_agents s = sort (λ (a b : Agent). step_id_less a.id b.id) (values s.agents)
