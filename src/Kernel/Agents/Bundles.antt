-- ===== src/Kernel/Agents/Bundles.antt =====
-- The policies that the agents have are policies.
use rebuno.Prelude.{
  Bool, Bool-cases, Option, Option-cases, String, any, arith, false, inl, inr, none, refl, some,
  string_eq, subst, sym, ℕ_eq, ◌==◌, ◌∙◌, ◌≡◌,
}
use rebuno.Action.{of_result, refuse_if, ◌>>=◌}
use rebuno.Action.Laws.{Result-cases}
use rebuno.Auth.{Role, authorize}
use rebuno.Context.{Context}
use rebuno.Domain.Json.{RawMessage}
use rebuno.Domain.Records.{Agent, AgentMetadata, Execution}
use rebuno.Kernel.Agents.{
  bad_bundle, client_delete_agent, client_register_agent, client_set_agent_metadata,
  load_policy_bundle, without_null,
}
use rebuno.Kernel.Env.{Env}
use rebuno.Memstore.Agents.{
  delete_agent, register_agent, registered_over, set_agent_metadata, set_policy_bundle,
}
use rebuno.Memstore.Store.{Store}
use rebuno.Policy.{RuleEngine}
use rebuno.Prelude.Dict.{delete, insert, lookup, lookup-delete, lookup-insert, values}

module _ (compile : String → Option RuleEngine) where
  -- The bundle of every agent compiles, where it has one.
  pub record BundlesCompile (s : Store) : Type 0 where
    pub at :
        (id : String) (agent : Agent)
        → lookup id s.agents ≡ some agent
        → bad_bundle compile agent.policy_bundle ≡ false

  stored-BundlesCompile :
      (id : String) (agent : Agent) (s : Store)
      → BundlesCompile s
      → bad_bundle compile agent.policy_bundle ≡ false
      → BundlesCompile (record s { agents = insert id agent s.agents })
  stored-BundlesCompile id agent s inv good = record {
    at = λ other found p. elim (Bool-cases (id == other)) [
      | inl same ↦
          let q : some agent ≡ some found =
            sym (lookup-insert id other agent s.agents ∙ rw same refl) ∙ p in
          let one : agent ≡ found = cc in
          subst (λ (a : Agent). bad_bundle compile a.policy_bundle ≡ false) one good
      | inr different ↦
          inv.at other found (sym (lookup-insert id other agent s.agents ∙ rw different refl) ∙ p)
    ];
  }

  unchanged-BundlesCompile :
      (s t : Store) → t.agents ≡ s.agents → BundlesCompile s → BundlesCompile t
  unchanged-BundlesCompile s t q inv = record { at = λ id agent p. inv.at id agent (rw (← q) p) }

  deleted-BundlesCompile :
      (id : String) (s : Store)
      → BundlesCompile s
      → BundlesCompile (record s { agents = delete id s.agents })
  deleted-BundlesCompile id s inv = record {
    at = λ other agent p.
        let q = lookup-delete id other s.agents in inv.at other agent (ground arith);
  }

  -- The operations of the store on agents.
  register-BundlesCompile :
      (ctx : Context) (agent : Agent) (s : Store)
      → bad_bundle compile agent.policy_bundle ≡ false
      → BundlesCompile s
      → BundlesCompile (register_agent ctx agent s).1
  unfolding register_agent
  register-BundlesCompile ctx agent s good inv =
      stored-BundlesCompile agent.id (registered_over ctx (lookup agent.id s.agents) agent) s inv
        (kept (lookup agent.id s.agents) refl)
    where
      kept :
          (old : Option Agent)
          → lookup agent.id s.agents ≡ old
          → bad_bundle compile (registered_over ctx old agent).policy_bundle ≡ false
      kept none q = elim (Bool-cases (agent.policy_bundle == "")) [
        | inl unset ↦ rw unset refl
        | inr set ↦ rw set good
      ]
      kept (some old) q = elim (Bool-cases (agent.policy_bundle == "")) [
        | inl unset ↦ rw unset (inv.at agent.id old q)
        | inr set ↦ rw set good
      ]

  set_bundle-BundlesCompile :
      (id bundle : String) (s : Store)
      → bad_bundle compile bundle ≡ false
      → BundlesCompile s
      → BundlesCompile (set_policy_bundle id bundle s).1
  unfolding set_policy_bundle
  set_bundle-BundlesCompile id bundle s good inv = elim (Option-cases (lookup id s.agents)) [
    | inl missing ↦ rw (set_policy_bundle, missing) inv
    | inr (a, found) ↦
        rw (set_policy_bundle, found)
          (stored-BundlesCompile id (record a { policy_bundle = bundle }) s inv good)
  ]

  set_metadata-BundlesCompile :
      (id : String) (metadata : AgentMetadata) (s : Store)
      → BundlesCompile s
      → BundlesCompile (set_agent_metadata id metadata s).1
  unfolding set_agent_metadata
  set_metadata-BundlesCompile id metadata s inv = elim (Option-cases (lookup id s.agents)) [
    | inl missing ↦ rw (set_agent_metadata, missing) inv
    | inr (a, found) ↦
        rw (set_agent_metadata, found)
          (stored-BundlesCompile id (record a { metadata = metadata }) s inv (inv.at id a found))
  ]

  delete-BundlesCompile :
      (id : String) (s : Store) → BundlesCompile s → BundlesCompile (delete_agent id s).1
  unfolding delete_agent
  delete-BundlesCompile id s inv =
      elim (Bool-cases (any (λ (e : Execution). e.agent_id == id) (values s.executions))) [
        | inl busy ↦ rw (delete_agent, busy) inv
        | inr idle ↦ rw (delete_agent, idle) (deleted-BundlesCompile id s inv)
      ]

  module _ (env : Env) where
    -- A call of the kernel that changes the agents.
    pub data AgentStep : Store → Store → Type 0 where
      registers :
          (ctx : Context) (agent : Agent) (s : Store)
          → AgentStep s (client_register_agent env ctx compile agent s).1
      describes :
          (ctx : Context) (bad_schema : RawMessage → Bool) (id : String) (metadata : AgentMetadata)
          (s : Store)
          → AgentStep s (client_set_agent_metadata env ctx compile bad_schema id metadata s).1
      removes :
          (ctx : Context) (id : String) (s : Store)
          → AgentStep s (client_delete_agent env ctx compile id s).1
      loads :
          (ctx : Context) (id bundle : String) (s : Store)
          → AgentStep s (load_policy_bundle env ctx compile id bundle s).1

    -- Whatever calls change the agents, and whether they succeed or fail, if the policy bundle of every agent compiles before a call, where it has one, then it does after.
    pub AgentStep-BundlesCompile :
        {s t : Store} → AgentStep s t → BundlesCompile s → BundlesCompile t
    unfolding client_register_agent client_set_agent_metadata client_delete_agent load_policy_bundle
        ◌>>=◌ of_result refuse_if
    AgentStep-BundlesCompile (registers ctx agent s) inv =
        elim (Result-cases (authorize env.access ctx Role.admin agent.id)) [
          | inl (e, refused) ↦ rw refused inv
          | inr (_, granted_to) ↦ elim (Bool-cases (bad_bundle compile agent.policy_bundle)) [
            | inl bad ↦ rw granted_to (rw bad inv)
            | inr good ↦ rw granted_to (rw good (register-BundlesCompile ctx _ s good inv))
          ]
        ]
    AgentStep-BundlesCompile (describes ctx bad_schema id metadata s) inv =
        elim (Result-cases (authorize env.access ctx Role.admin id)) [
          | inl (e, refused) ↦ rw refused inv
          | inr (_, granted_to) ↦
              elim (Bool-cases (bad_schema (without_null env ctx compile metadata.input_schema))) [
                | inl bad ↦ rw granted_to (rw bad inv)
                | inr good ↦
                    elim (Bool-cases
                      (bad_schema (without_null env ctx compile metadata.output_schema))) [
                        | inl bad ↦ rw granted_to (rw good (rw bad inv))
                        | inr fine ↦
                            rw granted_to
                              (rw good (rw fine (set_metadata-BundlesCompile id _ s inv)))
                      ]
              ]
        ]
    AgentStep-BundlesCompile (removes ctx id s) inv =
        elim (Result-cases (authorize env.access ctx Role.admin id)) [
          | inl (e, refused) ↦ rw refused inv
          | inr (_, granted_to) ↦ rw granted_to (delete-BundlesCompile id s inv)
        ]
    AgentStep-BundlesCompile (loads ctx id bundle s) inv =
        elim (Result-cases (authorize env.access ctx Role.admin id)) [
          | inl (e, refused) ↦ rw refused inv
          | inr (_, granted_to) ↦ elim (Bool-cases (bad_bundle compile bundle)) [
            | inl bad ↦ rw granted_to (rw bad inv)
            | inr good ↦ rw granted_to (rw good (set_bundle-BundlesCompile id bundle s good inv))
          ]
        ]
