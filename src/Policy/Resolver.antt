-- ===== src/Policy/Resolver.antt =====
-- internal/policy/resolver.go: the policy of the agent that submits a step, through the cache.
use rebuno.Prelude.{Option, String, if◌then◌else◌, none, some, string_eq, ℕ_eq, ◌==◌}
use rebuno.Action.{Action, Result, err, ok}
use rebuno.Domain.Policy.{PolicyInput, PolicyResult, plain_result}
use rebuno.Domain.Records.{Agent, Time}
use rebuno.Policy.{GoLibrary, Judge, RuleEngine}
use rebuno.Policy.Build.{Decoded, new_rule_engine_from_bundle}
use rebuno.Policy.Cache.{BundleCache, get_or_compile}
use rebuno.Policy.Engine.{evaluate}

-- bundleDeny
abbrev pub bundle_deny : String → PolicyResult
bundle_deny reason = plain_result "deny" reason "bundle-error"

-- What a BundleResolver holds besides its cache: the YAML decoder and the digest of the library, the
-- lookup of an agent, the engine for an agent without a bundle, and the judge.
pub record Resolver : Type 0 where
  pub decode : String → Decoded
  pub digest : String → String
  pub get_agent : String → Result Agent
  pub fallback : PolicyInput → Result PolicyResult
  pub judge : Option Judge

module _ (lib : GoLibrary) (r : Resolver) where
  -- BundleResolver.compile
  unfoldable pub compile_bundle : String → Option RuleEngine
  compile_bundle bundle = elim (new_rule_engine_from_bundle lib r.decode r.digest bundle) [
    | none ↦ none
    | some engine ↦ some (record engine { judge = r.judge })
  ]

  abbrev pub answer_of : Option RuleEngine → Time → PolicyInput → PolicyResult
  answer_of none clock input = bundle_deny "policy_bundle_invalid"
  answer_of (some engine) clock input = evaluate lib engine clock input

  abbrev with_agent_policy :
      Result Agent → Time → PolicyInput → Action (BundleCache RuleEngine) PolicyResult
  with_agent_policy (err e) clock input cache = (ok (bundle_deny "agent_lookup_failed"), cache)
  with_agent_policy (ok agent) clock input cache =
      if agent.policy_bundle == ""
      then (r.fallback input, cache)
      else let (engine, kept) =
          get_or_compile compile_bundle input.agent_id agent.policy_bundle cache in
        (ok (answer_of engine clock input), kept)

  -- BundleResolver.Evaluate
  unfoldable pub resolve : Time → PolicyInput → Action (BundleCache RuleEngine) PolicyResult
  resolve clock input = with_agent_policy (r.get_agent input.agent_id) clock input
