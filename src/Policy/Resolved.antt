-- ===== src/Policy/Resolved.antt =====
-- What the resolver answers, without its cache.
use rebuno.Prelude.{
  Bool-cases, Option, ap, if◌then◌else◌, inl, inr, refl, string_eq, ℕ_eq, ◌==◌, ◌≡◌,
}
use rebuno.Action.{Result, err, ok}
use rebuno.Action.Laws.{Result-cases}
use rebuno.Domain.Policy.{PolicyInput, PolicyResult}
use rebuno.Domain.Records.{Time}
use rebuno.Policy.{GoLibrary, RuleEngine}
use rebuno.Policy.Cache.{BundleCache}
use rebuno.Policy.Cached.{CacheInv, get_or_compile-CacheInv}
use rebuno.Policy.Resolver.{Resolver, answer_of, bundle_deny, compile_bundle, resolve}

module _ (lib : GoLibrary) (r : Resolver) where
  -- The policy of the agent, compiled for this answer.
  abbrev pub resolved_anew : Time → PolicyInput → Result PolicyResult
  resolved_anew clock input = elim (r.get_agent input.agent_id) [
    | err e ↦ ok (bundle_deny "agent_lookup_failed")
    | ok agent ↦
        if agent.policy_bundle == ""
        then r.fallback input
        else ok (answer_of lib r (compile_bundle lib r agent.policy_bundle) clock input)
  ]

  -- The resolver with its cache implements the one that compiles the agent's bundle for every answer: the answers are the same, which are a denial if the agent cannot be looked up or if its bundle does not compile, and the cache keeps its invariant.
  pub resolve-refines :
      (clock : Time) (input : PolicyInput) (cache : BundleCache RuleEngine)
      → CacheInv (compile_bundle lib r) cache
      → ((resolve lib r clock input cache).0 ≡ resolved_anew clock input)
        × CacheInv (compile_bundle lib r) (resolve lib r clock input cache).1
  unfolding resolve
  resolve-refines clock input cache inv = elim (Result-cases (r.get_agent input.agent_id)) [
    | inl (e, lost) ↦ rw (resolve, resolved_anew, lost) (refl, inv)
    | inr (agent, found) ↦
        let (same, kept) =
          get_or_compile-CacheInv (compile_bundle lib r) input.agent_id agent.policy_bundle cache
            inv in
        elim (Bool-cases (agent.policy_bundle == "")) [
          | inl no_bundle ↦ rw (resolve, resolved_anew, found) (rw no_bundle (refl, inv))
          | inr bundled ↦
              rw (resolve, resolved_anew, found)
                (rw bundled
                  (ap (λ (o : Option RuleEngine). ok (answer_of lib r o clock input)) same, kept))
        ]
  ]
