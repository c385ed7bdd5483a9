-- ===== src/Samples/Judged.antt =====
-- The theorems on policies at the policy of Samples.Policies.
use rebuno.Prelude.{
  All, Option, String, [], arith, filter, find, if◌then◌else◌, map, none, refl, some, string_eq,
  true, ℕ, ℕ_eq, ◌==◌, ◌∷◌, ◌≡◌, ◌⊎◌,
}
use rebuno.Action.{ok}
use rebuno.Domain.Json.{Fields, empty, end, field, json, num, obj, str}
use rebuno.Domain.Policy.{plain_result}
use rebuno.Domain.Records.{Agent, Event, not_found}
use rebuno.Policy.{Rule}
use rebuno.Policy.Arguments.{cut_at, dot, find_member, lookup_argument, nested_object}
use rebuno.Policy.Build.{decoded}
use rebuno.Policy.Cache.{get_or_compile, new_bundle_cache}
use rebuno.Policy.Cached.{CacheInv, get_or_compile-CacheInv}
use rebuno.Policy.Clause.{match_clause}
use rebuno.Policy.Denied.{allowed-has_rule, unread_history-denies}
use rebuno.Policy.Engine.{evaluate, no_rule_matched, permissive_evaluate, read_since, with_now}
use rebuno.Policy.First.{clauses_hold, decides, evaluate-eq-first, outcome_of}
use rebuno.Policy.Fuel.{lookup_argument-recursion}
use rebuno.Policy.Replayed.{decision_recorded, first_decision, replay_cases, replay_cases-first}
use rebuno.Policy.Resolved.{resolve-refines, resolved_anew}
use rebuno.Policy.Resolver.{Resolver, compile_bundle, resolve}
use rebuno.Policy.Validated.{AreDistinct, IsValidRule, new_rule_engine-valid, rule_id}
use rebuno.Policy.Window.{narrowed_history-same, not_before}
use rebuno.Samples.Policies.{
  compiled_clause, compiled_deny, earlier_step, first_matching, pay_allowed, pay_input,
  sample_config, sample_engine, sample_engine_made, sample_library, unread_input, unreadable,
}

evaluate-eq-first_example :
    evaluate sample_library sample_engine 5 pay_input
    ≡ record (elim (find
        (decides sample_library sample_engine (with_now 5 pay_input))
        sample_engine.rules) [
          | none ↦ no_rule_matched sample_library sample_engine (with_now 5 pay_input)
          | some rule ↦ outcome_of sample_library sample_engine (with_now 5 pay_input) rule
        ]) { policy_hash = "" }
evaluate-eq-first_example = evaluate-eq-first sample_library sample_engine 5 pay_input

allowed-has_rule_example :
    (rule : Rule) × (find
        (decides sample_library sample_engine (with_now 5 pay_input))
        sample_engine.rules
      ≡ some rule)
    × (clauses_hold sample_library sample_engine (with_now 5 pay_input) rule.history ≡ ok true)
    × ((rule.outcome.decision ≡ "allow") ⊎ (rule.outcome.decision ≡ "judge"))
allowed-has_rule_example =
    allowed-has_rule sample_library sample_config sample_engine 5 pay_input sample_engine_made refl
      refl pay_allowed

unread_history-denies_example :
    evaluate sample_library sample_engine 5 unread_input
    ≡ record (plain_result "deny" "history_unavailable" "after-refund") { policy_hash = "" }
unread_history-denies_example =
    unread_history-denies sample_library sample_engine 5 unread_input unreadable compiled_deny
      compiled_clause [] refl (λ scope since. (not_found, refl)) first_matching refl

new_rule_engine-valid_example :
    All (IsValidRule sample_library) sample_engine.rules
    × AreDistinct (map (rule_id sample_library) sample_engine.rules)
    × (map (rule_id sample_library) sample_engine.rules
        ≡ map (rule_id sample_library) sample_config.rules)
new_rule_engine-valid_example =
    new_rule_engine-valid sample_library sample_config sample_engine sample_engine_made

narrowed_history-same_example :
    All
      (λ rule.
        All
          (λ c.
            match_clause sample_library c pay_input (
              filter
                (not_before sample_library (read_since sample_engine pay_input c.scope))
                (earlier_step 10 ∷ earlier_step 990 ∷ []))
            ≡ match_clause sample_library c pay_input (earlier_step 10 ∷ earlier_step 990 ∷ []))
          rule.history)
      sample_engine.rules
narrowed_history-same_example =
    narrowed_history-same sample_library sample_config sample_engine pay_input
      (earlier_step 10 ∷ earlier_step 990 ∷ []) sample_engine_made ((10, refl), ((990, refl), tt))

abbrev numbered : String → Option ℕ
numbered bundle = if bundle == "broken" then none else some 7

small_cache-CacheInv : CacheInv numbered (new_bundle_cache 2)
small_cache-CacheInv = record {
  compiled = tt;
  once = tt;
  bounded = omega arith;
  positive = omega arith;
}

get_or_compile-CacheInv_example :
    ((get_or_compile numbered "agent" "bundle" (new_bundle_cache 2)).0 ≡ numbered "bundle")
    × CacheInv numbered (get_or_compile numbered "agent" "bundle" (new_bundle_cache 2)).1
get_or_compile-CacheInv_example =
    get_or_compile-CacheInv numbered "agent" "bundle" (new_bundle_cache 2) small_cache-CacheInv

abbrev bundled_agent : Agent
bundled_agent = record {
  id = "agent";
  webhook_url = "";
  secret = "";
  lease_timeout = 0;
  policy_bundle = "bundle";
  registered_at = 1;
  metadata = record { description = ""; input_schema = empty; output_schema = empty };
}

abbrev sample_resolver : Resolver
sample_resolver = record {
  decode = λ bundle. decoded sample_config;
  digest = λ bundle. bundle;
  get_agent = λ id. ok bundled_agent;
  fallback = λ input. ok (permissive_evaluate input);
  judge = none;
}

resolve-refines_example :
    ((resolve sample_library sample_resolver 5 pay_input (new_bundle_cache 2)).0
      ≡ resolved_anew sample_library sample_resolver 5 pay_input)
    × CacheInv
        (compile_bundle sample_library sample_resolver)
        (resolve sample_library sample_resolver 5 pay_input (new_bundle_cache 2)).1
resolve-refines_example =
    resolve-refines sample_library sample_resolver 5 pay_input (new_bundle_cache 2)
      (record { compiled = tt; once = tt; bounded = omega arith; positive = omega arith })

abbrev nested_fields : Fields
nested_fields = field "order" (obj (field "total" (num 5) end)) end

lookup_argument-recursion_example :
    lookup_argument nested_fields "order.total" ≡ elim (find_member nested_fields "order.total") [
      | some v ↦ some v
      | none ↦ elim (cut_at dot "order.total") [
        | none ↦ none
        | some parts ↦ elim (nested_object nested_fields parts.0) [
          | none ↦ none
          | some inner ↦ lookup_argument inner parts.1
        ]
      ]
    ]
lookup_argument-recursion_example = lookup_argument-recursion nested_fields "order.total"

abbrev allowed_event : Event
allowed_event = record {
  execution_id = 1;
  event_seq = 1;
  type = "step.allowed";
  payload = json (obj (field "step_id" (str "earlier") (field "rule_id" (str "pay") end)));
  occurred_at = 20;
}

replay_cases-first_example :
    map decision_recorded (replay_cases (earlier_step 10 ∷ []) (allowed_event ∷ []) [])
    ≡ map (first_decision (allowed_event ∷ [])) (earlier_step 10 ∷ [])
replay_cases-first_example = replay_cases-first (earlier_step 10 ∷ []) (allowed_event ∷ []) []
