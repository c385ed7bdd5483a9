-- ===== src/Policy/Engine.antt =====
-- internal/policy/engine.go, Evaluate: the first rule that matches decides.
use Prim.Native.String.{◌++◌ as text_append}
use rebuno.Prelude.{
  Bool, List, Option, String, [], false, if◌then◌else◌, inl, inr, ltb, none, not, some, string_eq,
  true, ℕ_eq, ◌-◌, ◌==◌, ◌∷◌, ◌⊎◌,
}
use rebuno.Action.{Action, Result, err, ok, pure, ◌>>=◌}
use rebuno.Domain.Policy.{Float, JudgeConfig, PolicyInput, PolicyResult, plain_result}
use rebuno.Domain.Records.{Step, Time, step_kind_local}
use rebuno.Policy.{GoLibrary, HistoryClause, Judge, Rule, RuleEngine, window}
use rebuno.Policy.Clause.{match_clause}
use rebuno.Policy.Compile.{is_float_zero}
use rebuno.Policy.Matching.{matches}
use rebuno.Prelude.Dict.{Dict, insert, lookup}

-- historyView.load, with the cache of the steps of each scope
abbrev pub read_since : RuleEngine → PolicyInput → String → Time
read_since engine input scope = elim (lookup scope engine.lookback) [
  | none ↦ 0
  | some w ↦ if ltb 0 (window w) then input.now - window w else 0
]

abbrev pub read_history : RuleEngine → PolicyInput → String → Result (List Step)
read_history engine input scope = elim input.history [
  | none ↦ ok []
  | some reads_from ↦ reads_from scope (read_since engine input scope)
]

abbrev pub cached : String → Result (List Step) → Action (Dict String (List Step)) (List Step)
cached scope (ok steps) loaded = (ok steps, insert scope steps loaded)
cached scope (err e) loaded = (err e, loaded)

unfoldable pub load :
    RuleEngine → PolicyInput → String → Action (Dict String (List Step)) (List Step)
load engine input scope loaded = elim (lookup scope loaded) [
  | some steps ↦ (ok steps, loaded)
  | none ↦ cached scope (read_history engine input scope) loaded
]

-- historyView.matchAll
unfoldable pub match_all :
    GoLibrary
    → RuleEngine
    → PolicyInput
    → List HistoryClause
    → Action (Dict String (List Step)) Bool
unfolding ◌>>=◌ pure
match_all lib engine input [] = pure true
match_all lib engine input (c ∷ cs) = do
  steps ← load engine input c.scope
  if match_clause lib c input steps then match_all lib engine input cs else pure false

-- the default of the judge's threshold, 0.6, and -1, the bits of which are these
abbrev pub default_threshold : Float
default_threshold = 4603579539098121011

abbrev float_minus_one : Float
float_minus_one = 13830554455654793216

-- the time of the evaluation, where the input has none
abbrev pub with_now : Time → PolicyInput → PolicyInput
with_now clock input = record input { now = if input.now == 0 then clock else input.now }

module _ (lib : GoLibrary) where
  abbrev probability : Dict String Float → String → Float
  probability probs decision = elim (lookup decision probs) [ none ↦ 0 | some p ↦ p ]

  abbrev better : Dict String Float → String × Float → String → String × Float
  better probs top decision =
      if lib.float_less top.1 (probability probs decision)
      then (decision, probability probs decision)
      else top

  -- the loop over the decisions, the strictest first
  unfoldable pub most_probable : Dict String Float → String × Float
  most_probable probs =
      better probs (better probs (better probs ("", float_minus_one) "deny") "require_approval")
        "allow"

  abbrev judged : Float → String → String ⊎ Dict String Float → String × String
  judged threshold fallback (inl error) = (fallback, text_append "judge unavailable: " error)
  judged threshold fallback (inr probs) =
      let (top, p) = most_probable probs in
      let said = text_append "judge: " (text_append top (text_append " " (lib.format_float p))) in
      if lib.float_less p threshold
      then (
        fallback,
        text_append said (text_append " below threshold " (lib.format_float threshold)),
      )
      else (top, said)

  -- Judge.decide
  unfoldable pub judge_decide : Option Judge → PolicyInput → JudgeConfig → String × String
  judge_decide none input cfg = ("deny", "judge not configured")
  judge_decide (some j) input cfg =
      judged (if is_float_zero cfg.threshold then default_threshold else cfg.threshold)
        (if cfg.fallback == "" then "require_approval" else cfg.fallback) (j.ask input cfg)

  module _ (engine : RuleEngine) (input : PolicyInput) where
    abbrev decided_by_judge : PolicyResult → PolicyResult
    decided_by_judge res =
        let (decision, reason) = judge_decide engine.judge input res.judge in
        if res.decision == "judge" then record res { decision = decision; reason = reason } else res

    -- the result of a rule that matches
    abbrev pub rule_result : Rule → PolicyResult
    rule_result rule = decided_by_judge (record rule.outcome {
      rule_id = if rule.outcome.rule_id == "" then rule.id else rule.outcome.rule_id;
    })

    abbrev pub history_unavailable : Rule → PolicyResult
    history_unavailable rule = plain_result "deny" "history_unavailable" rule.id

    abbrev pub no_rule_matched : PolicyResult
    no_rule_matched =
        if input.step_kind == step_kind_local
        then plain_result "allow" "local step" "local"
        else engine.default_result

    -- the loop over the rules
    unfoldable pub evaluate_rules : List Rule → (loaded : Dict String (List Step)) → PolicyResult
    evaluate_rules [] loaded = no_rule_matched
    evaluate_rules (rule ∷ rules) loaded =
        if not (matches lib rule.when input input.args)
        then evaluate_rules rules loaded
        else let (answer, now_loaded) = match_all lib engine input rule.history loaded in
          elim answer [
            | err e ↦ history_unavailable rule
            | ok holds ↦ if holds then rule_result rule else evaluate_rules rules now_loaded
          ]

  -- RuleEngine.Evaluate, with the time that time.Now answers
  unfoldable pub evaluate : RuleEngine → Time → PolicyInput → PolicyResult
  evaluate engine clock input =
      record (evaluate_rules engine (with_now clock input) engine.rules []) {
        policy_hash = engine.hash;
      }

-- PermissiveEngine and DenyAllEngine
abbrev pub permissive_evaluate : PolicyInput → PolicyResult
permissive_evaluate input = plain_result "allow" "" "permissive"

abbrev pub deny_all_evaluate : PolicyInput → PolicyResult
deny_all_evaluate input = plain_result "deny" "denied by default" "deny-all"
