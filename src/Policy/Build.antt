-- ===== src/Policy/Build.antt =====
-- internal/policy/engine.go and loader.go: the clauses on the history, their windows, and the engine
-- that NewRuleEngine makes of a configuration.
use rebuno.Prelude.{
  Bool, List, Option, String, [], false, if◌then◌else◌, length, ltb, none, not, some, string_eq,
  true, ℕ_eq, ◌&&◌, ◌==◌, ◌||◌, ◌∷◌,
}
use rebuno.Domain.Policy.{Float, PolicyResult, plain_result}
use rebuno.Policy.{Config, GoLibrary, HistoryClause, Rule, RuleEngine, is_negative, window, ℤ}
use rebuno.Policy.Compile.{
  Checked, agent_in_history, check_rules, compile_condition, compile_predicates, crossed_bounds,
  fail, fail_if, float_one, negative_within, nested_history, one_of, pass, subjects_in_history,
  sum_and_distinct, ◌>>=◌, ◌>>◌,
}
use rebuno.Prelude.Dict.{Dict, insert, lookup}

abbrev pub default_scope : String → String
default_scope scope = if scope == "" then "execution" else scope

abbrev is_some : {A : Type 0} → Option A → Bool
is_some none = false
is_some (some a) = true

abbrev at_least_default : Option Float → Option Float → Option Float
at_least_default none none = some float_one
at_least_default at_least at_most = at_least

abbrev greater_window : ℤ → ℤ → Bool
greater_window w prev = ltb (window prev) (window w)

-- the new entry of lookback for a clause, which is not negative
abbrev pub widened : Option ℤ → ℤ → ℤ
widened none within = within
widened (some prev) within =
    if not (window prev == 0) && (window within == 0 || greater_window within prev)
    then within
    else prev

abbrev pub widen : HistoryClause → Dict String ℤ → Dict String ℤ
widen h lookback = insert h.scope (widened (lookup h.scope lookback) h.within) lookback

abbrev pub default_result_of : String → PolicyResult
default_result_of default_action =
    if default_action == "allow"
    then plain_result "allow" "default allow" "default"
    else plain_result "deny" "no explicit allow rule matched" "default"

module _ (lib : GoLibrary) where
  abbrev crossed : Option Float → Option Float → Bool
  crossed (some least) (some most) = lib.float_less most least
  crossed _ _ = false

  -- compileHistoryClause
  unfoldable pub compile_history_clause : HistoryClause → Checked HistoryClause
  unfolding ◌>>=◌ fail_if one_of
  compile_history_clause h =
      let scope = default_scope h.scope in
      do
        fail_if (ltb 0 h.history_length) nested_history
        fail_if (not (h.condition.agent_id == "") || ltb 0 (length h.condition.agent_ids))
            agent_in_history
        fail_if (ltb 0 (length h.condition.subjects)) subjects_in_history
        one_of "scope" scope ("execution" ∷ "session" ∷ [])
        fail_if (is_negative h.within) negative_within
        fail_if (not (h.sum == "") && not (h.distinct == "")) sum_and_distinct
        fail_if (crossed h.at_least h.at_most) crossed_bounds
        condition ← compile_condition lib h.condition true
        result ← compile_predicates lib h.result true
        pass (record h {
          scope = scope;
          at_least = at_least_default h.at_least h.at_most;
          condition = condition;
          result = result;
        })

  -- the inner loop over the clauses of a rule
  unfoldable pub compile_clauses :
      List HistoryClause → (lookback : Dict String ℤ) → Checked (List HistoryClause × Dict String ℤ)
  unfolding ◌>>=◌
  compile_clauses [] lookback = pass ([], lookback)
  compile_clauses (h ∷ hs) lookback = do
    compiled ← compile_history_clause h
    rest ← compile_clauses hs (widen compiled lookback)
    pass (compiled ∷ rest.0, rest.1)

  -- the second loop of NewRuleEngine
  unfoldable pub compile_rules :
      List Rule → (lookback : Dict String ℤ) → Checked (List Rule × Dict String ℤ)
  unfolding ◌>>=◌
  compile_rules [] lookback = pass ([], lookback)
  compile_rules (r ∷ rules) lookback = do
    when ← compile_condition lib r.when false
    clauses ← compile_clauses r.history lookback
    rest ← compile_rules rules clauses.1
    pass (record r { when = when; history = clauses.0 } ∷ rest.0, rest.1)

  -- NewRuleEngine
  unfoldable pub new_rule_engine : Config → Checked RuleEngine
  unfolding ◌>>=◌ one_of
  new_rule_engine cfg = do
    one_of "default_action" cfg.default_action ("allow" ∷ "deny" ∷ [])
    check_rules lib cfg.rules []
    compiled ← compile_rules cfg.rules []
    pass (record {
      rules = compiled.0;
      default_result = default_result_of cfg.default_action;
      hash = "";
      judge = none;
      lookback = compiled.1;
    })

-- What the YAML decoder, which knows every field, makes of a bundle.
pub data Decoded : Type 0 where
  decoded : Config → Decoded
  end_of_file undecodable : Decoded

-- LoadBundle
unfoldable pub load_bundle : (String → Decoded) → String → Option Config
load_bundle decode bundle = elim (decode bundle) [
  | decoded cfg ↦ some cfg
  | end_of_file ↦ some (record { default_action = ""; rules = [] })
  | undecodable ↦ none
]

-- NewRuleEngineFromBundle, with the hexadecimal SHA-256 of a text
unfoldable pub new_rule_engine_from_bundle :
    GoLibrary → (String → Decoded) → (String → String) → String → Option RuleEngine
unfolding load_bundle new_rule_engine
new_rule_engine_from_bundle lib decode digest bundle = elim (load_bundle decode bundle) [
  | none ↦ none
  | some cfg ↦ elim (new_rule_engine lib cfg) [
    | fail e ↦ none
    | pass engine ↦ some (record engine { hash = digest bundle })
  ]
]
