-- ===== src/Policy/Compile.antt =====
-- internal/policy/engine.go, NewRuleEngine: the checks of a policy and what it computes from it.
use rebuno.Prelude.{
  Bool, List, Option, String, [], contains, false, if◌then◌else◌, leb, length, none, not, some,
  string_eq, true, ℕ_eq, ◌&&◌, ◌==◌, ◌||◌, ◌∷◌,
}
use rebuno.Auth.{valid_principal}
use rebuno.Domain.Policy.{Float, JudgeConfig}
use rebuno.Policy.{ArgPredicate, Condition, GoLibrary, Rule}
use rebuno.Policy.Glob.{glob_text}
use rebuno.Prelude.Dict.{Dict}

-- The errors, without their texts, each where the code returns it.
pub data ConfigError : Type 0 where
  missing_id missing_decision threshold_outside nested_history agent_in_history : ConfigError
  subjects_in_history negative_within sum_and_distinct crossed_bounds no_constraint : ConfigError
  equals_arg_outside_history invalid_regex invalid_target glob_panics : ConfigError
  duplicate_id subject_without_prefix : String → ConfigError
  judge_without_decision : String → ConfigError
  unknown_value : (name : String) (value : String) → ConfigError

pub data Checked (A : Type 0) : Type 0 where
  pass : A → Checked A
  fail : ConfigError → Checked A

module _ {A B : Type 0} where
  infixl 5 ◌>>=◌ ◌>>◌
  unfoldable pub ◌>>=◌ : Checked A → (A → Checked B) → Checked B
  pass a >>= f = f a
  fail e >>= f = fail e

  abbrev pub ◌>>◌ : Checked A → Checked B → Checked B
  m >> k = m >>= λ _. k

-- if b { return e }
unfoldable pub fail_if : Bool → ConfigError → Checked (Unit {0})
fail_if true e = fail e
fail_if false e = pass tt

-- the first error of several checks
unfoldable pub first_failure : List (Checked (Unit {0})) → Checked (Unit {0})
unfolding ◌>>=◌
first_failure [] = pass tt
first_failure (m ∷ ms) = m >> first_failure ms

-- oneOf: an empty value keeps the default
unfoldable pub one_of : String → String → List String → Checked (Unit {0})
unfolding fail_if
one_of name value valid =
    fail_if (not (value == "" || contains valid value)) (unknown_value name value)

abbrev pub known_decisions : List String
known_decisions = "allow" ∷ "deny" ∷ "require_approval" ∷ "judge" ∷ []

abbrev pub final_decisions : List String
final_decisions = "allow" ∷ "deny" ∷ "require_approval" ∷ []

abbrev no_criteria : Option (Dict String String) → Bool
no_criteria none = true
no_criteria (some _) = false

-- the two zeros among the float64 values
abbrev pub is_float_zero : Float → Bool
is_float_zero f = f == 0 || f == 9223372036854775808

abbrev pub float_one : Float
float_one = 4607182418800017408

-- reflect.DeepEqual(judge, domain.JudgeConfig{})
abbrev pub is_no_judge : JudgeConfig → Bool
is_no_judge j =
    j.question == ""
    && (no_criteria j.criteria
        && (j.instructions == "" && (is_float_zero j.threshold && j.fallback == "")))

unfoldable pub check_criteria : Dict String String → Checked (Unit {0})
unfolding ◌>>=◌ one_of
check_criteria [] = pass tt
check_criteria ((decision, text) ∷ rest) = do
  one_of "criteria" decision final_decisions
  check_criteria rest

abbrev criteria_of : Option (Dict String String) → Dict String String
criteria_of none = []
criteria_of (some criteria) = criteria

module _ (lib : GoLibrary) where
  -- the checks of one round of the first loop of NewRuleEngine, in order
  abbrev pub checks_of : List String → Rule → List (Checked (Unit {0}))
  checks_of seen r =
      let res = r.outcome in
      fail_if (r.id == "") missing_id
      ∷ fail_if (contains seen r.id) (duplicate_id r.id)
      ∷ fail_if (res.decision == "") missing_decision
      ∷ one_of "decision" res.decision known_decisions
      ∷ one_of "per_what" res.rate_limit.per_what
          ("execution" ∷ "session" ∷ "agent" ∷ "subject" ∷ "global" ∷ [])
      ∷ one_of "on_limiter_error" res.rate_limit.on_limiter_error ("allow" ∷ "deny" ∷ [])
      ∷ one_of "scope" res.budget.scope ("execution" ∷ "session" ∷ [])
      ∷ one_of "on_exceed" res.budget.on_exceed ("deny" ∷ "require_approval" ∷ [])
      ∷ one_of "fallback" res.judge.fallback final_decisions
      ∷ fail_if (not (is_no_judge res.judge) && not (res.decision == "judge"))
          (judge_without_decision res.decision)
      ∷ fail_if
          (lib.float_less res.judge.threshold 0 || lib.float_less float_one res.judge.threshold)
          threshold_outside
      ∷ check_criteria (criteria_of res.judge.criteria)
      ∷ []

  unfoldable pub check_rule : List String → Rule → Checked (Unit {0})
  check_rule seen r = first_failure (checks_of seen r)

  unfoldable pub check_rules : List Rule → (seen : List String) → Checked (Unit {0})
  unfolding ◌>>=◌ check_rule
  check_rules [] seen = pass tt
  check_rules (r ∷ rules) seen = do check_rule seen r; check_rules rules (r.id ∷ seen)

  abbrev compiled_if : Bool → String → ConfigError → Checked String
  compiled_if true text e = pass text
  compiled_if false text e = fail e

  -- compileGlob
  unfoldable pub compile_glob : String → Checked String
  compile_glob pattern =
      if not (lib.path_match_accepts pattern)
      then fail invalid_target
      else elim (glob_text pattern) [
        | none ↦ fail glob_panics
        | some text ↦ compiled_if (lib.regexp_compiles text) text invalid_target
      ]

  unfoldable pub compile_globs : List String → Checked (List String)
  unfolding ◌>>=◌
  compile_globs [] = pass []
  compile_globs (p ∷ ps) = do rx ← compile_glob p; rxs ← compile_globs ps; pass (rx ∷ rxs)

  abbrev has_no_constraint : ArgPredicate → Bool
  has_no_constraint p =
      p.equals == ""
      && (p.equals_arg == "" && (p.includes == "" && (p.regex == "" && leb (length p.one_of) 0)))

  unfoldable pub compile_predicate : ArgPredicate → (allow_equals_arg : Bool) → Checked ArgPredicate
  unfolding ◌>>=◌ fail_if
  compile_predicate p allow_equals_arg = do
    fail_if (has_no_constraint p) no_constraint
    fail_if (not (p.equals_arg == "") && not allow_equals_arg) equals_arg_outside_history
    if p.regex == "" then pass p else do
      fail_if (not (lib.regexp_compiles p.regex)) invalid_regex
      pass (record p { rx = some p.regex })

  -- compilePredicates
  unfoldable pub compile_predicates :
      Dict String ArgPredicate → (allow_equals_arg : Bool) → Checked (Dict String ArgPredicate)
  unfolding ◌>>=◌ compile_predicate
  compile_predicates [] allow_equals_arg = pass []
  compile_predicates ((key, p) ∷ rest) allow_equals_arg = do
    compiled ← compile_predicate p allow_equals_arg
    others ← compile_predicates rest allow_equals_arg
    pass ((key, compiled) ∷ others)

  unfoldable pub check_subjects : List String → Checked (Unit {0})
  unfolding ◌>>=◌ fail_if valid_principal
  check_subjects [] = pass tt
  check_subjects (s ∷ ss) = do
    fail_if (not (valid_principal s)) (subject_without_prefix s)
    check_subjects ss

  unfoldable pub compile_target : String → Checked (Option String)
  unfolding ◌>>=◌
  compile_target target =
      if target == "" then pass none else compile_glob target >>= λ rx. pass (some rx)

  -- compileCondition, on a condition that holds no compiled expression
  unfoldable pub compile_condition : Condition → (in_history : Bool) → Checked Condition
  unfolding ◌>>=◌ check_subjects compile_target compile_globs compile_predicates
  compile_condition when in_history = do
    check_subjects when.subjects
    target_rx ← compile_target when.target
    targets_rx ← compile_globs when.targets
    arguments ← compile_predicates when.arguments in_history
    pass (record when { target_rx = target_rx; targets_rx = targets_rx; arguments = arguments })
