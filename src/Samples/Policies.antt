-- ===== src/Samples/Policies.antt =====
-- A policy of two rules, a step that it allows and one whose history cannot be read.
use Prim.Native.String.{◌++◌ as text_append}
use rebuno.Prelude.{
  List, String, [], any, contains, false, find, leb, ltb, none, refl, some, string_eq, true, ℕ_eq,
  ◌*◌, ◌+◌, ◌==◌, ◌∷◌, ◌≡◌,
}
use rebuno.Action.{Result, err, pure}
use rebuno.Auth.{match_principal, valid_principal}
use rebuno.Domain.Json.{empty, json, null}
use rebuno.Domain.Policy.{PolicyInput, plain_result}
use rebuno.Domain.Records.{Step, Time, not_found}
use rebuno.Domain.Status.{StepStatus}
use rebuno.Policy.{Condition, Config, GoLibrary, HistoryClause, Rule, RuleEngine, pos}
use rebuno.Policy.Arguments.{match_arguments, text_length}
use rebuno.Policy.Build.{compile_clauses, compile_history_clause, compile_rules, new_rule_engine}
use rebuno.Policy.Clause.{add, match_clause, tally_steps}
use rebuno.Policy.Compile.{
  check_criteria, check_rule, check_rules, check_subjects, compile_condition, compile_glob,
  compile_globs, compile_predicate, compile_predicates, compile_target, fail_if, first_failure,
  float_one, one_of, pass, ◌>>=◌,
}
use rebuno.Policy.Engine.{
  evaluate, evaluate_rules, judge_decide, load, match_all, most_probable, with_now,
}
use rebuno.Policy.Glob.{glob_from, glob_round, glob_text}
use rebuno.Policy.Matching.{matches}
use rebuno.Prelude.Dict.{insert, lookup}

-- A library in which an expression matches the one text that it spells, and numbers stand for floats.
abbrev pub sample_library : GoLibrary
sample_library = record {
  compact = λ j. "json";
  uuid_text = λ u. "uuid";
  regexp_compiles = λ p. true;
  regexp_matches = λ p t. p == text_append "(?s)^" (text_append t "$");
  path_match_accepts = λ p. true;
  text_contains = λ t p. false;
  parse_float = λ s. none;
  float_add = λ a b. a + b;
  float_less = ltb;
  float_at_most = leb;
  float_of_count = λ n. n * float_one;
  format_float = λ f. "0.00";
}

abbrev pub anything : Condition
anything = record {
  target = "";
  targets = [];
  agent_id = "";
  agent_ids = [];
  subjects = [];
  step_kind = "";
  arguments = [];
  target_rx = none;
  targets_rx = [];
}

abbrev pub aimed_at : String → Condition
aimed_at target = record anything { target = target }

abbrev pub after_refund : HistoryClause
after_refund = record {
  condition = aimed_at "refund";
  history_length = 0;
  scope = "";
  within = pos 60;
  result = [];
  sum = "";
  distinct = "";
  at_least = none;
  at_most = none;
}

abbrev pub deny_after_refund : Rule
deny_after_refund = record {
  id = "after-refund";
  when = anything;
  history = after_refund ∷ [];
  outcome = plain_result "deny" "a refund went before" "";
}

abbrev pub allow_pay : Rule
allow_pay = record {
  id = "pay";
  when = aimed_at "pay";
  history = [];
  outcome = plain_result "allow" "" "";
}

abbrev pub sample_config : Config
sample_config = record { default_action = ""; rules = deny_after_refund ∷ allow_pay ∷ [] }

abbrev pub compiled_clause : HistoryClause
compiled_clause = record after_refund {
  condition = record (aimed_at "refund") { target_rx = some "(?s)^refund$" };
  scope = "execution";
  at_least = some float_one;
}

abbrev pub compiled_deny : Rule
compiled_deny = record deny_after_refund { history = compiled_clause ∷ [] }

abbrev pub compiled_pay : Rule
compiled_pay = record allow_pay { when = record (aimed_at "pay") { target_rx = some "(?s)^pay$" } }

abbrev pub sample_engine : RuleEngine
sample_engine = record {
  rules = compiled_deny ∷ compiled_pay ∷ [];
  default_result = plain_result "deny" "no explicit allow rule matched" "default";
  hash = "";
  judge = none;
  lookback = ("execution", pos 60) ∷ [];
}

abbrev pub pay_input : PolicyInput
pay_input = record {
  agent_id = "agent";
  subject = "";
  subject_groups = [];
  target = "pay";
  args = json null;
  step_kind = "tool_call";
  now = 1000;
  history = none;
}

abbrev pub unreadable : String → Time → Result (List Step)
unreadable scope since = err not_found

abbrev pub unread_input : PolicyInput
unread_input = record pay_input { history = some unreadable }

abbrev pub earlier_step : Time → Step
earlier_step started = record {
  step_id = "earlier";
  execution_id = 1;
  kind = "tool_call";
  target = "refund";
  args_hash = "hash";
  occurrence = 0;
  status = StepStatus.succeeded;
  idempotency = "";
  args = json null;
  result = json null;
  error = empty;
  started_at = some started;
  completed_at = some started;
  usage_input = 0;
  usage_output = 0;
  resources = [];
}

pub sample_engine_made : new_rule_engine sample_library sample_config ≡ pass sample_engine
unfolding new_rule_engine ◌>>=◌ fail_if first_failure one_of check_criteria check_rule check_rules
    compile_glob compile_globs compile_predicate compile_predicates check_subjects compile_target
    compile_condition compile_history_clause compile_clauses compile_rules glob_text glob_from
    glob_round text_length contains insert lookup valid_principal
sample_engine_made = refl

pub pay_allowed : (evaluate sample_library sample_engine 5 pay_input).decision ≡ "allow"
unfolding evaluate evaluate_rules match_all load match_clause tally_steps add matches ◌>>=◌ pure
    lookup insert any contains match_principal match_arguments judge_decide most_probable
pay_allowed = refl

pub first_matching :
    find
      (λ r. matches sample_library r.when (with_now 5 unread_input) unread_input.args)
      sample_engine.rules
    ≡ some compiled_deny
unfolding find matches any contains match_principal match_arguments
first_matching = refl
