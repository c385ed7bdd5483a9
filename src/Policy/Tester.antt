-- ===== src/Policy/Tester.antt =====
-- internal/policy/tester.go: cases for a policy, written by hand or taken from past executions. A
-- pass over the cases reads the clock for each case; here the clock is one argument.
use rebuno.Prelude.{
  Bool, List, Option, String, [], contains, false, filter, if◌then◌else◌, leb, length, ltb, map,
  none, not, some, string_eq, suc, ℕ, ℕ_eq, ◌&&◌, ◌-◌, ◌==◌, ◌||◌, ◌∷◌,
}
use rebuno.Action.{Result, ok}
use rebuno.Domain.Json.{RawMessage, empty}
use rebuno.Domain.Policy.{PolicyInput, PolicyResult}
use rebuno.Domain.Records.{
  Step, StepKind, Time, Uuid, step_kind_llm, step_kind_local, step_kind_tool,
}
use rebuno.Domain.Status.{StepStatus}
use rebuno.Policy.{GoLibrary, RuleEngine}
use rebuno.Policy.Engine.{evaluate}

pub record PriorStep : Type 0 where
  pub kind : StepKind
  pub target : String
  pub args : RawMessage
  pub result : RawMessage
  pub ago : Time

-- The steps of a replayed case are none where the case is written by hand.
pub record Case : Type 0 where
  pub name : String
  pub agent_id : String
  pub subject : String
  pub subject_groups : List String
  pub kind : StepKind
  pub target : String
  pub args : RawMessage
  pub expect : String
  pub expect_rule : String
  pub history : List PriorStep
  pub execution_id : Uuid
  pub step_id : String
  pub was_rule : String
  pub allowed_steps : Option (List Step)
  pub decided_at : Time

-- The result of a case: whether it passes, and what it answers.
pub record CaseResult : Type 0 where
  pub case : Case
  pub decision : String
  pub rule_id : String
  pub reason : String
  pub passes : Bool

pub record Report : Type 0 where
  pub results : List CaseResult
  pub failures : ℕ
  pub unexercised : List String

abbrev default_to : String → String → String
default_to given default = if given == "" then default else given

abbrev known_kind : StepKind → Bool
known_kind kind = contains (step_kind_tool ∷ step_kind_llm ∷ step_kind_local ∷ []) kind

abbrev known_expect : String → Bool
known_expect expect = contains ("" ∷ "allow" ∷ "deny" ∷ "require_approval" ∷ []) expect

unfoldable normalize_history : List PriorStep → Option (List PriorStep)
normalize_history [] = some []
normalize_history (p ∷ ps) = elim (normalize_history ps) [
  | none ↦ none
  | some rest ↦
      if p.target == ""
      then none
      else some (record p { kind = default_to p.kind step_kind_tool } ∷ rest)
]

abbrev normalized_case : String → Case → Option (List PriorStep) → Option Case
normalized_case default_agent c none = none
normalized_case default_agent c (some history) =
    let kind = default_to c.kind step_kind_tool in
    if c.target == "" || (not (known_kind kind) || not (known_expect c.expect))
    then none
    else some (record c {
      agent_id = default_to c.agent_id default_agent;
      kind = kind;
      history = history;
    })

abbrev cons_case : Option Case → Option (List Case) → Option (List Case)
cons_case (some c) (some rest) = some (c ∷ rest)
cons_case _ _ = none

-- NormalizeCases; none for an error
unfoldable pub normalize_cases : List Case → String → Option (List Case)
unfolding normalize_history
normalize_cases [] default_agent = some []
normalize_cases (c ∷ cs) default_agent =
    cons_case (normalized_case default_agent c (normalize_history c.history))
      (normalize_cases cs default_agent)

-- a read of the steps that were allowed before a replayed case
abbrev replayed_step : Case → Time → String → Time → Step → Bool
replayed_step c now scope since s = elim s.started_at [
  | none ↦ false
  | some t ↦
      not (s.step_id == c.step_id || (ltb t since || ltb now t))
      && not (scope == "execution" && not (s.execution_id == c.execution_id))
]

-- the step that a prior step of a case stands for
abbrev prior_step : Time → PriorStep → Step
prior_step now p = record {
  step_id = "";
  execution_id = 0;
  kind = p.kind;
  target = p.target;
  args_hash = "";
  occurrence = 0;
  status = StepStatus.succeeded;
  idempotency = "";
  args = p.args;
  result = p.result;
  error = empty;
  started_at = some (now - p.ago);
  completed_at = none;
  usage_input = 0;
  usage_output = 0;
  resources = [];
}

abbrev since_step : Time → Step → Bool
since_step since s = elim s.started_at [ none ↦ false | some t ↦ not (ltb t since) ]

-- Case.history
unfoldable pub case_history : Case → Time → Option (String → Time → Result (List Step))
unfolding filter
case_history c now = elim c.allowed_steps [
  | some steps ↦ some (λ scope since. ok (filter (replayed_step c now scope since) steps))
  | none ↦
      if leb (length c.history) 0
      then none
      else some (λ scope since. ok (filter (since_step since) (map (prior_step now) c.history)))
]

-- evaluate of tester.go
unfoldable pub judge_case : Case → PolicyResult → CaseResult
judge_case c res = record {
  case = c;
  decision = res.decision;
  rule_id = res.rule_id;
  reason = res.reason;
  passes =
      not (not (c.expect == "") && not (c.expect == res.decision))
      && not (not (c.expect_rule == "") && not (c.expect_rule == res.rule_id));
}

abbrev pub case_input : Case → Time → PolicyInput
case_input c now = record {
  agent_id = c.agent_id;
  subject = c.subject;
  subject_groups = c.subject_groups;
  target = c.target;
  args = c.args;
  step_kind = c.kind;
  now = now;
  history = case_history c now;
}

module _ (lib : GoLibrary) (engine : RuleEngine) (clock : Time) where
  abbrev pub run_case : Case → CaseResult
  run_case c =
      let now = if c.decided_at == 0 then clock else c.decided_at in
      judge_case c (evaluate lib engine clock (case_input c now))

  -- the loop of Run over the cases: the results, the number that failed, and the rules that were hit
  unfoldable pub run_cases : List Case → List CaseResult × ℕ × List String
  run_cases [] = ([], 0, [])
  run_cases (c ∷ cs) =
      let result = run_case c in
      let rest = run_cases cs in
      (result ∷ rest.0, if result.passes then rest.1 else suc rest.1, result.rule_id ∷ rest.2)

  -- Run, on cases whose arguments marshal
  unfoldable pub run : List Case → Report
  unfolding run_cases filter contains
  run cases =
      let (results, failures, hit) = run_cases cases in
      record {
        results = results;
        failures = failures;
        unexercised = filter (λ id. not (contains hit id)) (map (λ r. r.id) engine.rules);
      }
