-- ===== src/Kernel/Policy.antt =====
-- What SubmitStep of internal/kernel/step.go asks of other parts, and what it computes from the
-- answers: the policy's result and its budget, effects of unknown outcome, and the step to write.
use rebuno.Prelude.{
  Bool, List, Option, String, any, false, if◌then◌else◌, leb, ltb, none, not, some, string_eq, true,
  ℕ, ℕ_eq, ◌&&◌, ◌==◌,
}
use rebuno.Action.{Result}
use rebuno.Domain.Json.{RawMessage, empty, end, field, field_if, json, obj, str}
use rebuno.Domain.Policy.{BudgetConfig, PolicyResult, plain_result}
use rebuno.Domain.Records.{EventRecord, Execution, Lease, Resource, Step, StepKind, Time, Uuid}
use rebuno.Domain.Status.{StepStatus, is_failed}
use rebuno.Kernel.Resource.{find_resource}
use rebuno.Kernel.Step.{step_error}
use rebuno.Memstore.Steps.{execution_usage, list_by_execution, session_usage}
use rebuno.Memstore.Store.{Store}

pub record SubmitStepRequest : Type 0 where
  pub kind : StepKind
  pub target : String
  pub args : RawMessage
  pub idempotency : String
  pub resources : List String
  pub lease : Lease

-- What SubmitStep asks for: the hash of the arguments and the step's identifier (internal/identity),
-- the policy engine, which may read the store, the rate limiter for the key of the rule, and rand.N.
pub record Services : Type 0 where
  pub args_hash : RawMessage → Option String
  pub step_id : Uuid → StepKind → String → String → ℕ → String
  pub evaluate : Execution → SubmitStepRequest → Store → Result PolicyResult
  pub limit : PolicyResult → Execution → Result (Bool × Time)
  pub random : ℕ → ℕ

-- the result of the guard against a retry of an effect of unknown outcome
abbrev pub retry_refused : PolicyResult
retry_refused =
    plain_result "deny" "prior attempt outcome unknown; retry refused" "__indeterminate_retry"

-- one round of the loop of indeterminateRetry
abbrev pub is_indeterminate : SubmitStepRequest → String → Step → Bool
is_indeterminate req hash s =
    is_failed s.status
    && (s.kind == req.kind
        && (s.target == req.target
            && (s.args_hash == hash && (step_error s.error).0 == "indeterminate")))

-- indeterminateRetry
unfoldable pub indeterminate_retry : Uuid → SubmitStepRequest → String → Store → Bool
indeterminate_retry exec_id req hash s =
    any (is_indeterminate req hash) (list_by_execution exec_id s)

-- decided
abbrev pub with_policy_hash : PolicyResult → RawMessage → RawMessage
with_policy_hash pol (json (obj fields)) =
    json (obj (field_if (not (pol.policy_hash == "")) "policy_hash" (str pol.policy_hash) fields))
with_policy_hash pol p = p

-- json.Marshal of {"reason": reason, "rule_id": ruleID}
abbrev pub refusal_error : String → String → RawMessage
refusal_error reason rule_id =
    json (obj (field "reason" (str reason) (field "rule_id" (str rule_id) end)))

-- checkDeclaredResources
unfoldable pub undeclared : List Resource → List String → Bool
undeclared resources keys =
    any (λ key. elim (find_resource resources key) [ none ↦ true | some _ ↦ false ]) keys

-- budgetUsage
unfoldable pub budget_usage : Execution → BudgetConfig → Store → ℕ
budget_usage exec budget s =
    if budget.scope == "session" && not (exec.session == "")
    then session_usage exec.session s
    else execution_usage exec.id s

-- the decision of a policy after the budget of its rule
unfoldable pub budgeted : Execution → Store → PolicyResult → PolicyResult
budgeted exec s pol =
    if ltb 0 pol.budget.max_tokens
      && (pol.decision == "allow" && leb pol.budget.max_tokens (budget_usage exec pol.budget s))
    then record pol {
      decision = if pol.budget.on_exceed == "require_approval" then "require_approval" else "deny";
      reason = "execution_token_budget_exceeded";
    }
    else pol

-- the step that recordStepDecision writes, before the decision
abbrev pub proposed_step : Uuid → String → SubmitStepRequest → String → ℕ → Step
proposed_step exec_id step_id req hash occurrence = record {
  step_id = step_id;
  execution_id = exec_id;
  kind = req.kind;
  target = req.target;
  args_hash = hash;
  occurrence = occurrence;
  status = StepStatus.proposed;
  idempotency = req.idempotency;
  args = req.args;
  result = empty;
  error = empty;
  started_at = none;
  completed_at = none;
  usage_input = 0;
  usage_output = 0;
  resources = req.resources;
}

abbrev pub event_of : String → RawMessage → EventRecord
event_of type payload = record { type = type; payload = payload }
