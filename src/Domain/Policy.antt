-- ===== src/Domain/Policy.antt =====
-- internal/domain/policy.go: what a policy is asked and what it answers. A float64 is its 64 bits.
use rebuno.Prelude.{List, Option, String, [], none, ℕ}
use rebuno.Action.{Result}
use rebuno.Domain.Json.{RawMessage}
use rebuno.Domain.Records.{Step, StepKind, Time}
use rebuno.Prelude.Dict.{Dict}

abbrev pub Float : Type 0
Float = ℕ

pub record RateLimitConfig : Type 0 where
  pub max_calls : ℕ
  pub window : Time
  pub per_what : String
  pub max_wait : Time
  pub on_limiter_error : String

pub record BudgetConfig : Type 0 where
  pub max_tokens : ℕ
  pub scope : String
  pub on_exceed : String

-- A nil map of criteria is not an empty one.
pub record JudgeConfig : Type 0 where
  pub question : String
  pub criteria : Option (Dict String String)
  pub instructions : String
  pub threshold : Float
  pub fallback : String

-- The fields of the approval's configuration stand beside the others.
pub record PolicyResult : Type 0 where
  pub decision : String
  pub reason : String
  pub rule_id : String
  pub policy_hash : String
  pub approvers : List String
  pub message : String
  pub timeout : Time
  pub rate_limit : RateLimitConfig
  pub budget : BudgetConfig
  pub judge : JudgeConfig

-- History reads the steps of a scope that started at a time or later; the zero time is 0.
pub record PolicyInput : Type 0 where
  pub agent_id : String
  pub subject : String
  pub subject_groups : List String
  pub target : String
  pub args : RawMessage
  pub step_kind : StepKind
  pub now : Time
  pub history : Option (String → Time → Result (List Step))

abbrev pub no_limit : RateLimitConfig
no_limit = record { max_calls = 0; window = 0; per_what = ""; max_wait = 0; on_limiter_error = "" }

abbrev pub no_budget : BudgetConfig
no_budget = record { max_tokens = 0; scope = ""; on_exceed = "" }

abbrev pub no_judge : JudgeConfig
no_judge = record {
  question = "";
  criteria = none;
  instructions = "";
  threshold = 0;
  fallback = "";
}

-- A result with a decision, a reason and a rule, and nothing else.
abbrev pub plain_result : String → String → String → PolicyResult
plain_result decision reason rule_id = record {
  decision = decision;
  reason = reason;
  rule_id = rule_id;
  policy_hash = "";
  approvers = [];
  message = "";
  timeout = 0;
  rate_limit = no_limit;
  budget = no_budget;
  judge = no_judge;
}
