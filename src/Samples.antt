-- ===== src/Samples.antt =====
-- A run of one execution on concrete values: it is created, admitted, claimed, submits a step,
-- completes it and completes itself. The children apply the theorems to it.
pub mod Payloads
pub mod Facts
pub mod Applied
pub mod Policies
pub mod Judged
pub mod Keyed
use rebuno.Prelude.{
  String, [], false, if◌then◌else◌, none, some, string_eq, true, ℕ, ℕ_eq, ◌+◌, ◌==◌,
}
use rebuno.Action.{ok}
use rebuno.Auth.{admin}
use rebuno.Context.{Context, Principal}
use rebuno.Domain.Json.{RawMessage, empty, json, str}
use rebuno.Domain.Records.{Execution, Lease, Time, Uuid}
use rebuno.Domain.Status.{ExecutionStatus, cancelled}
use rebuno.Kernel.Env.{Env}
use rebuno.Kernel.Execution.{admit_next}
use rebuno.Domain.Policy.{PolicyResult}
use rebuno.Kernel.Policy.{Services, SubmitStepRequest, retry_refused}
use rebuno.Kernel.Reach.{Reach, admits, claims_due, completes, creates, start, submits, then_step}
use rebuno.Kernel.Step.{CompleteStepRequest, complete_step}
use rebuno.Kernel.Submit.{submit_step}
use rebuno.Kernel.Terminal.{complete_execution}
use rebuno.Memstore.Dispatches.{claim}
use rebuno.Memstore.Executions.{create_execution}
use rebuno.Memstore.Store.{Store, new_store}

abbrev pub caller : Principal
caller = record {
  agent_id = "agent";
  admin = false;
  scopes = [];
  client = false;
  key_id = "";
  user = "";
  groups = [];
}

abbrev pub at_time : Time → Context
at_time now = record { principal = some caller; now = now; cancelled = false }

abbrev pub sample_env : Env
sample_env = record {
  access = none;
  dispatch_max_attempts = 3;
  default_approval_timeout = 900;
  execution_deadline_timeout = 0;
  new_v7 = λ n. n + 100;
}

abbrev pub sample_execution : Uuid → String → Execution
sample_execution id session = record {
  id = id;
  agent_id = "agent";
  session = session;
  parent_execution_id = none;
  forked_from = none;
  fork_seq = 0;
  idempotency_key = "";
  spawned_by = none;
  created_by = "";
  on_behalf_of = "";
  subject_groups = [];
  policy_bundle = "";
  input = empty;
  status = ExecutionStatus.pending;
  output = empty;
  failure_reason = "";
  created_at = 0;
  updated_at = 0;
  deadline_at = none;
  restoration = [];
}

abbrev pub sample_lease : Lease
sample_lease = record { dispatch_id = 100; attempt = 1 }

abbrev pub sample_request : String → SubmitStepRequest
sample_request idempotency = record {
  kind = "tool_call";
  target = "pay";
  args = empty;
  idempotency = idempotency;
  resources = [];
  lease = sample_lease;
}

abbrev pub allow_all : PolicyResult
allow_all = record retry_refused { decision = "allow"; reason = ""; rule_id = "" }

-- A policy that allows everything, no rate limit, and one step identifier for each occurrence.
abbrev pub sample_services : Services
sample_services = record {
  args_hash = λ args. some "hash";
  step_id = λ id kind target hash n. if n == 0 then "first" else "later";
  evaluate = λ exec req s. ok allow_all;
  limit = λ pol exec. ok (true, 0);
  random = λ n. 0;
}

abbrev pub no_usage : RawMessage → ℕ × ℕ
no_usage raw = (0, 0)

abbrev pub paid : RawMessage
paid = json (str "paid")

abbrev pub sample_result : RawMessage → CompleteStepRequest
sample_result result = record {
  result = result;
  captures = [];
  capture_failures = [];
  lease = sample_lease;
}

abbrev pub after_create : Store
after_create = (create_execution (at_time 10) (sample_execution 1 "chat") new_store).1

abbrev pub after_admit : Store
after_admit = (admit_next sample_env (at_time 20) "chat" after_create).1

abbrev pub after_claim : Store
after_claim = (claim "replica-1" 8 30 after_admit).1

abbrev pub after_submit : Store
after_submit =
    (submit_step sample_env (at_time 40) sample_services 1 (sample_request "at_most_once")
      after_claim).1

abbrev pub after_step : Store
after_step =
    (complete_step sample_env (at_time 50) no_usage "first" (sample_result paid) after_submit).1

abbrev pub after_complete : Store
after_complete = (complete_execution sample_env (at_time 60) 1 sample_lease paid empty after_step).1

pub run_submitted : Reach sample_env new_store after_submit
run_submitted =
    then_step
      (then_step
        (then_step (then_step start (creates (at_time 10) (sample_execution 1 "chat") new_store))
          (admits (at_time 20) "chat" after_create))
        (claims_due "replica-1" 8 30 after_admit))
      (submits (at_time 40) sample_services 1 (sample_request "at_most_once") after_claim)

pub run_completed : Reach sample_env after_step after_complete
run_completed = then_step start (completes (at_time 60) 1 sample_lease paid empty after_step)
