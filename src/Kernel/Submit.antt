-- ===== src/Kernel/Submit.antt =====
-- SubmitStep of internal/kernel/step.go, with what it asks of other parts as arguments. Logs and
-- metrics are left out.
use rebuno.Prelude.{
  Bool, String, false, if◌then◌else◌, ltb, min, not, string_eq, true, ℕ, ℕ_eq, ◌&&◌, ◌+◌, ◌/◌, ◌==◌,
  ◌||◌,
}
use rebuno.Action.{
  Action, Result, caught, err, of_result, ok, or_raise, pure, raise, reads, refuse_if, ◌>>=◌, ◌>>◌,
}
use rebuno.Auth.{Role}
use rebuno.Context.{Context}
use rebuno.Domain.Payload.{event_step_rate_limited}
use rebuno.Domain.Records.{
  Execution, Lease, Step, StepDecision, Time, Uuid, is_valid, not_found, validation,
}
use rebuno.Domain.Status.{is_blocked, is_terminal}
use rebuno.Kernel.Decision.{decide_step, park_rate_limited, refuse_rate_limited}
use rebuno.Kernel.Env.{Env, authorized_execution}
use rebuno.Domain.Policy.{PolicyResult}
use rebuno.Kernel.Policy.{
  Services, SubmitStepRequest, budgeted, indeterminate_retry, proposed_step, retry_refused,
  undeclared,
}
use rebuno.Kernel.Step.{handle_existing_step, no_decision}
use rebuno.Memstore.Dispatches.{renew_lease}
use rebuno.Memstore.Events.{count_by_type}
use rebuno.Memstore.Resources.{list_resources}
use rebuno.Memstore.Steps.{advance_dispatch_occurrence, dispatch_occurrence, get_step}
use rebuno.Memstore.Store.{CounterKey, Store}

module _ (env : Env) (ctx : Context) (services : Services) where
  abbrev parked_too_long : PolicyResult → ℕ → Time → Bool
  parked_too_long pol parked wait = ltb 0 parked || ltb pol.rate_limit.max_wait wait

  -- onRateLimited
  unfoldable pub on_rate_limited : Lease → Step → PolicyResult → Time → Action Store StepDecision
  on_rate_limited lease step pol given =
      let limit = pol.rate_limit in
      let wait = if given == 0 then limit.window / limit.max_calls else given in
      let refuse = refuse_rate_limited env ctx lease step pol.rule_id "rate_limit_exceeded" in
      if limit.max_wait == 0 then refuse else do
        parked ← reads (λ s. ok (count_by_type step.execution_id event_step_rate_limited s))
        if parked_too_long pol parked wait
            then refuse
            else park_rate_limited env ctx lease step pol.rule_id
                (min (wait + services.random (wait / 2 + 1)) limit.max_wait)

  -- recordStepDecision after the rate limit; true where the step is recorded
  unfoldable pub decide_within_budget :
      Execution → Lease → PolicyResult → Step → Action Store (StepDecision × Bool)
  decide_within_budget exec lease pol step = do
    pol' ← reads (λ s. ok (budgeted exec s pol))
    dec ← decide_step env ctx lease pol' step
    pure (dec, true)

  abbrev unrecorded : Action Store StepDecision → Action Store (StepDecision × Bool)
  unrecorded m = m >>= λ dec. pure (dec, false)

  abbrev pub limited :
      Execution
      → Lease
      → PolicyResult
      → Step
      → Result (Bool × Time)
      → Action Store (StepDecision × Bool)
  limited exec lease pol step (err e) =
      if pol.rate_limit.on_limiter_error == "deny"
      then unrecorded
          (refuse_rate_limited env ctx lease step pol.rule_id "rate_limiter_unavailable")
      else decide_within_budget exec lease pol step
  limited exec lease pol step (ok (accepted, wait)) =
      if accepted
      then decide_within_budget exec lease pol step
      else unrecorded (on_rate_limited lease step pol wait)

  -- recordStepDecision
  unfoldable pub record_step_decision :
      Execution → Lease → PolicyResult → Step → Action Store (StepDecision × Bool)
  record_step_decision exec lease pol step =
      if ltb 0 pol.rate_limit.max_calls
      then limited exec lease pol step (services.limit pol exec)
      else decide_within_budget exec lease pol step

  -- the end of decideStep, for a step that is new
  unfoldable pub decide_new :
      Execution → SubmitStepRequest → String → Step → Action Store (StepDecision × Bool)
  decide_new exec req hash step = do
    resources ← reads (λ s. ok (list_resources exec.id s))
    refuse_if (undeclared resources req.resources) validation
    retry ←
        reads
          (λ s. ok (req.idempotency == "at_most_once" && indeterminate_retry exec.id req hash s))
    if retry then record_step_decision exec req.lease retry_refused step else do
      pol ← reads (services.evaluate exec req)
      record_step_decision exec req.lease pol step

  abbrev pub decide_found :
      Execution
      → SubmitStepRequest
      → String
      → Step
      → Result Step
      → Action Store (StepDecision × Bool)
  decide_found exec req hash step (ok existing) =
      handle_existing_step env ctx existing req.lease req.idempotency >>= λ dec. pure (dec, true)
  decide_found exec req hash step (err not_found) =
      if is_blocked exec.status
      then pure (record no_decision { decision = "execution_blocked" }, false)
      else decide_new exec req hash step
  decide_found exec req hash step (err e) = raise e

  -- decideStep
  unfoldable pub decide_submitted :
      Execution → SubmitStepRequest → String → Step → Action Store (StepDecision × Bool)
  decide_submitted exec req hash step = do
    found ← caught (reads (get_step step.step_id))
    decide_found exec req hash step found

  abbrev pub defaulted : SubmitStepRequest → SubmitStepRequest
  defaulted req = record req {
    idempotency = if req.idempotency == "" then "safe_to_retry" else req.idempotency;
  }

  abbrev pub occurrence_key : SubmitStepRequest → String → CounterKey
  occurrence_key req hash = record {
    dispatch_id = req.lease.dispatch_id;
    kind = req.kind;
    target = req.target;
    args_hash = hash;
  }

  -- the locked part of SubmitStep after the fence
  unfoldable pub submit_fenced : Execution → SubmitStepRequest → Action Store StepDecision
  submit_fenced exec req = do
    hash ← of_result (or_raise validation (services.args_hash req.args))
    occurrence ← reads (λ s. ok (dispatch_occurrence (occurrence_key req hash) s))
    let id = services.step_id exec.id req.kind req.target hash occurrence
    done ← decide_submitted exec req hash (proposed_step exec.id id req hash occurrence)
    if done.1
        then (do
          advance_dispatch_occurrence exec.id req.lease req.kind req.target hash occurrence
          pure (record done.0 { step_id = id }))
        else pure done.0

  -- SubmitStep
  unfoldable pub submit_step : Uuid → SubmitStepRequest → Action Store StepDecision
  submit_step exec_id req = do
    refuse_if (not (is_valid req.lease)) validation
    exec ← authorized_execution env ctx exec_id Role.write
    if is_terminal exec.status
        then pure (record no_decision { decision = "execution_terminal" })
        else (do renew_lease exec_id req.lease ctx.now; submit_fenced exec (defaulted req))
