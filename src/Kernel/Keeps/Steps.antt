-- ===== src/Kernel/Keeps/Steps.antt =====
-- The operations on steps, and suspension, keep what Keeps says.
use rebuno.Prelude.{Bool, List, String, [], refl, string_eq, ℕ, ℕ_eq, ◌==◌, ◌∷◌}
use rebuno.Auth.{Role}
use rebuno.Context.{Context}
use rebuno.Domain.Json.{RawMessage}
use rebuno.Domain.Records.{Dispatch, EventRecord, Lease, Resource, Step, StepResource, Time, Uuid}
use rebuno.Domain.Status.{StepStatus}
use rebuno.Kernel.Env.{
  Env, authorized_execution, enqueue_dispatch, heartbeat, release_dispatch, release_dispatches,
  renew_authorized_lease,
}
use rebuno.Kernel.Keeps.{Keeping}
use rebuno.Kernel.Keeps.Calls.{add_checkpoint-Keeping, enqueue-Keeping, keeping, new_uuid-Keeping}
use rebuno.Kernel.Keeps.Rules.{bind-Keeping, if-Keeping, option-Keeping}
use rebuno.Kernel.Resource.{
  ResourceCapture, ResourceCaptureFailure, count_effect, find_resource, record_captures,
  record_each, refusal, settle_effect,
}
use rebuno.Kernel.Step.{
  CompleteStepRequest, FailStepRequest, advance_generation, complete_step, fail_step,
  fail_step_internal, handle_existing_step, handle_status, record_start, settle_step,
  settle_step_recorded, start_step,
}
use rebuno.Kernel.Suspend.{block, resume, resume_if_idle, suspend}

module _ (env : Env) (ctx : Context) where
  pub authorized_execution-Keeping :
      (id : Uuid) (need : Role) → Keeping (authorized_execution env ctx id need)
  unfolding authorized_execution
  authorized_execution-Keeping id need = search keeping

  pub renew_authorized_lease-Keeping :
      (id : Uuid) (lease : Lease) → Keeping (renew_authorized_lease env ctx id lease)
  unfolding renew_authorized_lease
  renew_authorized_lease-Keeping id lease = search (keeping, authorized_execution-Keeping)

  pub enqueue_dispatch-Keeping : (id : Uuid) (at : Time) → Keeping (enqueue_dispatch env ctx id at)
  unfolding enqueue_dispatch
  enqueue_dispatch-Keeping id at =
      bind-Keeping _ _ (new_uuid-Keeping env)
        (λ d. bind-Keeping _ _ (enqueue-Keeping ctx _ refl) (λ _. search keeping))

  release_dispatch-Keeping : (d : Dispatch) → Keeping (release_dispatch env ctx d)
  unfolding release_dispatch
  release_dispatch-Keeping d = search keeping

  pub release_dispatches-Keeping : (id : Uuid) → Keeping (release_dispatches env ctx id)
  unfolding release_dispatches
  release_dispatches-Keeping id = search (keeping, release_dispatch-Keeping)

  pub heartbeat-Keeping : (id : Uuid) (lease : Lease) → Keeping (heartbeat env ctx id lease)
  unfolding heartbeat
  heartbeat-Keeping id lease = search (keeping, renew_authorized_lease-Keeping)

  resume-Keeping : (id : Uuid) → Keeping (resume env ctx id)
  unfolding resume
  resume-Keeping id = search (keeping, enqueue_dispatch-Keeping)

  pub resume_if_idle-Keeping : (id : Uuid) → Keeping (resume_if_idle env ctx id)
  unfolding resume_if_idle
  resume_if_idle-Keeping id = search (keeping, resume-Keeping)

  block-Keeping : (id : Uuid) → Keeping (block env ctx id)
  unfolding block
  block-Keeping id = search (keeping, release_dispatches-Keeping)

  pub suspend-Keeping : (id : Uuid) (lease : Lease) → Keeping (suspend env ctx id lease)
  unfolding suspend
  suspend-Keeping id lease =
      search (keeping, authorized_execution-Keeping, renew_authorized_lease-Keeping, block-Keeping)
        depth 7

count_effect-Keeping : (step : Step) (r : Resource) → Keeping (count_effect step r)
count_effect-Keeping step r = search keeping

pub settle_effect-Keeping : (step : Step) → Keeping (settle_effect step)
unfolding settle_effect
settle_effect-Keeping step = search (keeping, count_effect-Keeping)

record_each-Keeping :
    (id : Uuid) (seq : ℕ) (rs : List Resource) (writing recorded : List String)
    (cs : List ResourceCapture)
    → Keeping (record_each id seq rs writing recorded cs)
unfolding record_each
record_each-Keeping id seq rs writing recorded [] = search keeping
record_each-Keeping id seq rs writing recorded (c ∷ cs) =
    if-Keeping (refusal rs writing recorded c == "") _ _
      (bind-Keeping _ _ (add_checkpoint-Keeping _) (λ _.
        bind-Keeping _ _ (record_each-Keeping id seq rs writing (c.key ∷ recorded) cs)
          (λ rest. search keeping)))
      (bind-Keeping _ _ (record_each-Keeping id seq rs writing recorded cs)
        (λ rest. search keeping))

pub record_captures-Keeping :
    (ctx : Context) (id : Uuid) (seq : ℕ) (cs : List ResourceCapture)
    (fs : List ResourceCaptureFailure)
    → Keeping (record_captures ctx id seq cs fs)
unfolding record_captures
record_captures-Keeping ctx id seq cs fs = search (keeping, record_each-Keeping) depth 7

advance_generation-Keeping :
    (seq : ℕ) (rs : List Resource) (t : StepResource) → Keeping (advance_generation seq rs t)
advance_generation-Keeping seq rs t =
    option-Keeping (find_resource rs t.key) _ _ (search keeping) (λ r. search keeping)

module _ (env : Env) (ctx : Context) where
  record_start-Keeping :
      (rs : List Resource) (touched : List StepResource) (step : Step) (evts : List EventRecord)
      → Keeping (record_start env ctx rs touched step evts)
  unfolding record_start
  record_start-Keeping rs touched step evts = search (keeping, advance_generation-Keeping)

  pub start_step-Keeping :
      (lease : Lease) (step : Step) (evts : List EventRecord) (restart : Bool)
      → Keeping (start_step env ctx lease step evts restart)
  unfolding start_step
  start_step-Keeping lease step evts restart =
      search (keeping, renew_authorized_lease-Keeping env ctx, record_start-Keeping)

  pub settle_step-Keeping :
      (step : Step) (r : EventRecord) (cs : List ResourceCapture) (fs : List ResourceCaptureFailure)
      → Keeping (settle_step env ctx step r cs fs)
  unfolding settle_step
  settle_step-Keeping step r cs fs =
      search (keeping, settle_effect-Keeping, record_captures-Keeping)

  settle_step_recorded-Keeping :
      (lease : Lease) (step : Step) (r : EventRecord) (cs : List ResourceCapture)
      (fs : List ResourceCaptureFailure)
      → Keeping (settle_step_recorded env ctx lease step r cs fs)
  unfolding settle_step_recorded
  settle_step_recorded-Keeping lease step r cs fs =
      search (keeping, authorized_execution-Keeping env ctx, settle_step-Keeping)

  fail_step_internal-Keeping :
      (lease : Lease) (step : Step) (error : RawMessage)
      → Keeping (fail_step_internal env ctx lease step error)
  unfolding fail_step_internal
  fail_step_internal-Keeping lease step error =
      search (keeping, renew_authorized_lease-Keeping env ctx, settle_step-Keeping)

  handle_status-Keeping :
      (status : StepStatus) (step : Step) (lease : Lease) (idempotency : String)
      → Keeping (handle_status env ctx status step lease idempotency)
  unfolding handle_status
  handle_status-Keeping StepStatus.succeeded step lease idempotency = search keeping
  handle_status-Keeping StepStatus.failed step lease idempotency = search keeping
  handle_status-Keeping StepStatus.denied step lease idempotency = search keeping
  handle_status-Keeping StepStatus.cancelled step lease idempotency = search keeping
  handle_status-Keeping StepStatus.awaiting_approval step lease idempotency = search keeping
  handle_status-Keeping StepStatus.allowed step lease idempotency =
      search (keeping, start_step-Keeping)
  handle_status-Keeping StepStatus.proposed step lease idempotency =
      search (keeping, start_step-Keeping)
  handle_status-Keeping StepStatus.executing step lease idempotency =
      search (keeping, start_step-Keeping, fail_step_internal-Keeping)

  pub handle_existing_step-Keeping :
      (step : Step) (lease : Lease) (idempotency : String)
      → Keeping (handle_existing_step env ctx step lease idempotency)
  unfolding handle_existing_step
  handle_existing_step-Keeping step lease idempotency =
      handle_status-Keeping step.status step lease idempotency

  pub complete_step-Keeping :
      (parse_usage : RawMessage → ℕ × ℕ) (id : String) (req : CompleteStepRequest)
      → Keeping (complete_step env ctx parse_usage id req)
  unfolding complete_step
  complete_step-Keeping parse_usage id req =
      search (keeping, authorized_execution-Keeping env ctx, settle_step_recorded-Keeping) depth 8

  pub fail_step-Keeping : (id : String) (req : FailStepRequest) → Keeping (fail_step env ctx id req)
  unfolding fail_step
  fail_step-Keeping id req =
      search (keeping, authorized_execution-Keeping env ctx, settle_step_recorded-Keeping) depth 8
