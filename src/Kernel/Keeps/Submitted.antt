-- ===== src/Kernel/Keeps/Submitted.antt =====
-- Submission and delivery keep what Keeps says.
use rebuno.Prelude.{
  Bool, List, Option, String, false, leb, length, ltb, none, refl, suc, zero, ℕ, ◌≡◌,
}
use rebuno.Action.{Result, caught, err, ok, ◌>>=◌}
use rebuno.Context.{Context}
use rebuno.Domain.Records.{
  Dispatch, EventRecord, Execution, Lease, Step, Time, Uuid, lease_superseded, not_found,
}
use rebuno.Domain.Status.{DispatchStatus, is_in_flight}
use rebuno.Kernel.Decision.{
  allow_step, decide_step, deny_step, hold_step, park_rate_limited, refuse_rate_limited,
  write_step_live,
}
use rebuno.Kernel.Deliver.{
  Courier, Outcome, after_sending, deliver, delivered, discard, exhaust, ignore_superseded,
  not_delivered, reclaim_all_stalled, reclaim_batch, reclaim_from, rejected, send, unreachable,
  with_agent,
}
use rebuno.Kernel.Env.{Env}
use rebuno.Kernel.Keeps.{Keeping}
use rebuno.Kernel.Keeps.Calls.{keeping}
use rebuno.Kernel.Keeps.Endings.{ended-Keeping, fail_tx-Keeping}
use rebuno.Kernel.Keeps.Queue.{ack-Keeping, reclaim-Keeping}
use rebuno.Kernel.Keeps.Rules.{bind-Keeping, caught-Keeping, if-Keeping}
use rebuno.Kernel.Keeps.Steps.{
  authorized_execution-Keeping, enqueue_dispatch-Keeping, handle_existing_step-Keeping,
  release_dispatches-Keeping, renew_authorized_lease-Keeping, start_step-Keeping,
}
use rebuno.Domain.Policy.{PolicyResult}
use rebuno.Kernel.Policy.{Services, SubmitStepRequest}
use rebuno.Kernel.Submit.{
  decide_found, decide_new, decide_submitted, decide_within_budget, limited, on_rate_limited,
  record_step_decision, submit_fenced, submit_step,
}
use rebuno.Memstore.Dispatches.{ack}

module _ (env : Env) (ctx : Context) where
  write_step_live-Keeping :
      (lease : Lease) (step : Step) (evts : List EventRecord)
      → Keeping (write_step_live env ctx lease step evts)
  unfolding write_step_live
  write_step_live-Keeping lease step evts = search (keeping, renew_authorized_lease-Keeping env ctx)

  allow_step-Keeping :
      (lease : Lease) (pol : PolicyResult) (step : Step)
      → Keeping (allow_step env ctx lease pol step)
  unfolding allow_step
  allow_step-Keeping lease pol step = search (keeping, start_step-Keeping env ctx)

  deny_step-Keeping :
      (lease : Lease) (pol : PolicyResult) (step : Step)
      → Keeping (deny_step env ctx lease pol step)
  unfolding deny_step
  deny_step-Keeping lease pol step = search (keeping, write_step_live-Keeping)

  hold_step-Keeping :
      (lease : Lease) (pol : PolicyResult) (step : Step)
      → Keeping (hold_step env ctx lease pol step)
  unfolding hold_step
  hold_step-Keeping lease pol step =
      search (keeping, renew_authorized_lease-Keeping env ctx, release_dispatches-Keeping env ctx)
        depth 10

  decide_step-Keeping :
      (lease : Lease) (pol : PolicyResult) (step : Step)
      → Keeping (decide_step env ctx lease pol step)
  unfolding decide_step
  decide_step-Keeping lease pol step =
      search (keeping, allow_step-Keeping, deny_step-Keeping, hold_step-Keeping)

  refuse_rate_limited-Keeping :
      (lease : Lease) (step : Step) (rule_id reason : String)
      → Keeping (refuse_rate_limited env ctx lease step rule_id reason)
  unfolding refuse_rate_limited
  refuse_rate_limited-Keeping lease step rule_id reason =
      search (keeping, renew_authorized_lease-Keeping env ctx)

  park_rate_limited-Keeping :
      (lease : Lease) (step : Step) (rule_id : String) (wait : Time)
      → Keeping (park_rate_limited env ctx lease step rule_id wait)
  unfolding park_rate_limited
  park_rate_limited-Keeping lease step rule_id wait =
      search
        (
          keeping,
          renew_authorized_lease-Keeping env ctx,
          release_dispatches-Keeping env ctx,
          enqueue_dispatch-Keeping env ctx,
        )
        depth 8

module _ (env : Env) (ctx : Context) (services : Services) where
  on_rate_limited-Keeping :
      (lease : Lease) (step : Step) (pol : PolicyResult) (wait : Time)
      → Keeping (on_rate_limited env ctx services lease step pol wait)
  unfolding on_rate_limited
  on_rate_limited-Keeping lease step pol wait =
      search (keeping, refuse_rate_limited-Keeping env ctx, park_rate_limited-Keeping env ctx) depth
        8

  module _ (exec : Execution) (lease : Lease) (pol : PolicyResult) (step : Step) where
    decide_within_budget-Keeping :
        Keeping (decide_within_budget env ctx services exec lease pol step)
    unfolding decide_within_budget
    decide_within_budget-Keeping = search (keeping, decide_step-Keeping env ctx)

    limited-Keeping :
        (r : Result (Bool × Time)) → Keeping (limited env ctx services exec lease pol step r)
    limited-Keeping (err e) =
        search (keeping, refuse_rate_limited-Keeping env ctx, decide_within_budget-Keeping)
    limited-Keeping (ok (accepted, wait)) =
        search (keeping, decide_within_budget-Keeping, on_rate_limited-Keeping)

    record_step_decision-Keeping :
        Keeping (record_step_decision env ctx services exec lease pol step)
    unfolding record_step_decision
    record_step_decision-Keeping = search (keeping, limited-Keeping, decide_within_budget-Keeping)

  module _ (exec : Execution) (req : SubmitStepRequest) (hash : String) (step : Step) where
    decide_new-Keeping : Keeping (decide_new env ctx services exec req hash step)
    unfolding decide_new
    decide_new-Keeping = search (keeping, record_step_decision-Keeping) depth 8

    decide_found-Keeping :
        (found : Result Step) → Keeping (decide_found env ctx services exec req hash step found)
    decide_found-Keeping (ok existing) = search (keeping, handle_existing_step-Keeping env ctx)
    decide_found-Keeping (err not_found) = search (keeping, decide_new-Keeping)
    decide_found-Keeping (err _) = search keeping

    decide_submitted-Keeping : Keeping (decide_submitted env ctx services exec req hash step)
    unfolding decide_submitted
    decide_submitted-Keeping = search (keeping, decide_found-Keeping)

  submit_fenced-Keeping :
      (exec : Execution) (req : SubmitStepRequest)
      → Keeping (submit_fenced env ctx services exec req)
  unfolding submit_fenced
  submit_fenced-Keeping exec req = search (keeping, decide_submitted-Keeping) depth 8

  pub submit_step-Keeping :
      (id : Uuid) (req : SubmitStepRequest) → Keeping (submit_step env ctx services id req)
  unfolding submit_step
  submit_step-Keeping id req =
      search (keeping, authorized_execution-Keeping env ctx, submit_fenced-Keeping) depth 8

ignore_superseded-Keeping : (r : Result (Unit {0})) → Keeping (ignore_superseded r)
ignore_superseded-Keeping (ok _) = search keeping
ignore_superseded-Keeping (err lease_superseded) = search keeping
ignore_superseded-Keeping (err _) = search keeping

module _ (env : Env) (ctx : Context) where
  acked-Keeping :
      (d : Dispatch) (status : DispatchStatus) (next : Option Time)
      → is_in_flight status ≡ false
      → Keeping (caught (ack ctx d.id d.attempt status next) >>= ignore_superseded)
  acked-Keeping d status next f =
      bind-Keeping _ _ (caught-Keeping _ (ack-Keeping ctx d.id d.attempt status next f))
        ignore_superseded-Keeping

  discard-Keeping : (d : Dispatch) → Keeping (discard env ctx d)
  unfolding discard
  discard-Keeping d =
      bind-Keeping _ _ (search keeping) (λ _. acked-Keeping d DispatchStatus.exhausted none refl)

  exhaust-Keeping : (agent_id : String) (d : Dispatch) → Keeping (exhaust env ctx agent_id d)
  unfolding exhaust
  exhaust-Keeping agent_id d = search (
    keeping,
    fail_tx-Keeping env (with_agent agent_id ctx),
    ended-Keeping env (with_agent agent_id ctx),
    ignore_superseded-Keeping,
  )

  not_delivered-Keeping :
      (courier : Courier) (agent_id : String) (d : Dispatch)
      → Keeping (not_delivered env ctx courier agent_id d)
  unfolding not_delivered
  not_delivered-Keeping courier agent_id d = bind-Keeping _ _ (search keeping) λ _.
      if-Keeping (leb d.max_attempts d.attempt) _ _ (exhaust-Keeping agent_id d)
        (acked-Keeping d DispatchStatus.failed _ refl)

  after_sending-Keeping :
      (courier : Courier) (agent_id : String) (d : Dispatch) (o : Outcome)
      → Keeping (after_sending env ctx courier agent_id d o)
  after_sending-Keeping courier agent_id d delivered = search keeping
  after_sending-Keeping courier agent_id d rejected = not_delivered-Keeping courier agent_id d
  after_sending-Keeping courier agent_id d unreachable = not_delivered-Keeping courier agent_id d

  send-Keeping :
      (courier : Courier) (agent_id : String) (d : Dispatch)
      → Keeping (send env ctx courier agent_id d)
  unfolding send
  send-Keeping courier agent_id d = search (keeping, after_sending-Keeping)

  pub deliver-Keeping : (courier : Courier) (d : Dispatch) → Keeping (deliver env ctx courier d)
  unfolding deliver
  deliver-Keeping courier d = search (keeping, discard-Keeping, exhaust-Keeping, send-Keeping)

reclaim_from-Keeping : (fuel : ℕ) (now allowance : Time) → Keeping (reclaim_from fuel now allowance)
unfolding reclaim_from
reclaim_from-Keeping zero now allowance = search keeping
reclaim_from-Keeping (suc fuel) now allowance =
    bind-Keeping _ _ (reclaim-Keeping now allowance reclaim_batch) λ found.
      if-Keeping (ltb (length found) reclaim_batch) _ _ (search keeping)
        (reclaim_from-Keeping fuel now allowance)

pub reclaim_all_stalled-Keeping :
    (now allowance : Time) → Keeping (reclaim_all_stalled now allowance)
unfolding reclaim_all_stalled
reclaim_all_stalled-Keeping now allowance = search (keeping, reclaim_from-Keeping)
