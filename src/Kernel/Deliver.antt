-- ===== src/Kernel/Deliver.antt =====
-- internal/kernel/dispatch.go: the delivery of a claimed dispatch and the reclaiming of stalled ones.
-- The delivery to the agent's webhook and the delay before the next attempt are arguments. Logs and
-- metrics are left out; a cancelled context only ends the loop of reclaimAllStalled early.
use rebuno.Prelude.{
  String, [], false, if◌then◌else◌, leb, length, ltb, none, some, suc, zero, ℕ, ◌+◌,
}
use rebuno.Action.{Action, Result, caught, err, ok, pure, raise, reads, ◌>>=◌, ◌>>◌}
use rebuno.Context.{Context}
use rebuno.Domain.Payload.{
  dispatch_payload, event_dispatch_acked, event_dispatch_discarded, event_dispatch_failed,
}
use rebuno.Domain.Records.{Agent, Dispatch, Lease, Time, Uuid, lease_superseded, out_of_fuel}
use rebuno.Domain.Status.{DispatchStatus, is_terminal}
use rebuno.Kernel.Env.{Env}
use rebuno.Kernel.Terminal.{after_terminal, cancel_execution, fail_tx}
use rebuno.Memstore.Agents.{get_agent}
use rebuno.Memstore.Dispatches.{ack, reclaim_stalled}
use rebuno.Memstore.Events.{append}
use rebuno.Memstore.Executions.{get_execution}
use rebuno.Memstore.Store.{Store}
use rebuno.Prelude.Dict.{values}

-- dispatcher.Outcome
pub data Outcome : Type 0 where
  delivered rejected unreachable : Outcome

-- Dispatcher.Deliver and dispatcher.BackoffDelay.
pub record Courier : Type 0 where
  pub send : Agent → Uuid → Lease → Outcome
  pub backoff : ℕ → Time

-- ignoreSuperseded
abbrev pub ignore_superseded : Result (Unit {0}) → Action Store (Unit {0})
ignore_superseded (err lease_superseded) = pure tt
ignore_superseded (err e) = raise e
ignore_superseded (ok _) = pure tt

abbrev pub lease_of : Dispatch → Lease
lease_of d = record { dispatch_id = d.id; attempt = d.attempt }

-- auth.WithAgent
abbrev pub with_agent : String → Context → Context
with_agent agent_id ctx = record ctx {
  principal = some (record {
    agent_id = agent_id;
    admin = false;
    scopes = [];
    client = false;
    key_id = "";
    user = "";
    groups = [];
  });
}

-- reclaimBatch
abbrev pub reclaim_batch : ℕ
reclaim_batch = 100

module _ (env : Env) (ctx : Context) where
  -- what deliver does with an execution that has ended
  unfoldable pub discard : Dispatch → Action Store (Unit {0})
  discard d = do
    append ctx d.execution_id event_dispatch_discarded
        (dispatch_payload d.id d.execution_id DispatchStatus.exhausted d.attempt)
    r ← caught (ack ctx d.id d.attempt DispatchStatus.exhausted none)
    ignore_superseded r

  -- failExecution for a dispatch that has no attempt left
  unfoldable pub exhaust : String → Dispatch → Action Store (Unit {0})
  exhaust agent_id d = do
    r ← caught (
        fail_tx env (with_agent agent_id ctx) d.execution_id (lease_of d) "dispatch_exhausted"
        >>= after_terminal env (with_agent agent_id ctx)
            (cancel_execution env (with_agent agent_id ctx)))
    ignore_superseded r

  -- what deliver does when the agent did not take the dispatch
  unfoldable pub not_delivered : Courier → String → Dispatch → Action Store (Unit {0})
  not_delivered courier agent_id d = do
    append ctx d.execution_id event_dispatch_failed
        (dispatch_payload d.id d.execution_id DispatchStatus.failed d.attempt)
    if leb d.max_attempts d.attempt then exhaust agent_id d else (do
      r ← caught (
          ack ctx d.id d.attempt DispatchStatus.failed (some (ctx.now + courier.backoff d.attempt)))
      ignore_superseded r)

  abbrev pub after_sending : Courier → String → Dispatch → Outcome → Action Store (Unit {0})
  after_sending courier agent_id d delivered = do
    append ctx d.execution_id event_dispatch_acked
        (dispatch_payload d.id d.execution_id DispatchStatus.acked d.attempt)
    pure tt
  after_sending courier agent_id d _ = not_delivered courier agent_id d

  unfoldable pub send : Courier → String → Dispatch → Action Store (Unit {0})
  send courier agent_id d = do
    agent ← reads (get_agent agent_id)
    after_sending courier agent_id d (courier.send agent d.execution_id (lease_of d))

  -- deliver
  unfoldable pub deliver : Courier → Dispatch → Action Store (Unit {0})
  deliver courier d = do
    exec ← reads (get_execution d.execution_id)
    if is_terminal exec.status
        then discard d
        else if ltb d.max_attempts d.attempt
        then exhaust exec.agent_id d
        else send courier exec.agent_id d

-- The loop of reclaimAllStalled, with fuel for its rounds.
unfoldable pub reclaim_from : ℕ → Time → Time → Action Store (Unit {0})
reclaim_from zero now allowance = raise out_of_fuel
reclaim_from (suc fuel) now allowance = do
  found ← reclaim_stalled now allowance reclaim_batch
  if ltb (length found) reclaim_batch then pure tt else reclaim_from fuel now allowance

-- reclaimAllStalled. A round puts back every dispatch that it returns, so each round but the last
-- leaves 100 fewer in flight.
unfoldable pub reclaim_all_stalled : Time → Time → Action Store (Unit {0})
reclaim_all_stalled now allowance = do
  fuel ← reads (λ s. ok (suc (length (values s.dispatches))))
  reclaim_from fuel now allowance
