-- ===== src/Kernel/Env.antt =====
-- What the kernel's operations share: its configuration, uuid.NewV7, and authorization.go. The lock
-- of RunLocked is free when an operation starts and is given back when it ends, so an operation runs
-- alone; RunInTx of the in-memory store only runs its function.
use rebuno.Prelude.{if◌then◌else◌, none, not, ℕ, ◌+◌}
use rebuno.Action.{Action, for_each, of_result, ok, pure, reads, refuse_if, ◌>>=◌, ◌>>◌}
use rebuno.Auth.{Access, Role, authorize}
use rebuno.Context.{Context}
use rebuno.Domain.Payload.{dispatch_payload, event_dispatch_queued}
use rebuno.Domain.Records.{Dispatch, Execution, Lease, Time, Uuid, is_valid, validation}
use rebuno.Domain.Status.{DispatchStatus, is_exhausted}
use rebuno.Memstore.Dispatches.{enqueue, list_dispatches_by_execution, renew_lease, retire}
use rebuno.Memstore.Events.{append}
use rebuno.Memstore.Executions.{get_execution}
use rebuno.Memstore.Store.{Store}

-- The fields of kernel.Config that the modelled operations read, and uuid.NewV7 as a function of how
-- many identifiers were handed out before.
pub record Env : Type 0 where
  pub access : Access
  pub dispatch_max_attempts : ℕ
  pub default_approval_timeout : Time
  pub execution_deadline_timeout : Time
  pub new_v7 : ℕ → Uuid

module _ (env : Env) where
  -- uuid.Must(uuid.NewV7())
  unfoldable pub new_uuid : Action Store Uuid
  new_uuid s = (ok (env.new_v7 s.issued), record s { issued = s.issued + 1 })

module _ (env : Env) (ctx : Context) where
  -- authorizedExecution
  unfoldable pub authorized_execution : Uuid → Role → Action Store Execution
  authorized_execution id need = do
    exec ← reads (get_execution id)
    of_result (authorize env.access ctx need exec.agent_id)
    pure exec

  -- renewAuthorizedLease
  unfoldable pub renew_authorized_lease : Uuid → Lease → Action Store (Unit {0})
  renew_authorized_lease exec_id lease = do
    authorized_execution exec_id Role.write
    renew_lease exec_id lease ctx.now

  -- enqueueDispatchTx
  unfoldable pub enqueue_dispatch : Uuid → Time → Action Store (Unit {0})
  enqueue_dispatch exec_id at = do
    id ← new_uuid env
    enqueue ctx (record {
      id = id;
      execution_id = exec_id;
      status = DispatchStatus.pending;
      attempt = 0;
      max_attempts = env.dispatch_max_attempts;
      next_attempt_at = at;
      locked_by = none;
      locked_at = none;
      created_at = ctx.now;
      updated_at = ctx.now;
    })
    append ctx exec_id event_dispatch_queued (dispatch_payload id exec_id DispatchStatus.pending 0)
    pure tt

  -- one round of the loop of releaseDispatchesLocked
  unfoldable pub release_dispatch : Dispatch → Action Store (Unit {0})
  release_dispatch d = if is_exhausted d.status then pure tt else retire ctx d.id

  -- releaseDispatchesLocked
  unfoldable pub release_dispatches : Uuid → Action Store (Unit {0})
  release_dispatches exec_id = do
    dispatches ← reads (λ s. ok (list_dispatches_by_execution exec_id s))
    for_each release_dispatch dispatches

  -- Heartbeat
  unfoldable pub heartbeat : Uuid → Lease → Action Store (Unit {0})
  heartbeat exec_id lease = do
    refuse_if (not (is_valid lease)) validation
    renew_authorized_lease exec_id lease
