-- ===== src/Kernel/Reach.antt =====
-- The stores that the kernel's operations lead to, one after another: each runs alone, under the lock
-- of its execution, in any order and with any arguments, and its changes count whether it succeeds
-- or fails.
use rebuno.Prelude.{String, string_eq, ℕ, ℕ_eq}
use rebuno.Context.{Context}
use rebuno.Domain.Json.{RawMessage}
use rebuno.Domain.Records.{Dispatch, Execution, Lease, Time, Uuid}
use rebuno.Kernel.Approval.{DecisionRequest, deny_approval, grant_approval}
use rebuno.Kernel.Create.{Agents, CreateOptions, client_create}
use rebuno.Kernel.Deliver.{Courier, deliver, reclaim_all_stalled}
use rebuno.Kernel.Env.{Env, heartbeat}
use rebuno.Kernel.Execution.{admit_next}
use rebuno.Kernel.Keeps.{Keeps, Keeps-preorder, StepsKeyed}
use rebuno.Kernel.Keeps.Approvals.{deny_approval-Keeping, grant_approval-Keeping}
use rebuno.Kernel.Keeps.Calls.{create_execution-Keeping}
use rebuno.Kernel.Keeps.Created.{client_create-Keeping}
use rebuno.Kernel.Keeps.Endings.{
  admit_next-Keeping, cancel_expired_executions-Keeping, client_cancel-Keeping,
  complete_execution-Keeping, expire_approvals-Keeping, fail_execution-Keeping,
  settle_subagents-Keeping,
}
use rebuno.Kernel.Keeps.Queue.{claim-Keeping}
use rebuno.Kernel.Keeps.Steps.{
  complete_step-Keeping, fail_step-Keeping, heartbeat-Keeping, suspend-Keeping,
}
use rebuno.Kernel.Keeps.Submitted.{
  deliver-Keeping, reclaim_all_stalled-Keeping, submit_step-Keeping,
}
use rebuno.Kernel.Policy.{Services, SubmitStepRequest}
use rebuno.Kernel.Step.{CompleteStepRequest, FailStepRequest, complete_step, fail_step}
use rebuno.Kernel.Submit.{submit_step}
use rebuno.Kernel.Suspend.{suspend}
use rebuno.Kernel.Sweeps.{admit_queued, admit_queued-Keeping}
use rebuno.Kernel.Terminal.{
  cancel_expired_executions, client_cancel, complete_execution, expire_approvals, fail_execution,
  settle_subagents,
}
use rebuno.Memstore.Dispatches.{claim}
use rebuno.Memstore.Dispatches.Locked.{QueueInv, new_store-QueueInv}
use rebuno.Memstore.Events.Log.{IsNumbered}
use rebuno.Memstore.Executions.{create_execution}
use rebuno.Memstore.Executions.Session.{SessionInv}
use rebuno.Memstore.Store.{Store, new_store}
use rebuno.Prelude.Dict.{lookup}

-- One operation of the kernel other than Cleanup, which Kernel/Retention adds. Forks and the
-- registration of resources by a worker are not modelled and are left out.
pub data KernelStep (env : Env) : Store → Store → Type 0 where
  creates :
      (ctx : Context) (exec : Execution) (s : Store)
      → KernelStep env s (create_execution ctx exec s).1
  creates_new :
      (ctx : Context) (agents : Agents) (agent_id : String) (input : RawMessage)
      (opts : CreateOptions) (s : Store)
      → KernelStep env s (client_create env ctx agents agent_id input opts s).1
  admits :
      (ctx : Context) (session : String) (s : Store)
      → KernelStep env s (admit_next env ctx session s).1
  admits_queued : (ctx : Context) (s : Store) → KernelStep env s (admit_queued env ctx s).1
  submits :
      (ctx : Context) (services : Services) (id : Uuid) (req : SubmitStepRequest) (s : Store)
      → KernelStep env s (submit_step env ctx services id req s).1
  completes_step :
      (ctx : Context) (parse_usage : RawMessage → ℕ × ℕ) (id : String) (req : CompleteStepRequest)
      (s : Store)
      → KernelStep env s (complete_step env ctx parse_usage id req s).1
  fails_step :
      (ctx : Context) (id : String) (req : FailStepRequest) (s : Store)
      → KernelStep env s (fail_step env ctx id req s).1
  suspends :
      (ctx : Context) (id : Uuid) (lease : Lease) (s : Store)
      → KernelStep env s (suspend env ctx id lease s).1
  beats :
      (ctx : Context) (id : Uuid) (lease : Lease) (s : Store)
      → KernelStep env s (heartbeat env ctx id lease s).1
  grants_approval :
      (ctx : Context) (id : Uuid) (req : DecisionRequest) (s : Store)
      → KernelStep env s (grant_approval env ctx id req s).1
  denies_approval :
      (ctx : Context) (id : Uuid) (req : DecisionRequest) (s : Store)
      → KernelStep env s (deny_approval env ctx id req s).1
  expires_approvals : (ctx : Context) (s : Store) → KernelStep env s (expire_approvals env ctx s).1
  completes :
      (ctx : Context) (id : Uuid) (lease : Lease) (output state : RawMessage) (s : Store)
      → KernelStep env s (complete_execution env ctx id lease output state s).1
  fails :
      (ctx : Context) (id : Uuid) (lease : Lease) (reason : String) (s : Store)
      → KernelStep env s (fail_execution env ctx id lease reason s).1
  cancels :
      (ctx : Context) (id : Uuid) (s : Store) → KernelStep env s (client_cancel env ctx id s).1
  cancels_expired :
      (ctx : Context) (s : Store) → KernelStep env s (cancel_expired_executions env ctx s).1
  settles : (ctx : Context) (s : Store) → KernelStep env s (settle_subagents env ctx s).1
  claims_due :
      (replica : String) (batch : ℕ) (now : Time) (s : Store)
      → KernelStep env s (claim replica batch now s).1
  delivers :
      (ctx : Context) (courier : Courier) (d : Dispatch) (s : Store)
      → KernelStep env s (deliver env ctx courier d s).1
  reclaims_all :
      (now allowance : Time) (s : Store) → KernelStep env s (reclaim_all_stalled now allowance s).1

pub data Reach (env : Env) (s : Store) : Store → Type 0 where
  start : Reach env s s
  then_step : {t u : Store} → Reach env s t → KernelStep env t u → Reach env s u

pub KernelStep-Keeps : (env : Env) {s t : Store} → KernelStep env s t → Keeps s t
KernelStep-Keeps env (creates ctx exec s) = (create_execution-Keeping ctx exec).at s
KernelStep-Keeps env (creates_new ctx agents agent_id input opts s) =
    (client_create-Keeping env ctx agents agent_id input opts).at s
KernelStep-Keeps env (admits ctx session s) = (admit_next-Keeping env ctx session).at s
KernelStep-Keeps env (admits_queued ctx s) = (admit_queued-Keeping env ctx).at s
KernelStep-Keeps env (submits ctx services id req s) =
    (submit_step-Keeping env ctx services id req).at s
KernelStep-Keeps env (completes_step ctx parse_usage id req s) =
    (complete_step-Keeping env ctx parse_usage id req).at s
KernelStep-Keeps env (fails_step ctx id req s) = (fail_step-Keeping env ctx id req).at s
KernelStep-Keeps env (suspends ctx id lease s) = (suspend-Keeping env ctx id lease).at s
KernelStep-Keeps env (beats ctx id lease s) = (heartbeat-Keeping env ctx id lease).at s
KernelStep-Keeps env (grants_approval ctx id req s) = (grant_approval-Keeping env ctx id req).at s
KernelStep-Keeps env (denies_approval ctx id req s) = (deny_approval-Keeping env ctx id req).at s
KernelStep-Keeps env (expires_approvals ctx s) = (expire_approvals-Keeping env ctx).at s
KernelStep-Keeps env (completes ctx id lease output state s) =
    (complete_execution-Keeping env ctx id lease output state).at s
KernelStep-Keeps env (fails ctx id lease reason s) =
    (fail_execution-Keeping env ctx id lease reason).at s
KernelStep-Keeps env (cancels ctx id s) = (client_cancel-Keeping env ctx id).at s
KernelStep-Keeps env (cancels_expired ctx s) = (cancel_expired_executions-Keeping env ctx).at s
KernelStep-Keeps env (settles ctx s) = (settle_subagents-Keeping env ctx).at s
KernelStep-Keeps env (claims_due replica batch now s) = (claim-Keeping replica batch now).at s
KernelStep-Keeps env (delivers ctx courier d s) = (deliver-Keeping env ctx courier d).at s
KernelStep-Keeps env (reclaims_all now allowance s) =
    (reclaim_all_stalled-Keeping now allowance).at s

pub Reach-Keeps : (env : Env) {s t : Store} → Reach env s t → Keeps s t
Reach-Keeps env start = Keeps-preorder.same _
Reach-Keeps env (then_step r k) =
    Keeps-preorder.chain _ _ _ (Reach-Keeps env r) (KernelStep-Keeps env k)

pub new_store-SessionInv : SessionInv new_store
new_store-SessionInv = record { keyed = tt; alone = λ a b x y p. unfold lookup in cc }

pub new_store-IsNumbered : IsNumbered new_store
new_store-IsNumbered id = unfold lookup in tt

pub reachable-IsNumbered : (env : Env) (s : Store) → Reach env new_store s → IsNumbered s
reachable-IsNumbered env s r = (Reach-Keeps env r).numbered new_store-IsNumbered

pub reachable-SessionInv : (env : Env) (s : Store) → Reach env new_store s → SessionInv s
reachable-SessionInv env s r = (Reach-Keeps env r).sessions new_store-SessionInv

pub reachable-QueueInv : (env : Env) (s : Store) → Reach env new_store s → QueueInv s
reachable-QueueInv env s r = (Reach-Keeps env r).queue new_store-QueueInv

pub reachable-StepsKeyed : (env : Env) (s : Store) → Reach env new_store s → StepsKeyed s
reachable-StepsKeyed env s r = (Reach-Keeps env r).keyed tt
