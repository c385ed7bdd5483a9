-- ===== src/Kernel/Keeps/Calls.antt =====
-- The calls of the store that the kernel's operations are made of keep what Keeps says.
use rebuno.Prelude.{List, String, arith, false, inl, inr, refl, string_eq, ℕ, ℕ_eq, ◌≡◌}
use rebuno.Action.{Action, modify}
use rebuno.Action.Always.{Always}
use rebuno.Context.{Context}
use rebuno.Domain.Json.{RawMessage}
use rebuno.Domain.Records.{
  Approval, Dispatch, EventRecord, Execution, Lease, Resource, ResourceCheckpoint, Step, StepKind,
  Time, Uuid,
}
use rebuno.Domain.Status.{ExecutionStatus, is_in_flight}
use rebuno.Kernel.Env.{Env, new_uuid}
use rebuno.Kernel.Keeps.{
  Keeping, Keeps-of_SameCore, Keeps-of_events, Keeps-of_executions, Keeps-of_queue, Keeps-preorder,
  SameCore,
}
use rebuno.Kernel.Keeps.Rules.{
  bind-Keeping, caught-Keeping, for_each-Keeping, if-Keeping, of_result-Keeping, option-Keeping,
  pure-Keeping, raise-Keeping, reads-Keeping, refuse_if-Keeping,
}
use rebuno.Memstore.Approvals.{create_approval, update_approval}
use rebuno.Memstore.Dispatches.{enqueue, renew_lease, retire}
use rebuno.Memstore.Dispatches.Locked.{enqueue-QueueInv, renew_lease-QueueInv, retire-QueueInv}
use rebuno.Memstore.Events.{append, append_batch}
use rebuno.Memstore.Events.Growth.{
  LogsGrow-of_eq, append-LogsGrow, append-OnlyEvents, append_batch-LogsGrow,
  append_batch-OnlyEvents,
}
use rebuno.Memstore.Events.Log.{append-IsNumbered, append_batch-IsNumbered}
use rebuno.Memstore.Executions.{
  create_execution, set_execution_parent, set_execution_state, update_execution_status,
}
use rebuno.Memstore.Executions.Ending.{
  KeepsEndings-of_eq, create-KeepsEndings, set_execution_parent-KeepsEndings, update-KeepsEndings,
}
use rebuno.Memstore.Executions.Session.{
  SessionInv-of_eq, create_effect, create_execution-SessionInv, parent_effect,
  set_execution_parent-SessionInv, update_effect, update_execution_status-SessionInv,
}
use rebuno.Memstore.Resources.{add_checkpoint, invalidate_checkpoints, put_resource}
use rebuno.Memstore.Steps.{advance_dispatch_occurrence, check_lease, merged, upsert}
use rebuno.Memstore.Steps.Outcome.{merged-step_id, upsert-KeepsOutcomes}
use rebuno.Memstore.Store.{Store}
use rebuno.Prelude.Dict.{insert-IsKeyed, lookup}

pub append-Keeping :
    (ctx : Context) (id : Uuid) (type : String) (payload : RawMessage)
    → Keeping (append ctx id type payload)
append-Keeping ctx id type payload = record {
  at = λ s.
      Keeps-of_events s _ ((append-OnlyEvents ctx id type payload).at s)
        ((append-LogsGrow ctx id type payload).at s)
        (λ h. append-IsNumbered ctx id type payload s h);
}

pub append_batch-Keeping :
    (ctx : Context) (id : Uuid) (rs : List EventRecord) → Keeping (append_batch ctx id rs)
append_batch-Keeping ctx id rs = record {
  at = λ s.
      Keeps-of_events s _ ((append_batch-OnlyEvents ctx id rs).at s)
        ((append_batch-LogsGrow ctx id rs).at s) (λ h. append_batch-IsNumbered ctx id rs s h);
}

pub upsert-Keeping : (step : Step) → Keeping (upsert step)
unfolding upsert
upsert-Keeping step = record {
  at = λ s. record {
    outcomes = unfold upsert in (upsert-KeepsOutcomes step).at s;
    endings = KeepsEndings-of_eq s _ refl;
    logs = LogsGrow-of_eq s _ refl;
    sessions = SessionInv-of_eq s _ refl;
    numbered = λ h. h;
    queue = λ h. record { queued = h.queued; locked = h.locked };
    keyed = λ h.
        insert-IsKeyed (λ (x : Step). x.step_id) step.step_id
          (merged (lookup step.step_id s.steps) step) s.steps
          (merged-step_id (lookup step.step_id s.steps) step) h;
  };
}

core-Keeping : {A : Type 0} (m : Action Store A) → Always SameCore m → Keeping m
core-Keeping m h = record { at = λ s. Keeps-of_SameCore s _ (h.at s) }

pub check_lease-Keeping : (id : Uuid) (lease : Lease) → Keeping (check_lease id lease)
unfolding check_lease
check_lease-Keeping id lease = core-Keeping _ (record { at = λ s. ground arith })

pub advance-Keeping :
    (id : Uuid) (lease : Lease) (kind : StepKind) (target hash : String) (n : ℕ)
    → Keeping (advance_dispatch_occurrence id lease kind target hash n)
unfolding advance_dispatch_occurrence modify
advance-Keeping id lease kind target hash n =
    bind-Keeping _ _ (check_lease-Keeping id lease)
      (λ _. core-Keeping _ (record { at = λ s. ground arith }))

pub set_execution_state-Keeping :
    (id : Uuid) (state : RawMessage) → Keeping (set_execution_state id state)
unfolding set_execution_state
set_execution_state-Keeping id state = core-Keeping _ (record { at = λ s. ground arith })

pub create_approval-Keeping : (ctx : Context) (a : Approval) → Keeping (create_approval ctx a)
unfolding create_approval
create_approval-Keeping ctx a = core-Keeping _ (record { at = λ s. ground arith })

pub update_approval-Keeping : (a : Approval) → Keeping (update_approval a)
unfolding update_approval
update_approval-Keeping a = core-Keeping _ (record { at = λ s. ground arith })

pub put_resource-Keeping : (r : Resource) → Keeping (put_resource r)
unfolding put_resource
put_resource-Keeping r = core-Keeping _ (record { at = λ s. ground arith })

pub add_checkpoint-Keeping : (c : ResourceCheckpoint) → Keeping (add_checkpoint c)
unfolding add_checkpoint
add_checkpoint-Keeping c = core-Keeping _ (record { at = λ s. ground arith })

pub invalidate-Keeping :
    (id : Uuid) (key : String) (seq : ℕ) → Keeping (invalidate_checkpoints id key seq)
unfolding invalidate_checkpoints
invalidate-Keeping id key seq = core-Keeping _ (record { at = λ s. ground arith })

pub new_uuid-Keeping : (env : Env) → Keeping (new_uuid env)
unfolding new_uuid
new_uuid-Keeping env = core-Keeping _ (record { at = λ s. ground arith })

pub retire-Keeping : (ctx : Context) (id : Uuid) → Keeping (retire ctx id)
unfolding retire
retire-Keeping ctx id = record {
  at = λ s.
      Keeps-of_queue s _ (ground arith) (ground arith) (ground arith)
        (λ h. unfold retire in retire-QueueInv s h ctx id);
}

pub renew_lease-Keeping :
    (id : Uuid) (lease : Lease) (now : Time) → Keeping (renew_lease id lease now)
unfolding renew_lease
renew_lease-Keeping id lease now = record {
  at = λ s.
      Keeps-of_queue s _ (ground arith) (ground arith) (ground arith)
        (λ h. unfold renew_lease in renew_lease-QueueInv s h id lease now);
}

pub enqueue-Keeping :
    (ctx : Context) (d : Dispatch) → is_in_flight d.status ≡ false → Keeping (enqueue ctx d)
unfolding enqueue
enqueue-Keeping ctx d f = record {
  at = λ s. Keeps-of_queue s _ refl refl refl (λ h. unfold enqueue in enqueue-QueueInv s h ctx d f);
}

pub update_status-Keeping :
    (ctx : Context) (id : Uuid) (status : ExecutionStatus) (output : RawMessage) (reason : String)
    → Keeping (update_execution_status ctx id status output reason)
update_status-Keeping ctx id status output reason = record {
  at = λ s. elim (update_effect ctx id status output reason s) [
    | inl same ↦ rw same (Keeps-preorder.same s)
    | inr (e, p, live, free, t) ↦
        Keeps-of_executions s _ (rw t refl) (rw t refl) (rw t refl)
          (update-KeepsEndings ctx id status output reason s)
          (update_execution_status-SessionInv ctx id status output reason s)
  ];
}

pub set_parent-Keeping : (id parent : Uuid) → Keeping (set_execution_parent id parent)
set_parent-Keeping id parent = record {
  at = λ s. elim (parent_effect id parent s) [
    | inl same ↦ rw same (Keeps-preorder.same s)
    | inr (e, p, t) ↦
        Keeps-of_executions s _ (rw t refl) (rw t refl) (rw t refl)
          (set_execution_parent-KeepsEndings id parent s)
          (set_execution_parent-SessionInv id parent s)
  ];
}

pub create_execution-Keeping :
    (ctx : Context) (exec : Execution) → Keeping (create_execution ctx exec)
create_execution-Keeping ctx exec = record {
  at = λ s. elim (create_effect ctx exec s) [
    | inl same ↦ rw same (Keeps-preorder.same s)
    | inr (new, t) ↦
        Keeps-of_executions s _ (rw t refl) (rw t refl) (rw t refl) (create-KeepsEndings ctx exec s)
          (create_execution-SessionInv ctx exec s)
  ];
}

-- How the kernel's operations are put together.
pub ruleset keeping = (
  pure-Keeping, raise-Keeping, reads-Keeping, of_result-Keeping, caught-Keeping, if-Keeping,
  option-Keeping, refuse_if-Keeping, for_each-Keeping, bind-Keeping, append-Keeping,
  append_batch-Keeping, upsert-Keeping, check_lease-Keeping, advance-Keeping,
  set_execution_state-Keeping, create_approval-Keeping, update_approval-Keeping,
  put_resource-Keeping, add_checkpoint-Keeping, invalidate-Keeping, new_uuid-Keeping,
  retire-Keeping, renew_lease-Keeping, update_status-Keeping, set_parent-Keeping,
  create_execution-Keeping,
)
