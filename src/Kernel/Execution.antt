-- ===== src/Kernel/Execution.antt =====
-- The life of an execution: internal/kernel/execution.go (admission and cancellation),
-- internal/kernel/dispatch.go (completion and failure) and internal/kernel/subagent.go. Logs and
-- metrics are left out.
use Prim.Native.String.{◌++◌ as text_append}
use rebuno.Prelude.{
  List, Option, String, [], if◌then◌else◌, none, not, some, string_eq, ℕ, ℕ_eq, ◌&&◌, ◌==◌, ◌∷◌,
}
use rebuno.Action.{Action, Result, caught, err, for_each, ok, pure, raise, reads, ◌>>=◌, ◌>>◌}
use rebuno.Context.{Context}
use rebuno.Domain.Json.{
  Fields, RawMessage, bool, embedded, empty, end, field, field_if, is_empty, json, null, num, obj,
  str, uuid, marshalled,
}
use rebuno.Domain.Payload.{
  event_execution_started, event_step_failed, event_step_succeeded, execution_status_text,
  step_error_payload, step_result_payload,
}
use rebuno.Domain.Records.{
  Event, EventRecord, Execution, Resource, SpawnedBy, Step, Time, Uuid, conflict,
  execution_terminal, not_found,
}
use rebuno.Domain.Status.{
  ExecutionStatus, StepStatus, is_blocked, is_completed, is_executing, is_terminal,
}
use rebuno.Kernel.Env.{Env, enqueue_dispatch}
use rebuno.Kernel.Resource.{settle_effect}
use rebuno.Kernel.Suspend.{resume_if_idle}
use rebuno.Memstore.Events.{append, append_batch}
use rebuno.Memstore.Executions.{
  get_execution, next_pending_in_session, session_head, set_execution_parent,
  update_execution_status,
}
use rebuno.Memstore.Resources.{list_resources, put_resource}
use rebuno.Memstore.Steps.{get_step, upsert}
use rebuno.Memstore.Store.{Store}

abbrev subagent_reason : ExecutionStatus → String
subagent_reason st = text_append "subagent_" (execution_status_text st)

-- registerResourceTx for a resource that was not registered before, with the registration's payload
abbrev registered_event : Resource → EventRecord
registered_event r = record {
  type = "resource.registered";
  payload = marshalled r.config (
      field "key" (str r.key) (
        field "driver_id" (str r.driver_id) (
          field "configuration" (embedded r.config) (
            field "coverage_reuse" (bool r.coverage_reuse) (
              field "every_steps" (num r.every_steps)
                (field "on_completion" (bool r.on_completion) end))))));
}

abbrev bound_event : Resource → EventRecord
bound_event r = record {
  type = "resource.bound";
  payload =
      marshalled r.binding (field "key" (str r.key) (field "binding" (embedded r.binding) end));
}

-- recorded[0].EventSeq
abbrev first_seq : List Event → ℕ
first_seq [] = 0
first_seq (e ∷ _) = e.event_seq

module _ (ctx : Context) where
  -- registerResourceTx
  unfoldable pub register_resource_tx : Resource → Action Store (Unit {0})
  register_resource_tx r = do
    recorded ← append_batch ctx r.execution_id (
        registered_event r
        ∷ (if r.registered_seq == 0 && not (is_empty r.binding) then bound_event r ∷ [] else []))
    put_resource
        (if r.registered_seq == 0 then record r { registered_seq = first_seq recorded } else r)

  abbrev pub inherited : Execution → Resource → Resource
  inherited exec r = record r {
    execution_id = exec.id;
    registered_seq = 0;
    generation = 0;
    count = 0;
    checkpoint_ref = "";
  }

  -- inheritSessionResources from the parent's identifier on
  unfoldable pub inherit_from : Execution → Uuid → Action Store (Unit {0})
  inherit_from exec parent_id = do
    parent ← reads (get_execution parent_id)
    resources ← reads (λ s. ok (list_resources parent.id s))
    if not (parent.session == exec.session)
        then pure tt
        else for_each (λ r. register_resource_tx (inherited exec r)) resources

  -- inheritSessionResources
  unfoldable pub inherit_session_resources : Execution → Action Store (Unit {0})
  inherit_session_resources exec =
      if exec.session == "" then pure tt else elim exec.parent_execution_id [
        | none ↦ pure tt
        | some parent ↦ elim exec.forked_from [ none ↦ inherit_from exec parent | some _ ↦ pure tt ]
      ]

  -- The start of startExecutionTx: a queued execution of a session continues the newest completed one
  -- of its agent. The head of the session is found with an error that is either nil or ErrNotFound.
  abbrev pub set_head : Execution → Result Execution → Action Store Execution
  set_head exec (err e) = pure exec
  set_head exec (ok head) = do
    set_execution_parent exec.id head.id
    pure (record exec { parent_execution_id = some head.id })

  unfoldable pub adopt_head : Execution → Action Store Execution
  adopt_head exec =
      let adopt = reads (λ s. ok (session_head exec.session exec.agent_id s)) >>= set_head exec in
      if exec.session == "" then pure exec else elim exec.parent_execution_id [
        | some _ ↦ pure exec
        | none ↦ elim exec.forked_from [ some _ ↦ pure exec | none ↦ adopt ]
      ]

abbrev deadline_field : Option Time → Fields → Fields
deadline_field none rest = rest
deadline_field (some at) rest = field "deadline_at" (num at) rest

abbrev parent_field : Option Uuid → Fields → Fields
parent_field none rest = rest
parent_field (some p) rest = field "parent_execution_id" (uuid p) rest

abbrev started_payload : Execution → RawMessage
started_payload exec = json (
    obj (
      field "execution_id" (uuid exec.id) (
        field "status" (str "running") (
          deadline_field exec.deadline_at (
            field_if (not (exec.session == "")) "session" (str exec.session)
              (parent_field exec.parent_execution_id end))))))

module _ (env : Env) (ctx : Context) where
  -- startExecutionTx; the execution is returned as the source changes it
  unfoldable pub start_execution : Execution → Action Store Execution
  start_execution exec0 = do
    exec ← adopt_head ctx exec0
    update_execution_status ctx exec.id ExecutionStatus.running empty ""
    append ctx exec.id event_execution_started (started_payload exec)
    inherit_session_resources ctx exec
    enqueue_dispatch env ctx exec.id ctx.now
    pure (record exec { status = ExecutionStatus.running })

  abbrev pub admit : String → Action Store Execution
  admit session = do exec ← reads (next_pending_in_session session ctx.now); start_execution exec

  -- admitNext: none where it returns the zero execution
  abbrev pub admitted : Result Execution → Action Store (Option Execution)
  admitted (ok exec) = pure (some exec)
  admitted (err not_found) = pure none
  admitted (err conflict) = pure none
  admitted (err execution_terminal) = pure none
  admitted (err e) = raise e

  unfoldable pub admit_next : String → Action Store (Option Execution)
  admit_next session = do r ← caught (admit session); admitted r

  -- releaseSession: the error is logged
  unfoldable pub release_session : String → Action Store (Unit {0})
  release_session session =
      if session == "" then pure tt else (caught (admit_next session) >>= λ _. pure tt)

  -- the step that settleParentStep writes for a child that ended, and its event
  abbrev child_error : Execution → RawMessage
  child_error child = json (
      obj (
        field "execution_id" (uuid child.id) (
          field "failure_reason" (str child.failure_reason)
            (field "reason" (str (subagent_reason child.status)) end))))

  abbrev settled_by : Execution → Step → Step
  settled_by child step =
      if is_completed child.status
      then record step {
        status = StepStatus.succeeded;
        result = if is_empty child.output then json null else child.output;
        completed_at = some ctx.now;
      }
      else record step {
        status = StepStatus.failed;
        error = child_error child;
        completed_at = some ctx.now;
      }

  abbrev child_event : Execution → Step → EventRecord
  child_event child step =
      if is_completed child.status
      then record {
        type = event_step_succeeded;
        payload = step_result_payload step.step_id step.kind step.target 0 0;
      }
      else record {
        type = event_step_failed;
        payload = step_error_payload step.step_id step.kind step.target (child_error child);
      }

  -- the transaction of settleParentStep
  unfoldable pub settle_parent_tx : Execution → Execution → Step → Action Store (Unit {0})
  settle_parent_tx parent child step = do
    append ctx parent.id (child_event child step).type (child_event child step).payload
    upsert (settled_by child step)
    settle_effect (settled_by child step)
    if is_blocked parent.status then resume_if_idle env ctx parent.id else pure tt

  abbrev pub settle_spawned : Execution → SpawnedBy → Action Store (Unit {0})
  settle_spawned child by = do
    parent ← reads (get_execution by.execution_id)
    if is_terminal parent.status then pure tt else do
      step ← reads (get_step by.step_id)
      if is_executing step.status then settle_parent_tx parent child step else pure tt

  -- settleParentStep
  unfoldable pub settle_parent_step : Uuid → Action Store (Unit {0})
  settle_parent_step child_id = do
    child ← reads (get_execution child_id)
    elim child.spawned_by [
      | none ↦ pure tt
      | some by ↦ if is_terminal child.status then settle_spawned child by else pure tt
    ]
