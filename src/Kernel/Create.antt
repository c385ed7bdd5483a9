-- ===== src/Kernel/Create.antt =====
-- internal/kernel/execution.go, CreateExecution, and internal/kernel/subagent.go, checkParentStep.
-- Logs and metrics are left out; a panic of uuid.NewV7 is too.
use rebuno.Prelude.{
  List, Option, String, [], if◌then◌else◌, length, ltb, none, not, some, string_eq, ℕ_eq, ◌&&◌, ◌+◌,
  ◌==◌, ◌||◌, ◌∷◌,
}
use rebuno.Action.{
  Action, Result, caught, err, of_result, ok, pure, raise, reads, refuse_if, ◌>>=◌, ◌>>◌,
}
use rebuno.Auth.{Role, authorize, caller_identity, cut_colon, has_scope, valid_principal}
use rebuno.Context.{Context, Principal}
use rebuno.Domain.Json.{RawMessage, empty}
use rebuno.Domain.Payload.{event_execution_created}
use rebuno.Domain.Records.{
  Agent, Err, Execution, ExecutionFilter, SpawnedBy, Step, Time, Uuid, conflict, forbidden,
  not_found, subject, validation,
}
use rebuno.Domain.Status.{ExecutionStatus, is_completed, is_executing, is_terminal}
use rebuno.Kernel.Env.{Env, authorized_execution, new_uuid}
use rebuno.Kernel.Execution.{admit_next, start_execution}
use rebuno.Kernel.Opening.{bad_label, created_payload}
use rebuno.Memstore.Events.{append}
use rebuno.Memstore.Executions.{create_execution, get_execution, list_executions}
use rebuno.Memstore.Steps.{get_step}
use rebuno.Memstore.Store.{Store}

pub record CreateOptions : Type 0 where
  pub session : String
  pub parent_execution_id : Option Uuid
  pub idempotency_key : String
  pub spawned_by : Option SpawnedBy
  pub on_behalf_of : String

-- The store of agents, and the check of an input against the agent's JSON schema.
pub record Agents : Type 0 where
  pub get_agent : String → Result Agent
  pub validate_input : Agent → RawMessage → Result (Unit {0})

abbrev pub no_filter : ExecutionFilter
no_filter = record {
  agent_id = "";
  agent_ids = none;
  session = "";
  idempotency_key = "";
  spawned_by = none;
  parent_execution_id = none;
  forked_from = none;
  status = none;
  limit = 0;
  cursor = none;
}

abbrev pub first_of_list : List Execution → Option Execution
first_of_list [] = none
first_of_list (e ∷ rest) = some e

abbrev pub key_filter : String → String → ExecutionFilter
key_filter agent_id key = record no_filter { agent_id = agent_id; idempotency_key = key; limit = 1 }

-- executionByIdempotencyKey
unfoldable pub execution_by_idempotency_key : String → String → Store → Option Execution
execution_by_idempotency_key agent_id key s =
    if key == ""
    then none
    else first_of_list (list_executions (key_filter agent_id key) s).executions

module _ (env : Env) (ctx : Context) (agents : Agents) where
  -- requireNewSession
  unfoldable pub require_new_session : String → Action Store (Unit {0})
  require_new_session session = do
    page ← reads (λ s. ok (list_executions (record no_filter { session = session; limit = 1 }) s))
    refuse_if (not (session == "") && bad_label session) validation
    refuse_if (not (session == "") && ltb 0 (length page.executions)) conflict

  abbrev caller_groups : Option Principal → List String
  caller_groups none = []
  caller_groups (some p) = p.groups

  -- executionSubject: the subject and its groups
  unfoldable pub execution_subject : CreateOptions → Action Store (String × List String)
  execution_subject opts = elim opts.spawned_by [
    | some by ↦ do
      refuse_if (not (opts.on_behalf_of == "")) validation
      parent ← reads (get_execution by.execution_id)
      pure (subject parent, parent.subject_groups)
    | none ↦ if opts.on_behalf_of == "" then pure ("", caller_groups ctx.principal) else do
      refuse_if
          ((cut_colon opts.on_behalf_of).0 == "group" || not (valid_principal opts.on_behalf_of))
          validation
      refuse_if (not (has_scope ctx "executions:impersonate")) forbidden
      pure (opts.on_behalf_of, [])
  ]

  -- the checks of CreateExecution on the parent that an execution continues
  unfoldable pub check_continued : String → String → Option Uuid → Action Store (Unit {0})
  check_continued agent_id session parent_id = elim parent_id [
    | none ↦ pure tt
    | some id ↦ do
      parent ← authorized_execution env ctx id Role.read
      refuse_if (not (parent.agent_id == agent_id) || not (is_completed parent.status)) conflict
      require_new_session session
  ]

  abbrev pub step_of_parent : Uuid → Result Step → Action Store Step
  step_of_parent parent_id (ok step) =
      if step.execution_id == parent_id then pure step else raise validation
  step_of_parent parent_id (err not_found) = raise validation
  step_of_parent parent_id (err e) = raise e

  -- checkParentStep
  unfoldable pub check_parent_step : Execution → SpawnedBy → Action Store (Unit {0})
  check_parent_step child by = do
    parent ← authorized_execution env ctx by.execution_id Role.write
    refuse_if (is_terminal parent.status) conflict
    refuse_if (not (child.session == "") && child.session == parent.session) validation
    found ← reads (λ s. ok (get_step by.step_id s))
    step ← step_of_parent parent.id found
    refuse_if (not (is_executing step.status)) conflict

  -- the transaction of CreateExecution
  unfoldable pub create_tx : Execution → Action Store (Unit {0})
  create_tx exec = do
    create_execution ctx exec
    append ctx exec.id event_execution_created (created_payload exec)
    if not (exec.session == "") then pure tt else do start_execution env ctx exec; pure tt

  -- under the lock of the execution that spawns it, where one does
  unfoldable pub create_locked : Execution → Action Store (Unit {0})
  create_locked exec = elim exec.spawned_by [
    | none ↦ create_tx exec
    | some by ↦ do check_parent_step exec by; create_tx exec
  ]

  abbrev pub existing_or : Err → Option Execution → Action Store Execution
  existing_or e (some existing) = pure existing
  existing_or e none = raise e

  abbrev started_or : Execution → Result (Option Execution) → Execution
  started_or exec (ok (some started)) = if started.id == exec.id then started else exec
  started_or exec _ = exec

  -- the end of CreateExecution, after its transaction
  abbrev pub finish_create : Execution → Result (Unit {0}) → Action Store Execution
  finish_create exec (err conflict) = do
    existing ← reads (λ s. ok (execution_by_idempotency_key exec.agent_id exec.idempotency_key s))
    existing_or conflict existing
  finish_create exec (err e) = raise e
  finish_create exec (ok _) =
      if exec.session == ""
      then pure (record exec { status = ExecutionStatus.running })
      else do r ← caught (admit_next env ctx exec.session); pure (started_or exec r)

  abbrev pub key_of : CreateOptions → String
  key_of opts = elim opts.spawned_by [
    | none ↦ opts.idempotency_key
    | some by ↦ if opts.idempotency_key == "" then by.step_id else opts.idempotency_key
  ]

  abbrev deadline_of : Option Time
  deadline_of =
      if ltb 0 env.execution_deadline_timeout
      then some (ctx.now + env.execution_deadline_timeout)
      else none

  abbrev pub new_execution :
      Uuid → String → RawMessage → CreateOptions → String × List String → Execution
  new_execution id agent_id input opts who = record {
    id = id;
    agent_id = agent_id;
    session = opts.session;
    parent_execution_id = opts.parent_execution_id;
    forked_from = none;
    fork_seq = 0;
    idempotency_key = key_of opts;
    spawned_by = opts.spawned_by;
    created_by = caller_identity ctx;
    on_behalf_of = who.0;
    subject_groups = who.1;
    policy_bundle = "";
    input = input;
    status = ExecutionStatus.pending;
    output = empty;
    failure_reason = "";
    created_at = ctx.now;
    updated_at = ctx.now;
    deadline_at = deadline_of;
    restoration = [];
  }

  -- CreateExecution, once no execution of the agent has the idempotency key
  unfoldable pub create_new : Agent → String → RawMessage → CreateOptions → Action Store Execution
  create_new agent agent_id input opts = do
    of_result (agents.validate_input agent input)
    who ← execution_subject opts
    check_continued agent_id opts.session opts.parent_execution_id
    id ← new_uuid env
    r ← caught (create_locked (new_execution id agent_id input opts who))
    finish_create (new_execution id agent_id input opts who) r

  abbrev pub created_or_new :
      Agent → String → RawMessage → CreateOptions → Option Execution → Action Store Execution
  created_or_new agent agent_id input opts (some existing) = pure existing
  created_or_new agent agent_id input opts none = create_new agent agent_id input opts

  -- CreateExecution
  unfoldable pub client_create : String → RawMessage → CreateOptions → Action Store Execution
  client_create agent_id input opts = do
    refuse_if (bad_label opts.session || bad_label opts.idempotency_key) validation
    of_result (authorize env.access ctx Role.write agent_id)
    agent ← of_result (agents.get_agent agent_id)
    existing ← reads (λ s. ok (execution_by_idempotency_key agent_id (key_of opts) s))
    created_or_new agent agent_id input opts existing
