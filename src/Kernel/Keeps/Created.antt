-- ===== src/Kernel/Keeps/Created.antt =====
-- CreateExecution keeps what Keeps says.
use rebuno.Prelude.{Option, String, none, some, string_eq, ℕ_eq, ◌==◌}
use rebuno.Action.{Result, err, ok}
use rebuno.Context.{Context}
use rebuno.Domain.Json.{RawMessage}
use rebuno.Domain.Records.{Agent, Err, Execution, SpawnedBy, Step, Uuid, conflict, not_found}
use rebuno.Kernel.Create.{
  Agents, CreateOptions, check_continued, check_parent_step, client_create, create_locked,
  create_new, create_tx, created_or_new, execution_subject, existing_or, finish_create,
  require_new_session, step_of_parent,
}
use rebuno.Kernel.Env.{Env}
use rebuno.Kernel.Keeps.{Keeping}
use rebuno.Kernel.Keeps.Calls.{keeping}
use rebuno.Kernel.Keeps.Endings.{admit_next-Keeping, start_execution-Keeping}
use rebuno.Kernel.Keeps.Rules.{if-Keeping, option-Keeping}
use rebuno.Kernel.Keeps.Steps.{authorized_execution-Keeping}

module _ (env : Env) (ctx : Context) (agents : Agents) where
  require_new_session-Keeping :
      (session : String) → Keeping (require_new_session env ctx agents session)
  unfolding require_new_session
  require_new_session-Keeping session = search keeping

  execution_subject-Keeping :
      (opts : CreateOptions) → Keeping (execution_subject env ctx agents opts)
  unfolding execution_subject
  execution_subject-Keeping opts =
      option-Keeping opts.spawned_by _ _
        (if-Keeping (opts.on_behalf_of == "") _ _ (search keeping) (search keeping))
        (λ by. search keeping)

  check_continued-Keeping :
      (agent_id session : String) (parent : Option Uuid)
      → Keeping (check_continued env ctx agents agent_id session parent)
  unfolding check_continued
  check_continued-Keeping agent_id session parent =
      option-Keeping parent _ _ (search keeping)
        (λ id. search (keeping, authorized_execution-Keeping env ctx, require_new_session-Keeping))

  step_of_parent-Keeping :
      (id : Uuid) (r : Result Step) → Keeping (step_of_parent env ctx agents id r)
  step_of_parent-Keeping id (ok step) = search keeping
  step_of_parent-Keeping id (err not_found) = search keeping
  step_of_parent-Keeping id (err _) = search keeping

  check_parent_step-Keeping :
      (child : Execution) (by : SpawnedBy) → Keeping (check_parent_step env ctx agents child by)
  unfolding check_parent_step
  check_parent_step-Keeping child by =
      search (keeping, authorized_execution-Keeping env ctx, step_of_parent-Keeping) depth 9

  create_tx-Keeping : (exec : Execution) → Keeping (create_tx env ctx agents exec)
  unfolding create_tx
  create_tx-Keeping exec = search (keeping, start_execution-Keeping env ctx) depth 8

  create_locked-Keeping : (exec : Execution) → Keeping (create_locked env ctx agents exec)
  unfolding create_locked
  create_locked-Keeping exec =
      option-Keeping exec.spawned_by _ _ (create_tx-Keeping exec)
        (λ by. search (keeping, check_parent_step-Keeping, create_tx-Keeping))

  existing_or-Keeping : (e : Err) (o : Option Execution) → Keeping (existing_or env ctx agents e o)
  existing_or-Keeping e none = search keeping
  existing_or-Keeping e (some existing) = search keeping

  finish_create-Keeping :
      (exec : Execution) (r : Result (Unit {0})) → Keeping (finish_create env ctx agents exec r)
  finish_create-Keeping exec (ok _) = search (keeping, admit_next-Keeping env ctx)
  finish_create-Keeping exec (err conflict) = search (keeping, existing_or-Keeping)
  finish_create-Keeping exec (err _) = search keeping

  create_new-Keeping :
      (agent : Agent) (agent_id : String) (input : RawMessage) (opts : CreateOptions)
      → Keeping (create_new env ctx agents agent agent_id input opts)
  unfolding create_new
  create_new-Keeping agent agent_id input opts =
      search
        (
          keeping, execution_subject-Keeping, check_continued-Keeping, create_locked-Keeping,
          finish_create-Keeping,
        )
        depth 10

  created_or_new-Keeping :
      (agent : Agent) (agent_id : String) (input : RawMessage) (opts : CreateOptions)
      (existing : Option Execution)
      → Keeping (created_or_new env ctx agents agent agent_id input opts existing)
  created_or_new-Keeping agent agent_id input opts none =
      create_new-Keeping agent agent_id input opts
  created_or_new-Keeping agent agent_id input opts (some existing) = search keeping

  pub client_create-Keeping :
      (agent_id : String) (input : RawMessage) (opts : CreateOptions)
      → Keeping (client_create env ctx agents agent_id input opts)
  unfolding client_create
  client_create-Keeping agent_id input opts = search (keeping, created_or_new-Keeping) depth 9
