-- ===== src/Domain/Records.antt =====
-- The records of internal/domain (execution.go, step.go, approval.go, dispatch.go, resource.go,
-- event.go, agent.go, errors.go). A uuid.UUID is a number, 0 for uuid.Nil: for version 7 the order of
-- the texts is the order of the numbers. A time is a number of nanoseconds, 0 for the zero time, and
-- a duration is one too.
use rebuno.Prelude.{
  Bool, List, Option, String, [], if◌then◌else◌, leb, ltb, none, not, some, string_eq, true, ℕ,
  ℕ_eq, ◌&&◌, ◌==◌, ◌||◌, ◌∷◌,
}
use rebuno.Domain.Json.{RawMessage, unmarshal_strings}
use rebuno.Domain.Status.{ApprovalStatus, DispatchStatus, ExecutionStatus, StepStatus}

abbrev pub Uuid : Type 0
Uuid = ℕ

abbrev pub Time : Type 0
Time = ℕ

abbrev pub StepKind : Type 0
StepKind = String

abbrev pub step_kind_tool : StepKind
step_kind_tool = "tool_call"

abbrev pub step_kind_llm : StepKind
step_kind_llm = "llm_call"

abbrev pub step_kind_local : StepKind
step_kind_local = "local"

-- The errors of errors.go, a cancelled context's, the kernel's for a decision that it does not know,
-- the panic of a read through a nil pointer, and the end of the fuel of a loop of the model.
pub data Err : Type 0 where
  not_found conflict validation execution_terminal unauthorized forbidden lease_superseded : Err
  context_cancelled unmarshallable unknown_decision nil_dereference out_of_fuel : Err

pub record SpawnedBy : Type 0 where
  pub execution_id : Uuid
  pub step_id : String

pub record ResourceSelection : Type 0 where
  pub checkpoint_ref : String
  pub checkpoint_seq : ℕ
  pub covered : Bool

pub record Execution : Type 0 where
  pub id : Uuid
  pub agent_id : String
  pub session : String
  pub parent_execution_id : Option Uuid
  pub forked_from : Option Uuid
  pub fork_seq : ℕ
  pub idempotency_key : String
  pub spawned_by : Option SpawnedBy
  pub created_by : String
  pub on_behalf_of : String
  pub subject_groups : List String
  pub policy_bundle : String
  pub input : RawMessage
  pub status : ExecutionStatus
  pub output : RawMessage
  pub failure_reason : String
  pub created_at : Time
  pub updated_at : Time
  pub deadline_at : Option Time
  pub restoration : List (String × ResourceSelection)

unfoldable pub subject : Execution → String
subject e = if e.on_behalf_of == "" then e.created_by else e.on_behalf_of

pub record ExecutionFilter : Type 0 where
  pub agent_id : String
  pub agent_ids : Option (List String)
  pub session : String
  pub idempotency_key : String
  pub spawned_by : Option Uuid
  pub parent_execution_id : Option Uuid
  pub forked_from : Option Uuid
  pub status : Option ExecutionStatus
  pub limit : ℕ
  pub cursor : Option Uuid

pub record ExecutionPage : Type 0 where
  pub executions : List Execution
  pub next_cursor : Option Uuid

pub record Step : Type 0 where
  pub step_id : String
  pub execution_id : Uuid
  pub kind : StepKind
  pub target : String
  pub args_hash : String
  pub occurrence : ℕ
  pub status : StepStatus
  pub idempotency : String
  pub args : RawMessage
  pub result : RawMessage
  pub error : RawMessage
  pub started_at : Option Time
  pub completed_at : Option Time
  pub usage_input : ℕ
  pub usage_output : ℕ
  pub resources : List String

pub record Approval : Type 0 where
  pub id : Uuid
  pub step_id : String
  pub execution_id : Uuid
  pub status : ApprovalStatus
  pub approvers : RawMessage
  pub message : String
  pub timeout_at : Time
  pub decided_by : String
  pub asserted_by : String
  pub decided_at : Option Time
  pub rationale : String
  pub created_at : Time

-- Approval.AllowsApprover
unfoldable pub allows_approver : Approval → (List String → Bool) → Bool
allows_approver a match = elim (unmarshal_strings a.approvers) [
  | none ↦ true
  | some [] ↦ true
  | some (x ∷ xs) ↦ match (x ∷ xs)
]

pub record Dispatch : Type 0 where
  pub id : Uuid
  pub execution_id : Uuid
  pub status : DispatchStatus
  pub attempt : ℕ
  pub max_attempts : ℕ
  pub next_attempt_at : Time
  pub locked_by : Option String
  pub locked_at : Option Time
  pub created_at : Time
  pub updated_at : Time

pub record Lease : Type 0 where
  pub dispatch_id : Uuid
  pub attempt : ℕ

-- Lease.Valid
unfoldable pub is_valid : Lease → Bool
is_valid l = not (l.dispatch_id == 0) && ltb 0 l.attempt

pub record Resource : Type 0 where
  pub execution_id : Uuid
  pub key : String
  pub driver_id : String
  pub config : RawMessage
  pub coverage_reuse : Bool
  pub every_steps : ℕ
  pub on_completion : Bool
  pub registered_seq : ℕ
  pub generation : ℕ
  pub count : ℕ
  pub binding : RawMessage
  pub checkpoint_ref : String

pub record ResourceCheckpoint : Type 0 where
  pub execution_id : Uuid
  pub key : String
  pub generation : ℕ
  pub ref : String
  pub covered_seq : ℕ
  pub invalidated_seq : ℕ

-- ResourceCheckpoint.Covers
unfoldable pub covers : ResourceCheckpoint → ℕ → Bool
covers c seq = leb c.covered_seq seq && (c.invalidated_seq == 0 || ltb seq c.invalidated_seq)

pub record StepResource : Type 0 where
  pub key : String
  pub generation : ℕ
  pub due : Bool

pub record StepDecision : Type 0 where
  pub decision : String
  pub step_id : String
  pub result : RawMessage
  pub error : RawMessage
  pub approval_id : Option Uuid
  pub reason : String
  pub rule_id : String
  pub resources : List StepResource

pub record EventRecord : Type 0 where
  pub type : String
  pub payload : RawMessage

pub record Event : Type 0 where
  pub execution_id : Uuid
  pub event_seq : ℕ
  pub type : String
  pub payload : RawMessage
  pub occurred_at : Time

pub record AgentMetadata : Type 0 where
  pub description : String
  pub input_schema : RawMessage
  pub output_schema : RawMessage

-- A lease timeout is kept in nanoseconds, 0 for unset; the source keeps seconds as a float64.
pub record Agent : Type 0 where
  pub id : String
  pub webhook_url : String
  pub secret : String
  pub lease_timeout : ℕ
  pub policy_bundle : String
  pub registered_at : Time
  pub metadata : AgentMetadata
