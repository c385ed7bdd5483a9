-- ===== src/Domain/Status.antt =====
-- The statuses of internal/domain and their terminal tests. A status is a string constant in the
-- source and a constructor here.
use rebuno.Prelude.{Bool, false, true}

pub data ExecutionStatus : Type 0 where
  pending running blocked completed failed cancelled : ExecutionStatus

pub data StepStatus : Type 0 where
  proposed allowed denied awaiting_approval executing succeeded failed cancelled : StepStatus

pub data ApprovalStatus : Type 0 where
  pending granted denied expired : ApprovalStatus

pub data DispatchStatus : Type 0 where
  pending in_flight acked failed exhausted : DispatchStatus

-- ExecutionStatus.IsTerminal
abbrev pub is_terminal : ExecutionStatus → Bool
is_terminal ExecutionStatus.completed = true
is_terminal ExecutionStatus.failed = true
is_terminal ExecutionStatus.cancelled = true
is_terminal _ = false

-- StepStatus.IsTerminal
abbrev pub is_settled : StepStatus → Bool
is_settled StepStatus.succeeded = true
is_settled StepStatus.failed = true
is_settled StepStatus.denied = true
is_settled StepStatus.cancelled = true
is_settled _ = false

-- status == ExecutionRunning || status == ExecutionBlocked
abbrev pub is_active : ExecutionStatus → Bool
is_active ExecutionStatus.running = true
is_active ExecutionStatus.blocked = true
is_active _ = false

-- Comparisons of a status with one constant.
abbrev pub is_pending : ExecutionStatus → Bool
is_pending ExecutionStatus.pending = true
is_pending _ = false

abbrev pub is_blocked : ExecutionStatus → Bool
is_blocked ExecutionStatus.blocked = true
is_blocked _ = false

abbrev pub is_completed : ExecutionStatus → Bool
is_completed ExecutionStatus.completed = true
is_completed _ = false

abbrev pub is_executing : StepStatus → Bool
is_executing StepStatus.executing = true
is_executing _ = false

abbrev pub is_succeeded : StepStatus → Bool
is_succeeded StepStatus.succeeded = true
is_succeeded _ = false

abbrev pub is_failed : StepStatus → Bool
is_failed StepStatus.failed = true
is_failed _ = false

abbrev pub is_awaiting_approval : StepStatus → Bool
is_awaiting_approval StepStatus.awaiting_approval = true
is_awaiting_approval _ = false

abbrev pub is_undecided : ApprovalStatus → Bool
is_undecided ApprovalStatus.pending = true
is_undecided _ = false

abbrev pub is_in_flight : DispatchStatus → Bool
is_in_flight DispatchStatus.in_flight = true
is_in_flight _ = false

abbrev pub is_exhausted : DispatchStatus → Bool
is_exhausted DispatchStatus.exhausted = true
is_exhausted _ = false

-- status == DispatchPending || status == DispatchFailed
abbrev pub is_claimable : DispatchStatus → Bool
is_claimable DispatchStatus.pending = true
is_claimable DispatchStatus.failed = true
is_claimable _ = false

-- e.Status == filter.Status
abbrev pub same_status : ExecutionStatus → ExecutionStatus → Bool
same_status ExecutionStatus.pending ExecutionStatus.pending = true
same_status ExecutionStatus.running ExecutionStatus.running = true
same_status ExecutionStatus.blocked ExecutionStatus.blocked = true
same_status ExecutionStatus.completed ExecutionStatus.completed = true
same_status ExecutionStatus.failed ExecutionStatus.failed = true
same_status ExecutionStatus.cancelled ExecutionStatus.cancelled = true
same_status _ _ = false
