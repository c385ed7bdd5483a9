-- ===== src/Kernel.antt =====
-- internal/kernel: the operations on executions, steps, approvals and resources.
pub mod Env
pub mod Resource
pub mod Suspend
pub mod Step
pub mod Policy
pub mod Decision
pub mod Submit
pub mod Approval
pub mod Execution
pub mod Opening
pub mod Create
pub mod Idempotent
pub mod Sweeps
pub mod Keys
pub mod Agents
pub mod Closing
pub mod Terminal
pub mod Deliver
pub mod Keeps
pub mod Reach
pub mod Retention
pub mod Replay
pub mod Released
pub mod Fenced
pub mod AtMostOnce
pub mod Retried
