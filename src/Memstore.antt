-- ===== src/Memstore.antt =====
-- internal/store/memstore: the in-memory store.
pub mod Store
pub mod Events
pub mod Steps
pub mod Dispatches
pub mod Executions
pub mod Approvals
pub mod Resources
pub mod Agents
pub mod Keys
pub mod Cleanup
pub mod Cleaned
pub mod Retained
pub mod Invariants
