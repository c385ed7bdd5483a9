-- ===== src/Domain.antt =====
-- internal/domain: statuses, JSON, records, event types and event payloads.
pub mod Status
pub mod Json
pub mod Records
pub mod Payload
pub mod Policy
