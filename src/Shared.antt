-- ===== src/Shared.antt =====
-- packages/shared/src: what the gateway worker, the durable objects and the relay have in common.
pub mod Number
pub mod Calendar
pub mod Types
pub mod Pool
pub mod Idempotency
pub mod Budget
pub mod Classify
