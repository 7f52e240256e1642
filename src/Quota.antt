-- ===== src/Quota.antt =====
-- durable-objects/quota-controller/src: the durable object that owns one pool's quota for one day.
pub mod Store
pub mod Leases
pub mod Grant
pub mod Lifecycle
pub mod Reserve
pub mod Admission
pub mod GrantLifecycle
pub mod CpuGate
pub mod Slot
pub mod Invariant
pub mod Controller
pub mod Samples
