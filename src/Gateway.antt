-- ===== src/Gateway.antt =====
-- apps/gateway-worker/src: the worker in front of the quota controllers.
pub mod Claims
pub mod Reservation
pub mod Policy
pub mod Budget
pub mod Auth
pub mod Callback
pub mod Decide
pub mod DecisionCallback
