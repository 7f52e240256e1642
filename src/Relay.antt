-- ===== src/Relay.antt =====
-- packages/shared/src/relay*.ts: the wire contract of the relay.
pub mod Value
pub mod Errors
pub mod Messages
pub mod Claims
pub mod Parse
pub mod Base64
pub mod Decision
pub mod Duplicates
pub mod Canonical
pub mod Kinds
pub mod Routing
pub mod Body
pub mod Credential
