-- ===== src/Escrow.antt =====
-- The escrow half of the SDK (sdk/src/escrow): lifecycle tables, events, receipts, lifecycles.
pub mod States
pub mod Events
pub mod Receipts
pub mod Lifecycle
pub mod Credential
mod Tests
