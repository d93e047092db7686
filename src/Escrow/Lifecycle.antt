-- ===== src/Escrow/Lifecycle.antt =====
-- `reconstructAgreementLifecycle` of sdk/src/escrow/receipts.ts: an agreement's history from its
-- receipts, in whatever order and however often they arrive.
pub mod Records
pub mod Chain
pub mod Placement
pub mod Custody
pub mod Reconstruct
pub mod Keys
pub mod Sorting
pub mod Payments
pub mod Delivery
pub mod Settlement
pub mod Guarantees
pub mod Sums
pub mod Balances
pub mod Money
pub mod Completeness
pub mod Termination
pub mod Collation
pub mod Scenarios
mod Tests
