-- ===== src/Transactions.antt =====
-- scripts/lib/transaction-lifecycle.mjs: how a run sends a transaction, and what it makes of the
-- answers of the endpoint. The answers are a value of `Endpoint`: the library that signs and
-- sends, the clock, and the node stand behind it.
pub mod Errors
pub mod Confirming
pub mod Sending
pub mod Refusing
pub mod Rules
pub mod Submissions
pub mod Returning
pub mod Landing
pub mod Refusals
pub mod Unconfirmed
mod Tests
