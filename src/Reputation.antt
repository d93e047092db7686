-- ===== src/Reputation.antt =====
-- Reputation: what the recorded events say of a proof or an agreement.
pub mod Seal
pub mod Contracts
pub mod Eligibility
pub mod Participants
mod Tests
