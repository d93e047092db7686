-- ===== src/Accounts.antt =====
-- The accounts of the three programs, as the SDK decodes them.
pub mod Discriminators
pub mod Escrow
pub mod Commerce
pub mod Core
pub mod Sizes
pub mod Reading
pub mod Layout
mod Tests
