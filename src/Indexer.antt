-- ===== src/Indexer.antt =====
-- The indexer: receipts kept by id, and the agreements projected from them.
pub mod Extraction
pub mod Replay
pub mod Store
pub mod Scenarios
mod Tests
