-- ===== src/Ledger.antt =====
-- ledger_disk.go: the ledger, which keeps the main point's tip, its counts by height, the indices of
-- its considerations and the imbalance of every key in LevelDB.
pub mod Keys
pub mod Reads
pub mod Batches
pub mod Connect
pub mod Ranges
