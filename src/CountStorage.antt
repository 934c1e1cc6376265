-- ===== src/CountStorage.antt =====
-- stage_storage_disk.go: counts in files, their headers in LevelDB.
pub mod Disk
pub mod Stored
