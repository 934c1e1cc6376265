-- ===== src/PeerStorage.antt =====
-- peer_storage_disk.go: the addresses of peers, when each was seen, tried and reached, and which to
-- try next.
pub mod Info
pub mod Disk
pub mod Consistent
pub mod Calls
pub mod Reads
pub mod Reached
pub mod Choice
pub mod Safe
