-- ===== src/Tests.antt =====
-- Concrete keys, considerations, counts, graphs and queues, at which the theorems apply.
pub mod Data
pub mod Considerations
pub mod Counts
pub mod Graphs
pub mod Headers
pub mod Queues
pub mod Targets
pub mod Forks
pub mod Acceptance
pub mod Databases
pub mod Ledgers
pub mod PeerAddresses
pub mod Codecs
pub mod Disks
