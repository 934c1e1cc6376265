-- ===== src/Processor.antt =====
-- processor.go: what a consideration and a count must satisfy, the targets that counts declare,
-- where two points fork, and how considerations and counts are taken in.
pub mod Checks
pub mod Sane
pub mod Sound
pub mod Capacity
pub mod Target
pub mod Retarget
pub mod Fork
pub mod Median
pub mod Node
pub mod Context
pub mod Accept
