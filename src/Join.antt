-- ===== src/Join.antt =====
-- join/join.go: the two joins that match database rows with what they stand for.
pub mod Score
pub mod Delete
pub mod Pick
pub mod Greedy
pub mod Matching
pub mod Hash
pub mod Probe
pub mod Build
pub mod Keys
pub mod LastOfKey
pub mod Converge
mod Examples
