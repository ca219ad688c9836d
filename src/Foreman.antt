-- ===== src/Foreman.antt =====
-- cloud/foreman/: the part of the cluster that talks to the minions.
pub mod Minions
pub mod Run
pub mod Sweep
pub mod Dropped
pub mod Kept
pub mod Due
pub mod Sent
mod Examples
