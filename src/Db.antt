-- ===== src/Db.antt =====
-- db/: the in-memory database that the parts of the program share.
pub mod Table
pub mod Tables
pub mod Ranks
pub mod Locks
pub mod Owners
pub mod Progress
pub mod Drain
pub mod Sorts
pub mod Changes
pub mod Loops
pub mod Rows
pub mod MinionRows
pub mod Selects
pub mod Sync
pub mod Replace
pub mod Reconcile
pub mod Refresh
pub mod EtcdRows
mod Examples
