-- ===== src/Scheduler.antt =====
-- minion/scheduler/: the placement of containers on minions.
pub mod Placement
pub mod Context
pub mod Rules
pub mod Master
pub mod OnMinion
pub mod Place
mod Held
mod Tied
mod Pointers
mod Commits
mod Indexes
mod Gather
mod Waiting
mod Placed
mod Contexts
mod Committed
pub mod Make
pub mod Total
pub mod Worker
pub mod Running
mod Examples
