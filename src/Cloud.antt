-- ===== src/Cloud.antt =====
-- cloud/: the controller's side of the cloud providers.
pub mod Size
pub mod Providers
pub mod Sync
pub mod Status
mod Statuses
mod Cheapest
pub mod Reconcile
pub mod Cycle
mod Cycles
mod Examples
mod CycleExamples
