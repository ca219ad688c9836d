-- ===== src/Engine.antt =====
-- engine/engine.go: the controller's policy engine.
pub mod Machines
pub mod Policy
mod Examples
