-- ===== src/Minion.antt =====
-- minion/engine.go: the policy engine of a minion; minion/server.go: its configuration;
-- minion/registry/registry.go: the building of its images.
pub mod Blueprint
pub mod Ports
pub mod Updates
pub mod Tables
mod Wanted
pub mod Lines
pub mod Server
pub mod Registry
mod Registered
mod RoundTrip
mod Examples
mod ServerExamples
mod RegistryExamples
