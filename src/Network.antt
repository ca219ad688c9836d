-- ===== src/Network.antt =====
-- minion/network/: addresses, access rules, the logical switch, names and address translation.
pub mod Addresses
pub mod Allocate
pub mod Acls
pub mod Switch
pub mod Rules
pub mod Hostnames
pub mod Resolve
pub mod Distinct
pub mod Nat
pub mod Chain
pub mod NatPorts
pub mod NatRules
mod Examples
mod NatExamples
