-- ===== src/OpenFlow.antt =====
-- minion/network/openflow/openflow.go, and what minion/scheduler/worker.go and minion/ipdef/ipdef.go compute
-- for it: the flows of the switch, and what they do to a packet.
pub mod Flows
pub mod Switch
pub mod Pseudocode
pub mod Containers
mod Ordered
mod Blocks
mod Tables
mod Statements
mod Priorities
mod Refines
mod Guard
mod Public
mod Ports
mod Names
mod Examples
