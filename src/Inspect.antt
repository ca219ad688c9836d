-- ===== src/Inspect.antt =====
-- cli/command/inspect/: the graph of what may talk to what.
pub mod Graph
pub mod Edges
pub mod Bare
pub mod Connections
pub mod Listing
pub mod Unknown
mod Examples
