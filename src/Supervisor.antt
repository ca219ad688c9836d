-- ===== src/Supervisor.antt =====
-- minion/supervisor/: the containers that a minion runs for itself.
pub mod Run
pub mod Master
pub mod Worker
mod Obeys
mod Rounds
mod Proxy
mod Stale
mod Examples
