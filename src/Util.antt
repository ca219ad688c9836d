-- ===== src/Util.antt =====
-- util/: what the other parts share.
pub mod Backoff
mod Waits
mod Examples
