-- ===== src/Etcd.antt =====
-- minion/etcd/: the tables that the minions share through etcd, and the election of their leader.
pub mod Store
pub mod Replicate
pub mod Containers
pub mod Minions
pub mod Elector
pub mod Election
mod Believed
mod Elected
mod Examples
mod ElectionExamples
