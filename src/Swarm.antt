-- ===== src/Swarm.antt =====
-- crates/ace-swarm/src: the parts of the swarm crate that decide without I/O.
pub mod Scheduler
pub mod ActivePeers
pub mod Memory
pub mod Store
