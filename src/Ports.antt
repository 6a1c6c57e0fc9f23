-- ===== src/Ports.antt =====
-- services/live-room/src/ports/stores.mjs: the stores that a process is given.
pub mod EventStore
pub mod LeaderLease
