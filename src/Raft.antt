-- ===== src/Raft.antt =====
-- raft/raft.cpp, raft/raft_log.cpp, raft/log_entry.hpp and raft/raft_base.hpp: the older way to order requests.
pub mod Log
pub mod Quorum
pub mod State
pub mod Replication
pub mod Elections
pub mod Recovery
mod Tests
