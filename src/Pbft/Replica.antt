-- ===== src/Pbft/Replica.antt =====
-- pbft/pbft.hpp and pbft/pbft.cpp: the replica.
pub mod State
pub mod Operations
pub mod Checkpoints
pub mod Messages
pub mod Requests
pub mod Invariant
pub mod Watermarks
pub mod Issue
pub mod Membership
mod Tests
