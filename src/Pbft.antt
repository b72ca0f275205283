-- ===== src/Pbft.antt =====
-- pbft/: the PBFT replica and its parts.
pub mod Peers
pub mod External
pub mod Operation
pub mod Configuration
pub mod ConfigStore
pub mod Replica
pub mod FailureDetector
pub mod Service
