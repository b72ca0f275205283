-- ===== src/Audit.antt =====
-- audit/audit.cpp, audit/audit.hpp and audit/audit_base.hpp: the observer of commits, leaders and primaries.
-- A handler is a function of the auditor's state; the lock makes each atomic. What is sent to the monitor
-- is kept in `sent`; logs and the closing of the caller's session are left out. The decimal text of a
-- number is a parameter.
pub mod State
pub mod Handlers
pub mod Events
pub mod Memory
pub mod Bounds
pub mod Counts
pub mod Recorded
pub mod Agreement
pub mod Progress
mod Tests
