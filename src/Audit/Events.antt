-- ===== src/Audit/Events.antt =====
-- What happens to the auditor of audit/audit.cpp: its start, messages and timeouts, in any order.
use swarm_db.Base.{ℕ, Bool, Option, List, [], ◌∷◌, String}
use swarm_db.Proto.{AuditMessage}
use swarm_db.Audit.State.{Audit, start}
use swarm_db.Audit.Handlers.{
  handle_leader_alive_timeout, handle_primary_alive_timeout, handle_leader_progress_timeout, handle,
}

-- The argument of a timeout says whether its wait ended with an error.
pub data Event : Type 0 where
  starts : Event
  hears : Option AuditMessage → Event
  leader_timeout primary_timeout progress_timeout : Bool → Event

unfoldable pub handle_event : (ℕ → String) → Event → Audit → Audit
handle_event decimal starts a = start a
handle_event decimal (hears m) a = handle decimal m a
handle_event decimal (leader_timeout ec) a = handle_leader_alive_timeout decimal ec a
handle_event decimal (primary_timeout ec) a = handle_primary_alive_timeout decimal ec a
handle_event decimal (progress_timeout ec) a = handle_leader_progress_timeout decimal ec a

unfoldable pub run : (ℕ → String) → List Event → Audit → Audit
run decimal [] a = a
run decimal (e ∷ es) a = run decimal es (handle_event decimal e a)
