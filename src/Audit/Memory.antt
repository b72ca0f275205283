-- ===== src/Audit/Memory.antt =====
-- audit/audit.cpp: what the auditor remembers, and the functions that leave it as it is.
use swarm_db.Base.{
  ℕ, ◌≡◌, refl, Bool, true, false, not, ◌&&◌, List, String, if◌then◌else◌, ltb, eqb,
}
use swarm_db.Base.Equality.{◌==◌, string_eq}
use swarm_db.Base.Assoc.{Assoc}
use swarm_db.Audit.State.{
  LeaderStatus, Audit, send_to_monitor, start, reset_primary_alive_timer, reset_leader_alive_timer,
  reset_leader_progress_timer, clear_leader_progress_timer,
}
use swarm_db.Audit.Handlers.{
  handle_leader_made_progress, follow_leader, handle_leader_data, handle_failure_detected,
}

pub record Memory : Type 0 where
  pub errors : List String
  pub forgotten : ℕ
  pub leaders : Assoc ℕ String
  pub raft_commits : Assoc ℕ String
  pub primaries : Assoc ℕ String
  pub pbft_commits : Assoc ℕ String
  pub mem_size : ℕ
  pub use_pbft : Bool

abbrev pub memory : Audit → Memory
memory a = record {
  errors = a.recorded_errors;
  forgotten = a.forgotten_error_count;
  leaders = a.recorded_leaders;
  raft_commits = a.recorded_raft_commits;
  primaries = a.recorded_primaries;
  pbft_commits = a.recorded_pbft_commits;
  mem_size = a.mem_size;
  use_pbft = a.use_pbft;
}

pub memory-if :
    (b : Bool) (x y : Audit) (m : Memory)
    → memory x ≡ m
    → memory y ≡ m
    → memory (if b then x else y) ≡ m
memory-if true x y m p q = p
memory-if false x y m p q = q

pub memory-send_to_monitor :
    (stat : String) (a : Audit) → memory (send_to_monitor stat a) ≡ memory a
unfolding send_to_monitor
memory-send_to_monitor stat a = memory-if a.has_monitor _ _ _ refl refl

memory-handle_leader_made_progress :
    (s : LeaderStatus) (a : Audit) → memory (handle_leader_made_progress s a) ≡ memory a
unfolding handle_leader_made_progress clear_leader_progress_timer reset_leader_progress_timer
memory-handle_leader_made_progress s a =
    memory-if (eqb s.current_commit_index s.current_log_index) _ _ _ refl refl

memory-follow_leader : (s : LeaderStatus) (a : Audit) → memory (follow_leader s a) ≡ memory a
unfolding follow_leader reset_leader_progress_timer
memory-follow_leader s a =
    memory-if (not (s.leader == a.last_leader)) _ _ _
      (memory-handle_leader_made_progress s (record a { last_leader = s.leader }))
      (memory-if (ltb a.last_leader_commit_index s.current_commit_index) _ _ _
        (memory-handle_leader_made_progress s a)
        (memory-if
          (ltb s.current_commit_index s.current_log_index && not a.leader_has_uncommitted_entries) _
          _ _ refl refl))

pub memory-handle_leader_data :
    (s : LeaderStatus) (a : Audit) → memory (handle_leader_data s a) ≡ memory a
unfolding handle_leader_data
memory-handle_leader_data s a = memory-follow_leader s a

pub memory-start : (a : Audit) → memory (start a) ≡ memory a
unfolding start reset_primary_alive_timer reset_leader_alive_timer
memory-start a = memory-if a.started _ _ _ refl (memory-if a.use_pbft _ _ _ refl refl)

pub memory-handle_failure_detected : (a : Audit) → memory (handle_failure_detected a) ≡ memory a
unfolding handle_failure_detected
memory-handle_failure_detected a = memory-if a.use_pbft _ _ _ (memory-send_to_monitor _ a) refl
