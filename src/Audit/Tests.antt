-- ===== src/Audit/Tests.antt =====
-- The auditor of audit/audit.cpp on short courses of events, and its theorems there.
use swarm_db.Base.{
  ℕ, ◌+◌, ◌*◌, ◌≤◌, ◌≡◌, refl, true, false, not, ◌&&◌, ◌||◌, Option, some, List, [], ◌∷◌, String,
  arith, if◌then◌else◌, ltb,
}
use swarm_db.Base.Equality.{nat_eq, string_eq}
use swarm_db.Base.Assoc.{lookup}
use swarm_db.Proto.{AuditMessage, raft_commit, leader_status}
use swarm_db.Audit.State.{LeaderStatus, Audit, new_audit, error_count, current_memory_size}
use swarm_db.Audit.Handlers.{handle_leader_data, handle}
use swarm_db.Audit.Events.{Event, hears, leader_timeout, run, handle_event}
use swarm_db.Audit.Memory.{memory}
use swarm_db.Audit.Bounds.{
  IsBounded, new_audit-IsBounded, handle_event-IsBounded, current_memory_size-run,
}
use swarm_db.Audit.Counts.{is_conflict, counted, error_count-handle}
use swarm_db.Audit.Recorded.{World}
use swarm_db.Audit.Agreement.{heard, error_count-run_quiet}
use swarm_db.Audit.Progress.{IsWatching, is_stuck, handle_leader_data-IsWatching}

abbrev decimal : ℕ → String
decimal n = "n"

abbrev fresh : Audit
fresh = new_audit "node" false 2 false

abbrev commits : List Event
commits =
    hears (some (raft_commit 1 "a")) ∷ hears (some (raft_commit 1 "b")) ∷ leader_timeout false ∷ []

current_memory_size-run_example :
    current_memory_size (run decimal commits (new_audit "node" false 2 false)) ≤ 3 * 2
current_memory_size-run_example = current_memory_size-run decimal "node" false false 2 commits

handle_event-IsBounded_test :
    IsBounded 2 (memory (handle_event decimal (leader_timeout false) fresh))
handle_event-IsBounded_test =
    handle_event-IsBounded decimal (leader_timeout false) fresh
      (new_audit-IsBounded "node" false 2 false)

abbrev informed : Audit
informed = record fresh { recorded_raft_commits = (1, "a") ∷ [] }

error_count-handle_example :
    error_count (handle decimal (some (raft_commit 1 "b")) informed)
    ≡ counted (is_conflict (some (raft_commit 1 "b")) informed) (error_count informed)
error_count-handle_example = error_count-handle decimal (some (raft_commit 1 "b")) informed

contradiction : is_conflict (some (raft_commit 1 "b")) informed ≡ true
unfolding lookup
contradiction = refl

abbrev world : World
world = record {
  leader_of = λ t. "l";
  commit_at = λ i. "a";
  operation_at = λ s. "o";
  primary_of = λ v. "p";
}

abbrev true_messages : List (Option AuditMessage)
true_messages =
    some (raft_commit 1 "a") ∷ some (leader_status 1 "l" 2 1) ∷ some (raft_commit 1 "a") ∷ []

error_count-run_quiet_example :
    error_count (run decimal (heard true_messages) (new_audit "node" false 2 false)) ≡ 0
error_count-run_quiet_example =
    error_count-run_quiet decimal world "node" false false 2 true_messages
      (refl, (refl, (refl, tt)))

abbrev status : LeaderStatus
status = record { term = 1; leader = "l"; current_log_index = 3; current_commit_index = 2 }

handle_leader_data-IsWatching_example :
    IsWatching (handle_leader_data status fresh)
    × ((handle_leader_data status fresh).leader_has_uncommitted_entries
        ≡ (ltb 2 3 || (is_stuck status fresh && false)))
    × ((handle_leader_data status fresh).leader_progress_timer.starts
        ≡ (if ltb 2 3 && not (is_stuck status fresh && false) then 0 + 1 else 0))
handle_leader_data-IsWatching_example =
    handle_leader_data-IsWatching status fresh (omega arith) refl
