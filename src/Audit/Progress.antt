-- ===== src/Audit/Progress.antt =====
-- audit/audit.cpp: the timer that watches whether the leader commits the entries of its log.
use swarm_db.Base.{◌+◌, ◌≤◌, ◌≡◌, Bool, not, ◌&&◌, ◌||◌, arith, if◌then◌else◌, ltb, leb}
use swarm_db.Base.Equality.{◌==◌, string_eq}
use swarm_db.Audit.State.{
  LeaderStatus, Audit, idle, waits_for_progress, reset_leader_progress_timer,
  clear_leader_progress_timer,
}
use swarm_db.Audit.Handlers.{handle_leader_made_progress, follow_leader, handle_leader_data}

-- The timer runs exactly while the leader is known to have entries to commit.
abbrev pub IsWatching : Audit → Type 0
IsWatching a =
    a.leader_progress_timer.waiting
    ≡ (if a.leader_has_uncommitted_entries then waits_for_progress else idle)

-- The same leader, which has not committed more than when it was last heard.
abbrev pub is_stuck : LeaderStatus → Audit → Bool
is_stuck status a =
    status.leader == a.last_leader && leb status.current_commit_index a.last_leader_commit_index

module _ (status : LeaderStatus) (a : Audit) where
  follow_leader-IsWatching :
      status.current_commit_index ≤ status.current_log_index
      → IsWatching a
      → IsWatching (follow_leader status a)
  unfolding follow_leader handle_leader_made_progress clear_leader_progress_timer
      reset_leader_progress_timer
  follow_leader-IsWatching le w = ground arith

  follow_leader_entries :
      status.current_commit_index ≤ status.current_log_index
      → (follow_leader status a).leader_has_uncommitted_entries ≡ (
          ltb status.current_commit_index status.current_log_index
          || (is_stuck status a && a.leader_has_uncommitted_entries))
  unfolding follow_leader handle_leader_made_progress clear_leader_progress_timer
      reset_leader_progress_timer
  follow_leader_entries le = ground arith

  follow_leader_starts :
      status.current_commit_index ≤ status.current_log_index
      → (follow_leader status a).leader_progress_timer.starts ≡ (
          if ltb status.current_commit_index status.current_log_index
            && not (is_stuck status a && a.leader_has_uncommitted_entries)
          then a.leader_progress_timer.starts + 1
          else a.leader_progress_timer.starts)
  unfolding follow_leader handle_leader_made_progress clear_leader_progress_timer
      reset_leader_progress_timer
  follow_leader_starts le = ground arith

  -- A status whose commit index is within the log keeps the progress timer running exactly while
  -- uncommitted entries are known. They are known after it if its log has any, or if the same leader
  -- with no new commit had some before; and the timer starts anew exactly if the log has some and the
  -- leader is new, has committed more, or had none before.
  pub handle_leader_data-IsWatching :
      status.current_commit_index ≤ status.current_log_index
      → IsWatching a
      → IsWatching (handle_leader_data status a)
        × ((handle_leader_data status a).leader_has_uncommitted_entries ≡ (
            ltb status.current_commit_index status.current_log_index
            || (is_stuck status a && a.leader_has_uncommitted_entries)))
        × ((handle_leader_data status a).leader_progress_timer.starts ≡ (
            if ltb status.current_commit_index status.current_log_index
              && not (is_stuck status a && a.leader_has_uncommitted_entries)
            then a.leader_progress_timer.starts + 1
            else a.leader_progress_timer.starts))
  unfolding handle_leader_data
  handle_leader_data-IsWatching le w =
      (follow_leader-IsWatching le w, follow_leader_entries le, follow_leader_starts le)
