-- ===== src/Audit/Handlers.antt =====
-- audit/audit.cpp: the handlers of messages and of timeouts.
use swarm_db.Base.{
  ℕ, ◌+◌, ◌%◌, ◌^◌, Bool, true, false, not, ◌&&◌, Option, none, some, [], ◌∷◌, String, ltb, eqb,
  if◌then◌else◌,
}
use swarm_db.Base.Equality.{◌==◌, nat_eq, string_eq}
use swarm_db.Base.Assoc.{lookup}
use swarm_db.Base.Assoc.Ordered.{put_ordered}
use swarm_db.Proto.{
  AuditMessage, raft_commit, leader_status, pbft_commit, primary_status, failure_detected,
}
use swarm_db.Audit.State.{
  LeaderStatus, Audit, format, counter, send_to_monitor, trim, report_error, restart_timer,
  reset_primary_alive_timer, reset_leader_alive_timer, reset_leader_progress_timer,
  clear_leader_progress_timer, waits_for_leader, waits_for_primary, waits_for_progress,
}

-- ++count on an unsigned int
abbrev pub next32 : ℕ → ℕ
next32 n = (n + 1) % 2 ^ 32

unfoldable pub handle_leader_made_progress : LeaderStatus → Audit → Audit
handle_leader_made_progress status a =
    if eqb status.current_commit_index status.current_log_index
    then record (clear_leader_progress_timer a) { leader_has_uncommitted_entries = false }
    else record (reset_leader_progress_timer a) { leader_has_uncommitted_entries = true }

-- The three cases of `handle_leader_data`, before the commit index is noted.
unfoldable pub follow_leader : LeaderStatus → Audit → Audit
follow_leader status a =
    if not (status.leader == a.last_leader)
    then handle_leader_made_progress status (record a { last_leader = status.leader })
    else if ltb a.last_leader_commit_index status.current_commit_index
    then handle_leader_made_progress status a
    else if ltb status.current_commit_index status.current_log_index
        && not a.leader_has_uncommitted_entries
    then record (reset_leader_progress_timer a) { leader_has_uncommitted_entries = true }
    else a

unfoldable pub handle_leader_data : LeaderStatus → Audit → Audit
handle_leader_data status a = record (follow_leader status a) {
  last_leader_commit_index = status.current_commit_index;
}

unfoldable pub handle_failure_detected : Audit → Audit
handle_failure_detected a =
    if a.use_pbft then send_to_monitor (counter "pbft.stats.failure_detected") a else a

module _ (decimal : ℕ → String) where
  -- The timeouts; the argument says whether the wait ended with an error, as a canceled one does.
  unfoldable pub handle_leader_alive_timeout : Bool → Audit → Audit
  handle_leader_alive_timeout true a = a
  handle_leader_alive_timeout false a =
      let count = next32 a.leader_dead_count in
      let b = clear_leader_progress_timer (
        report_error "raft.liveness.no_leader"
          (format ("No leader alive [" ∷ decimal count ∷ "]" ∷ []))
          (record a { leader_dead_count = count })) in
      record b {
        leader_has_uncommitted_entries = false;
        leader_alive_timer = restart_timer waits_for_leader b.leader_alive_timer;
      }

  unfoldable pub handle_primary_alive_timeout : Bool → Audit → Audit
  handle_primary_alive_timeout true a = a
  handle_primary_alive_timeout false a =
      let count = next32 a.primary_dead_count in
      let b =
        report_error "pbft.liveness.no_primary"
          (format ("No primary alive [" ∷ decimal count ∷ "]" ∷ []))
          (record a { primary_dead_count = count }) in
      record b { leader_alive_timer = restart_timer waits_for_primary b.leader_alive_timer }

  unfoldable pub handle_leader_progress_timeout : Bool → Audit → Audit
  handle_leader_progress_timeout true a = a
  handle_leader_progress_timeout false a =
      let count = next32 a.leader_stuck_count in
      let b =
        report_error "raft.liveness.leader_stuck"
          (format ("Leader alive but not making progress [" ∷ decimal count ∷ "]" ∷ []))
          (record a { leader_stuck_count = count }) in
      record b { leader_progress_timer = restart_timer waits_for_progress b.leader_progress_timer }

  -- What is done with the primary that is known of the view, if any.
  unfoldable pub note_primary : Option String → ℕ → String → Audit → Audit
  note_primary none view primary a =
      let b = send_to_monitor (counter "pbft.stats.primary_heard") a in
      trim (record b { recorded_primaries = put_ordered view primary b.recorded_primaries })
  note_primary (some old) view primary a =
      if old == primary
      then a
      else report_error "pbft.safety.primary_conflict"
          (format (
            "Conflicting primary elected! '"
            ∷ old
            ∷ "' is the recorded primary of view "
            ∷ decimal view
            ∷ ", but '"
            ∷ primary
            ∷ "' claims to be the primary of the same view."
            ∷ []))
          a

  unfoldable pub handle_primary_status : ℕ → String → Audit → Audit
  handle_primary_status view primary a =
      if a.use_pbft
      then reset_primary_alive_timer
          (note_primary (lookup view a.recorded_primaries) view primary a)
      else a

  unfoldable pub note_leader : Option String → ℕ → String → Audit → Audit
  note_leader none term leader a =
      let b = send_to_monitor (counter "raft.stats.new_leader_heard") a in
      trim (record b { recorded_leaders = put_ordered term leader b.recorded_leaders })
  note_leader (some old) term leader a =
      if old == leader
      then a
      else report_error "raft.safety.leader_conflict"
          (format (
            "Conflicting leader elected! '"
            ∷ old
            ∷ "' is the recorded leader of term "
            ∷ decimal term
            ∷ ", but '"
            ∷ leader
            ∷ "' claims to be the leader of the same term."
            ∷ []))
          a

  unfoldable pub handle_leader_status : LeaderStatus → Audit → Audit
  handle_leader_status status a =
      if a.use_pbft
      then a
      else handle_leader_data status (
          reset_leader_alive_timer
            (note_leader (lookup status.term a.recorded_leaders) status.term status.leader a))

  unfoldable pub note_raft_commit : Option String → ℕ → String → Audit → Audit
  note_raft_commit none index operation a =
      trim
        (record a { recorded_raft_commits = put_ordered index operation a.recorded_raft_commits })
  note_raft_commit (some old) index operation a =
      if old == operation
      then a
      else report_error "raft.safety.commit_conflict"
          (format (
            "Conflicting commit detected! '"
            ∷ old
            ∷ "' is the recorded entry at index "
            ∷ decimal index
            ∷ ", but '"
            ∷ operation
            ∷ "' has been committed with the same index."
            ∷ []))
          a

  unfoldable pub handle_raft_commit : ℕ → String → Audit → Audit
  handle_raft_commit index operation a =
      if a.use_pbft
      then a
      else note_raft_commit (lookup index a.recorded_raft_commits) index operation
          (send_to_monitor (counter "raft.stats.commit_heard") a)

  unfoldable pub note_pbft_commit : Option String → ℕ → String → Audit → Audit
  note_pbft_commit none sequence operation a =
      trim (record a {
        recorded_pbft_commits = put_ordered sequence operation a.recorded_pbft_commits;
      })
  note_pbft_commit (some old) sequence operation a =
      if old == operation
      then a
      else report_error "pbft.safety.commit_conflict"
          (format (
            "Conflicting commit detected! '"
            ∷ old
            ∷ "' is the recorded entry at sequence "
            ∷ decimal sequence
            ∷ ", but '"
            ∷ operation
            ∷ "' has been committed with the same sequence."
            ∷ []))
          a

  unfoldable pub handle_pbft_commit : ℕ → String → Audit → Audit
  handle_pbft_commit sequence operation a =
      if a.use_pbft
      then note_pbft_commit (lookup sequence a.recorded_pbft_commits) sequence operation
          (send_to_monitor (counter "pbft.stats.commit_heard") a)
      else a

  -- An unset message is only logged.
  unfoldable pub handle : Option AuditMessage → Audit → Audit
  handle none a = a
  handle (some (raft_commit index operation)) a = handle_raft_commit index operation a
  handle (some (leader_status term leader log_index commit_index)) a =
      handle_leader_status
        (record {
          term = term;
          leader = leader;
          current_log_index = log_index;
          current_commit_index = commit_index;
        })
        a
  handle (some (pbft_commit sender sequence operation)) a = handle_pbft_commit sequence operation a
  handle (some (primary_status view primary)) a = handle_primary_status view primary a
  handle (some (failure_detected sender)) a = handle_failure_detected a
