-- ===== src/Raft/Replication.antt =====
-- raft/raft.cpp: the replication of the log. The text of a message, for the auditors, and the size of an entry are
-- parameters. `none` is an exception or a read behind the end of a vector.
pub mod Majority
pub mod Handed
pub mod Commits
use swarm_db.Base.{
  ℕ, zero, suc, ◌+◌, ◌-◌, ◌*◌, ◌/◌, ◌%◌, ◌^◌, min, Bool, true, false, not, ◌&&◌, ◌||◌, Option, none,
  some, List, [], ◌∷◌, String, ltb, leb, eqb, length, get_elem?, is_some, if◌then◌else◌,
}
use swarm_db.Base.Equality.{◌==◌, string_eq}
use swarm_db.Base.Assoc.{Assoc, lookup, put}
use swarm_db.Pbft.Peers.{PeerAddress}
use swarm_db.Raft.Log.{
  LogEntryType, single_quorum, joint_quorum, EntryMessage, no_message, LogEntry, RaftLog, size,
  entry_at, entry_accepted, follower_insert_entry,
}
use swarm_db.Raft.Quorum.{
  or_throw, get_active_quorum, deduce_type_from_message, create_single_quorum_from_joint_quorum,
}
use swarm_db.Raft.State.{
  RaftState, follower, RaftMessage, append_entries, append_entries_reply, sends, answers, closes,
  commits, Raft, u32_mod, output, is_leader, is_candidate, start_election_timer,
  start_heartbeat_timer, update_raft_state, get_all_peers, notify_commit, touch, match_index,
  append_log_unsafe,
}

abbrev pub is_joint : LogEntryType → Bool
is_joint joint_quorum = true
is_joint _ = false

-- std::sort of the indices
unfoldable pub insert_index : ℕ → List ℕ → List ℕ
insert_index n [] = n ∷ []
insert_index n (m ∷ ms) = let rest = insert_index n ms in if leb n m then n ∷ m ∷ ms else m ∷ rest

unfoldable pub sort_indices : List ℕ → List ℕ
sort_indices [] = []
sort_indices (n ∷ ns) = insert_index n (sort_indices ns)

unfoldable pub match_indices : Assoc String ℕ → List String → List ℕ
match_indices m [] = []
match_indices m (u ∷ us) = match_index m u ∷ match_indices m us

-- match_indices[ceil(n / 2.0)], `none` where that is behind the end
unfoldable pub median : List ℕ → Option ℕ
median ns = get_elem? (sort_indices ns) ((length ns + 1) / 2)

-- The loop over the sets of the active quorum, from the result so far.
unfoldable pub least_median : Assoc String ℕ → List (List String) → ℕ → Option ℕ
least_median m [] result = some result
least_median m (s ∷ ss) result =
    or_throw (median (match_indices m s)) (λ n. least_median m ss (min result n))

unfoldable pub touch_set : List String → Assoc String ℕ → Assoc String ℕ
touch_set [] m = m
touch_set (u ∷ us) m = touch_set us (touch u m)

unfoldable pub touch_all : List (List String) → Assoc String ℕ → Assoc String ℕ
touch_all [] m = m
touch_all (s ∷ ss) m = touch_all ss (touch_set s m)

-- The index, and the state in which peers that were not known have index zero.
unfoldable pub last_majority_replicated_log_index : Raft → Option (ℕ × Raft)
last_majority_replicated_log_index r = or_throw (get_active_quorum r.raft_log) (λ sets.
    let touched = touch_all sets r.peer_match_index in
    or_throw (least_median touched sets (u32_mod - 1))
      (λ n. some (n, record r { peer_match_index = touched })))

module _ (entry_size : LogEntry → ℕ) where
  -- The end of `perform_commit`: a leader completes a change of the peers.
  unfoldable pub complete_change : LogEntry → Raft → Raft
  complete_change e r =
      if is_leader r && is_joint e.entry_type
      then (append_log_unsafe entry_size (create_single_quorum_from_joint_quorum e.msg)
          single_quorum r).0
      else r

  -- The entry of a message that has one is put behind the previous index.
  unfoldable pub take_entry : ℕ → ℕ → EntryMessage → RaftLog → Option RaftLog
  take_entry msg_index entry_term no_message log = some log
  take_entry msg_index entry_term entry log =
      follower_insert_entry entry_size msg_index
        (record {
          entry_type = deduce_type_from_message entry;
          log_index = msg_index;
          term = entry_term;
          msg = entry;
        })
        log

module _ (entry_size : LogEntry → ℕ) (to_text : EntryMessage → String)
    (is_ipv4 : String → Bool) where
  unfoldable pub perform_commit : LogEntry → Raft → Option Raft
  perform_commit e r = or_throw (notify_commit is_ipv4 r.commit_index (to_text e.msg) r) (λ s.
      some (
        complete_change entry_size e
          (record (output (commits e.msg) s) { commit_index = (s.commit_index + 1) % u32_mod })))

  -- for (i = commit_index; i < min(size, limit); ++i), with the rounds that are left
  unfoldable pub commit_up_to : ℕ → ℕ → ℕ → Raft → Option Raft
  commit_up_to zero i limit r = some r
  commit_up_to (suc n) i limit r =
      if ltb i (min (size r.raft_log) limit)
      then or_throw (entry_at r.raft_log i)
          (λ e. or_throw (perform_commit e r) (λ s. commit_up_to n (i + 1) limit s))
      else some r

  -- while (commit_index < last), with the rounds that are left
  unfoldable pub commit_while : ℕ → ℕ → Raft → Option Raft
  commit_while zero last r = some r
  commit_while (suc n) last r =
      if ltb r.commit_index last
      then or_throw (entry_at r.raft_log r.commit_index)
          (λ e. or_throw (perform_commit e r) (λ s. commit_while n last s))
      else some r

  unfoldable pub handle_request_append_entries_response : String → ℕ → Bool → ℕ → Raft → Option Raft
  handle_request_append_entries_response from term success matched r =
      if not (is_leader r)
      then some r
      else if ltb (size r.raft_log) matched || not (eqb term r.current_term)
      then some r
      else let s : Raft = record r { peer_match_index = put from matched r.peer_match_index } in
        if not success
        then some s
        else or_throw (last_majority_replicated_log_index s) (λ (last, t).
          if ltb (size t.raft_log) last
          then some t
          else commit_while (last - t.commit_index) last t)

  -- The commits and what follows them.
  unfoldable pub follow_commits : Bool → ℕ → Raft → Option Raft
  follow_commits success leader_commit r =
      or_throw
        (if success && ltb r.commit_index leader_commit
          then commit_up_to (leader_commit - r.commit_index) r.commit_index leader_commit r
          else some r)
        (λ s. some (
          start_election_timer
            (record s { peer_match_index = put s.leader leader_commit s.peer_match_index })))

  -- From the leader, its term, previous index and term, the term of the entry, the leader's commit index
  -- and the entry.
  unfoldable pub handle_ws_append_entries :
      String → ℕ → ℕ → ℕ → ℕ → ℕ → EntryMessage → Raft → Option Raft
  handle_ws_append_entries from term prev_index prev_term entry_term leader_commit entry r =
      let s : Raft = record r { in_a_swarm = r.in_a_swarm || not (from == r.uuid) } in
      if (is_candidate s || is_leader s) && leb term s.current_term
      then some (output closes (start_election_timer (update_raft_state term follower s)))
      else let msg_index = (prev_index + 1) % u32_mod in
        or_throw (entry_accepted prev_index prev_term s.raft_log) (λ success.
          or_throw
            (if success
              then take_entry entry_size msg_index entry_term entry s.raft_log
              else some s.raft_log)
            (λ log. follow_commits success leader_commit (
              output
                (answers (
                  append_entries_reply s.uuid s.current_term success
                    (min (size log) (msg_index + 1))))
                (record s { leader = from; raft_log = log }))))

-- An index before another on uint32_t.
abbrev pub before32 : ℕ → ℕ
before32 n = (n + (u32_mod - 1)) % u32_mod

-- What is sent to a peer whose index is known, `none` where `entry_at` throws, which is only logged, as is
-- the exception of a host that is no address.
unfoldable pub next_entries : ℕ → Raft → Option RaftMessage
next_entries index r =
    if ltb index (size r.raft_log)
    then or_throw (entry_at r.raft_log (before32 index)) (λ prev.
      or_throw (entry_at r.raft_log index) (λ e. some (
        append_entries r.uuid r.current_term r.commit_index (before32 index) prev.term e.term
          e.msg)))
    else let last = before32 (size r.raft_log) in
      or_throw (entry_at r.raft_log last) (λ prev.
        some (append_entries r.uuid r.current_term r.commit_index last prev.term 0 no_message))

unfoldable pub send_if : (String → Bool) → PeerAddress → Option RaftMessage → Raft → Raft
send_if is_ipv4 p none r = r
send_if is_ipv4 p (some m) r = if is_ipv4 p.host then output (sends p m) r else r

unfoldable pub send_entries : (String → Bool) → PeerAddress → Raft → Raft
send_entries is_ipv4 p r =
    let s : Raft = record r { peer_match_index = touch p.uuid r.peer_match_index } in
    send_if is_ipv4 p (next_entries (match_index s.peer_match_index p.uuid) s) s

unfoldable pub send_entries_to_others : (String → Bool) → List PeerAddress → Raft → Raft
send_entries_to_others is_ipv4 [] r = r
send_entries_to_others is_ipv4 (p ∷ ps) r =
    send_entries_to_others is_ipv4 ps (if p.uuid == r.uuid then r else send_entries is_ipv4 p r)

unfoldable pub request_append_entries : (String → Bool) → Raft → Option Raft
request_append_entries is_ipv4 r =
    or_throw (get_all_peers r)
      (λ peers. some (start_heartbeat_timer (send_entries_to_others is_ipv4 peers r)))
