-- ===== src/Raft/Elections.antt =====
-- raft/raft.cpp: elections, and the changes of the peers that a leader is asked for.
pub mod Changes
pub mod Votes
use swarm_db.Base.{
  ℕ, ◌+◌, ◌%◌, Bool, true, false, not, ◌&&◌, ◌||◌, Option, none, some, List, [], ◌∷◌, String, ltb,
  leb, eqb, is_some, find_if, if◌then◌else◌,
}
use swarm_db.Base.Equality.{◌==◌, string_eq}
use swarm_db.Base.Assoc.{Assoc, put}
use swarm_db.Base.Sets.{insert}
use swarm_db.Proto.{PeerInfo}
use swarm_db.Raft.Log.{LogEntryType, joint_quorum, EntryMessage, LogEntry, size, last_quorum_entry}
use swarm_db.Raft.Quorum.{
  or_throw, peers_of, is_majority, in_quorum, create_joint_quorum_by_adding_peer,
  create_joint_quorum_by_removing_peer,
}
use swarm_db.Raft.State.{
  RaftState, candidate, follower, leader, RaftMessage, request_vote, response_vote, append_entries,
  append_entries_reply, error_message, success_message, answers, closes, Raft, u32_mod, output,
  is_leader, is_candidate, start_election_timer, update_raft_state, get_all_peers, send_to_others,
  notify_leader_status, append_log_unsafe,
}
use swarm_db.Raft.Replication.{
  is_joint, request_append_entries, handle_request_append_entries_response,
  handle_ws_append_entries,
}

unfoldable pub request_vote_request : (String → Bool) → Raft → Option Raft
request_vote_request is_ipv4 r =
    let s : Raft = record (update_raft_state ((r.current_term + 1) % u32_mod) candidate r) {
      voted_for = some r.uuid;
      yes_votes = r.uuid ∷ [];
      no_votes = [];
      leader = "";
    } in
    or_throw (get_all_peers s) (λ peers. some (
      start_election_timer (
        send_to_others is_ipv4
          (request_vote s.uuid s.current_term (size s.raft_log) s.last_log_term) peers s)))

-- Every known index becomes one.
unfoldable pub reset_indices : Assoc String ℕ → Assoc String ℕ
reset_indices [] = []
reset_indices ((u, n) ∷ m) = (u, 1) ∷ reset_indices m

-- The winner of the election.
unfoldable pub become_leader : (String → Bool) → Raft → Option Raft
become_leader is_ipv4 r =
    let s = update_raft_state r.current_term leader r in
    request_append_entries is_ipv4
      (record s { peer_match_index = reset_indices s.peer_match_index })

unfoldable pub tally_vote : (String → Bool) → String → Bool → Raft → Option Raft
tally_vote is_ipv4 from true r =
    let s : Raft = record r { yes_votes = insert from r.yes_votes } in
    or_throw (is_majority s.yes_votes s.raft_log)
      (λ won. if won then become_leader is_ipv4 s else some s)
tally_vote is_ipv4 from false r =
    let s : Raft = record r { no_votes = insert from r.no_votes } in
    or_throw (is_majority s.no_votes s.raft_log) (λ lost.
      some (if lost then start_election_timer (update_raft_state s.current_term follower s) else s))

unfoldable pub handle_request_vote_response :
    (String → Bool) → String → ℕ → Bool → Raft → Option Raft
handle_request_vote_response is_ipv4 from term granted r =
    if is_leader r && ltb r.current_term term
    then some (start_election_timer (update_raft_state term follower r))
    else if not (is_candidate r)
    then some r
    else tally_vote is_ipv4 from granted r

unfoldable pub handle_ws_request_vote : String → ℕ → Raft → Raft
handle_ws_request_vote from last_log_index r =
    if is_leader r || is_some r.voted_for
    then output (answers (response_vote r.uuid r.current_term false)) r
    else output
        (answers (response_vote r.uuid r.current_term (leb (size r.raft_log) last_log_index)))
        (record r { voted_for = some from })

-- The timer's argument says whether it was canceled. The search for a swarm before an election is left out.
unfoldable pub handle_heartbeat_timeout : (String → Bool) → Bool → Raft → Option Raft
handle_heartbeat_timeout is_ipv4 true r = some r
handle_heartbeat_timeout is_ipv4 false r =
    or_throw (request_append_entries is_ipv4 r) (notify_leader_status is_ipv4)

-- The daemon steps down.
abbrev pub step_down : ℕ → Raft → Raft
step_down term r =
    start_election_timer (record (update_raft_state term follower r) { voted_for = none })

-- A message of a newer term, with the term taken over. The request for a vote has no member "uuid",
-- which reads as the empty text.
unfoldable pub handle_newer_term : RaftMessage → Raft → Raft
handle_newer_term (request_vote from term last_log_index last_log_term) r =
    output (answers (response_vote r.uuid r.current_term true)) (record r { voted_for = some "" })
handle_newer_term (append_entries from term leader_commit prev_index prev_term entry_term entry) r =
    step_down r.current_term (
      output (answers (append_entries_reply r.uuid r.current_term false (size r.raft_log)))
        (record r { leader = from }))
handle_newer_term _ r = step_down r.current_term r

-- The sender and the term, which the four messages of the protocol have.
abbrev pub sender_and_term : RaftMessage → Option (String × ℕ)
sender_and_term (request_vote from term last_log_index last_log_term) = some (from, term)
sender_and_term (response_vote from term granted) = some (from, term)
sender_and_term (append_entries from term leader_commit prev_index prev_term entry_term entry) =
    some (from, term)
sender_and_term (append_entries_reply from term success matched) = some (from, term)
sender_and_term _ = none

abbrev pub refuse : String → Raft → Raft
refuse text r = output (answers (error_message text)) r

abbrev pub msg_error_current_quorum_is_joint : String
msg_error_current_quorum_is_joint =
    "A peer cannot be added or removed until the last quorum change request has been processed."

module _ (entry_size : LogEntry → ℕ) (to_text : EntryMessage → String)
    (is_ipv4 : String → Bool) where
  -- The messages of the same term.
  unfoldable pub handle_same_term : RaftMessage → Raft → Option Raft
  handle_same_term (request_vote from term last_log_index last_log_term) r =
      some (handle_ws_request_vote from last_log_index r)
  handle_same_term (append_entries from term leader_commit prev_index prev_term entry_term entry)
        r =
      handle_ws_append_entries entry_size to_text is_ipv4 from term prev_index prev_term entry_term
        leader_commit entry r
  handle_same_term (append_entries_reply from term success matched) r =
      or_throw
        (handle_request_append_entries_response entry_size to_text is_ipv4 from term success matched
          r)
        (λ s. some (output closes s))
  handle_same_term (response_vote from term granted) r =
      or_throw (handle_request_vote_response is_ipv4 from term granted r)
        (λ s. some (output closes s))
  handle_same_term _ r = some r

  unfoldable pub handle_by_term : ℕ → RaftMessage → Raft → Option Raft
  handle_by_term term m r =
      if eqb r.current_term term
      then handle_same_term m r
      else if ltb r.current_term term
      then some (handle_newer_term m (record r { current_term = term }))
      else some (step_down term r)

  -- The part of `handle_ws_raft_messages` behind the requests of peers.
  unfoldable pub handle_protocol_message : RaftMessage → Raft → Option Raft
  handle_protocol_message m r = elim (sender_and_term m) [
    | none ↦ some r
    | some (from, term) ↦
        or_throw (in_quorum from r.raft_log)
          (λ known. if known then handle_by_term term m r else some r)
  ]

module _ (entry_size : LogEntry → ℕ) where
  -- What is appended, with the answer.
  unfoldable pub append_change : EntryMessage → String → String → Raft → Raft
  append_change msg cmd text r =
      output (answers (success_message cmd text))
        (append_log_unsafe entry_size msg joint_quorum r).0

  unfoldable pub add_to_quorum : (PeerInfo → Option String) → PeerInfo → LogEntry → Raft → Raft
  add_to_quorum validate peer last r =
      if is_joint last.entry_type
      then refuse msg_error_current_quorum_is_joint r
      else if is_some (find_if (λ p. p.uuid == peer.uuid) (peers_of last.msg))
      then refuse "ERROR_PEER_ALREADY_EXISTS" r
      else if peer.uuid == ""
      then refuse "ERROR_INVALID_UUID" r
      else elim (if r.enable_peer_validation then validate peer else none) [
        | some text ↦ refuse text r
        | none ↦
            append_change (create_joint_quorum_by_adding_peer last.msg peer) "add_peer"
              "SUCCESS_PEER_ADDED_TO_SWARM"
              (record r { peer_match_index = put peer.uuid 1 r.peer_match_index })
      ]

  unfoldable pub remove_from_quorum : String → LogEntry → Raft → Raft
  remove_from_quorum uuid last r =
      if is_joint last.entry_type
      then refuse msg_error_current_quorum_is_joint r
      else if is_some (find_if (λ p. p.uuid == uuid) (peers_of last.msg))
      then append_change (create_joint_quorum_by_removing_peer last.msg uuid) "remove_peer"
          "SUCCESS_PEER_REMOVED_FROM_SWARM" r
      else refuse "ERROR_PEER_NOT_FOUND" r

  -- The validation of the peer's signature is a test of the peer with the error that it sends.
  unfoldable pub handle_add_peer : (PeerInfo → Option String) → PeerInfo → Raft → Option Raft
  handle_add_peer validate peer r =
      if not (is_leader r)
      then some (refuse "ERROR_ADD_PEER_MUST_BE_SENT_TO_LEADER" r)
      else or_throw (last_quorum_entry r.raft_log)
          (λ last. some (add_to_quorum validate peer last r))

  unfoldable pub handle_remove_peer : String → Raft → Option Raft
  handle_remove_peer uuid r =
      if not (is_leader r)
      then some (refuse "ERROR_REMOVE_PEER_MUST_BE_SENT_TO_LEADER" r)
      else or_throw (last_quorum_entry r.raft_log) (λ last. some (remove_from_quorum uuid last r))
