-- ===== src/Raft/Elections/Votes.antt =====
-- raft/raft.cpp: the votes of a daemon across changes of its term.
use swarm_db.Base.{ℕ, ◌<◌, ◌≡◌, refl, Bool, true, none, some, [], ◌∷◌, ◌++◌, String, arith}
use swarm_db.Raft.Log.{LogEntry, EntryMessage}
use swarm_db.Raft.Quorum.{in_quorum}
use swarm_db.Raft.State.{
  follower, RaftMessage, request_vote, response_vote, answers, Raft, start_election_timer,
  update_raft_state,
}
use swarm_db.Raft.Elections.{
  handle_newer_term, step_down, sender_and_term, handle_by_term, handle_protocol_message,
}

module _ (entry_size : LogEntry → ℕ) (to_text : EntryMessage → String)
    (is_ipv4 : String → Bool) where
  -- A daemon that hears a message of an older term from a peer of its quorum goes back to that term as a
  -- follower and forgets its vote, and then grants a request for a vote in the term that it was in, whomever it had
  -- voted for in that term before.
  pub handle_protocol_message-vote_again :
      (m : RaftMessage) (from from' : String) (old index log_term : ℕ) (r : Raft)
      → sender_and_term m ≡ some (from, old)
      → in_quorum from r.raft_log ≡ some true
      → in_quorum from' r.raft_log ≡ some true
      → old < r.current_term
      → (s : Raft) × (t : Raft) × (handle_protocol_message entry_size to_text is_ipv4 m r ≡ some s)
        × (s.current_term ≡ old)
        × (s.current_state ≡ follower)
        × (s.voted_for ≡ none)
        × (handle_protocol_message entry_size to_text is_ipv4
              (request_vote from' r.current_term index log_term)
              s
            ≡ some t)
        × (t.current_term ≡ r.current_term)
        × (t.outputs ≡ r.outputs ++ answers (response_vote r.uuid r.current_term true) ∷ [])
  unfolding handle_protocol_message handle_by_term handle_newer_term update_raft_state
      start_election_timer
  handle_protocol_message-vote_again m from from' old index log_term r sent known known' lt =
      let back : Raft = step_down old r in
      (
        back,
        handle_newer_term (request_vote from' r.current_term index log_term)
            (record back { current_term = r.current_term }),
        ground (arith, sent, known, lt),
        refl,
        refl,
        refl,
        ground (arith, known', lt),
        refl,
        refl,
      )
