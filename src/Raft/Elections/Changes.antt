-- ===== src/Raft/Elections/Changes.antt =====
-- raft/raft.cpp: a change of the peers is the next configuration after the last one in the log.
use swarm_db.Base.{
  ℕ, ◌%◌, ◌≡◌, refl, sym, true, Option, none, some, List, [], ◌∷◌, ◌++◌, String, find_if, is_some,
  if◌then◌else◌, arith, Bool-cases, Option-cases, ◌⊎◌, inl, inr,
}
use swarm_db.Base.Equality.{◌==◌, string_eq}
use swarm_db.Proto.{PeerInfo}
use swarm_db.Raft.Log.{
  LogEntryType, single_quorum, joint_quorum, EntryMessage, single_peers, joint_peers, LogEntry,
  RaftLog, size, is_quorum, find_last, last_quorum_entry, append_log_disk, leader_append_entry,
}
use swarm_db.Raft.Quorum.{
  deduce_type_from_message, create_joint_quorum_by_adding_peer,
  create_single_quorum_from_joint_quorum,
}
use swarm_db.Raft.State.{Raft, u32_mod, is_leader, append_log_unsafe}
use swarm_db.Raft.Replication.{complete_change}
use swarm_db.Raft.Elections.{refuse, append_change, add_to_quorum}

find_last-append :
    (es : List LogEntry) (e : LogEntry) → is_quorum e ≡ true → find_last (es ++ e ∷ []) ≡ some e
unfolding find_last
find_last-append [] e h = rw h refl
find_last-append (f ∷ es) e h = rw (find_last-append es e h) refl

-- The entry that a leader appends for a message of this type.
abbrev pub entry_for : LogEntryType → EntryMessage → Raft → LogEntry
entry_for t m r = record {
  entry_type = t;
  log_index = size r.raft_log % u32_mod;
  term = r.current_term;
  msg = m;
}

deduce-adding :
    (ps : List PeerInfo) (peer : PeerInfo)
    → deduce_type_from_message (create_joint_quorum_by_adding_peer (single_peers ps) peer)
      ≡ joint_quorum
unfolding deduce_type_from_message create_joint_quorum_by_adding_peer
deduce-adding [] peer = refl
deduce-adding (p ∷ ps) peer = refl

-- The last configuration of the log is the joint one of these peers and of the peer with them, under the type of
-- its message and the term of the leader.
abbrev pub IsNext : List PeerInfo → PeerInfo → ℕ → Raft → Type 0
IsNext ps peer term r' =
    (e : LogEntry) × (last_quorum_entry r'.raft_log ≡ some e)
    × (e.entry_type ≡ deduce_type_from_message e.msg)
    × (e.msg ≡ joint_peers ps (ps ++ peer ∷ []))
    × (e.term ≡ term)

-- Why a request to add a peer is refused.
abbrev pub refusal : (PeerInfo → Option String) → PeerInfo → List PeerInfo → Raft → Option String
refusal validate peer ps r =
    if is_some (find_if (λ p. p.uuid == peer.uuid) ps)
    then some "ERROR_PEER_ALREADY_EXISTS"
    else if peer.uuid == ""
    then some "ERROR_INVALID_UUID"
    else if r.enable_peer_validation
    then validate peer
    else none

module _ (entry_size : LogEntry → ℕ) where
  leader_append_entry_log :
      (e : LogEntry) (log : RaftLog)
      → (leader_append_entry entry_size e log).log_entries ≡ log.log_entries ++ e ∷ []
  unfolding leader_append_entry append_log_disk
  leader_append_entry_log e log = ground arith

  last_quorum_entry-append_log_unsafe :
      (m : EntryMessage) (t : LogEntryType) (r : Raft)
      → is_leader r ≡ true
      → is_quorum (entry_for t m r) ≡ true
      → last_quorum_entry (append_log_unsafe entry_size m t r).0.raft_log ≡ some (entry_for t m r)
  unfolding append_log_unsafe last_quorum_entry
  last_quorum_entry-append_log_unsafe m t r l q =
      rw (l, leader_append_entry_log (entry_for t m r) r.raft_log)
        (find_last-append r.raft_log.log_entries (entry_for t m r) q)

  -- When a leader commits a joint quorum, the last configuration of its log becomes the one that
  -- completes the change: the new peers alone.
  pub complete_change-completes :
      (old new : List PeerInfo) (i n : ℕ) (r : Raft)
      → is_leader r ≡ true
      → (e : LogEntry) × (last_quorum_entry
            (complete_change entry_size
              (record {
                entry_type = joint_quorum;
                log_index = i;
                term = n;
                msg = joint_peers old new;
              })
              r).raft_log
          ≡ some e)
        × (e.entry_type ≡ single_quorum)
        × (e.msg ≡ single_peers new)
        × (e.term ≡ r.current_term)
  unfolding complete_change create_single_quorum_from_joint_quorum
  complete_change-completes old new i n r l =
      let m = create_single_quorum_from_joint_quorum (joint_peers old new) in
      (
        entry_for single_quorum m r,
        rw l (last_quorum_entry-append_log_unsafe m single_quorum r l refl),
        refl,
        refl,
        refl,
      )

  append_change-IsNext :
      (peer : PeerInfo) (ps : List PeerInfo) (r : Raft) (cmd text : String)
      → is_leader r ≡ true
      → IsNext ps peer r.current_term (
          append_change entry_size
            (create_joint_quorum_by_adding_peer (single_peers ps) peer)
            cmd
            text
            r)
  unfolding append_change create_joint_quorum_by_adding_peer
  append_change-IsNext peer ps r cmd text l =
      let m = create_joint_quorum_by_adding_peer (single_peers ps) peer in
      (
        entry_for joint_quorum m r,
        last_quorum_entry-append_log_unsafe m joint_quorum r l refl,
        sym (deduce-adding ps peer),
        refl,
        refl,
      )

  -- A leader whose last configuration is the single quorum of these peers answers a request to add a peer
  -- with an error, and is otherwise as before, if the peer's uuid is there already, is empty or fails the
  -- validation where that is enabled; else its last configuration becomes the joint one that adds the
  -- peer.
  pub add_to_quorum-IsNext :
      (validate : PeerInfo → Option String) (peer : PeerInfo) (ps : List PeerInfo) (i n : ℕ)
      (r : Raft)
      → is_leader r ≡ true
      → let last : LogEntry = record {
        entry_type = single_quorum;
        log_index = i;
        term = n;
        msg = single_peers ps;
      } in
        ((text : String) × (refusal validate peer ps r ≡ some text)
          × (add_to_quorum entry_size validate peer last r ≡ refuse text r))
        ⊎ ((refusal validate peer ps r ≡ none)
            × IsNext ps peer r.current_term (add_to_quorum entry_size validate peer last r))
  unfolding add_to_quorum
  add_to_quorum-IsNext validate peer ps i n r l =
      elim (Bool-cases (is_some (find_if (λ p. p.uuid == peer.uuid) ps))) [
        | inl there ↦ inl ("ERROR_PEER_ALREADY_EXISTS", rw there refl, rw there refl)
        | inr new ↦ elim (Bool-cases (peer.uuid == "")) [
          | inl bare ↦ inl ("ERROR_INVALID_UUID", rw (new, bare) refl, rw (new, bare) refl)
          | inr named ↦
              elim (Option-cases (if r.enable_peer_validation then validate peer else none)) [
                | inr (text, e) ↦ inl (text, rw (new, named, e) refl, rw (new, named, e) refl)
                | inl e ↦ inr (
                  rw (new, named, e) refl,
                  rw (new, named, e) (append_change-IsNext peer ps _ _ _ l),
                )
              ]
        ]
      ]
