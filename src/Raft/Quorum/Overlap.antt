-- ===== src/Raft/Quorum/Overlap.antt =====
-- raft/raft.cpp: any two majorities that decide, also across a change of the configuration, share a peer.
use swarm_db.Base.{
  ℕ, ◌*◌, ◌<◌, ◌≡◌, refl, true, false, some, List, [], ◌∷◌, String, length, arith, Option-cases,
  inl, inr, Among,
}
use swarm_db.Base.Equality.{==_refl, string_eq}
use swarm_db.Base.Sets.{
  contains, common, Distinct, Subset, insert-Distinct, common_overlap, common_sound,
}
use swarm_db.Proto.{PeerInfo}
use swarm_db.Raft.Log.{
  LogEntryType, EntryMessage, no_message, command, single_peers, joint_peers, LogEntry, RaftLog,
  last_quorum_entry,
}
use swarm_db.Raft.Quorum.{
  uuids, quorums, is_majority, get_active_quorum, has_majorities, deduce_type_from_message,
  create_joint_quorum_by_adding_peer, create_single_quorum_from_joint_quorum,
  create_joint_quorum_by_removing_peer,
}

uuids-Distinct : (ps : List PeerInfo) → Distinct (uuids ps)
unfolding uuids
uuids-Distinct [] = tt
uuids-Distinct (p ∷ ps) = insert-Distinct p.uuid (uuids ps) (uuids-Distinct ps)

-- The peers of a set that voted are distinct and stand in the set.
contains-common :
    (a : String) (s votes : List String)
    → contains a votes ≡ false
    → contains a (common s votes) ≡ false
unfolding contains common
contains-common a s [] h = refl
contains-common a s (v ∷ votes) h = ground (arith, contains-common a s votes)

common-Distinct : (s votes : List String) → Distinct votes → Distinct (common s votes)
unfolding common
common-Distinct s [] h = tt
common-Distinct s (v ∷ votes) h =
    ground (arith, common-Distinct s votes h.1, contains-common v s votes h.0)

common-Subset : (s votes : List String) → Subset (common s votes) s
unfolding common
common-Subset s [] = tt
common-Subset s (v ∷ votes) = ground (arith, common-Subset s votes)

first-contains : (xs : List String) → 0 < length xs → (u : String) × (contains u xs ≡ true)
unfolding contains
first-contains [] h = absurd (omega arith)
first-contains (x ∷ xs) h = (x, rw (==_refl x) refl)

-- A peer that gave both votes.
abbrev pub Shared : List String → List String → Type 0
Shared votes votes' = (u : String) × (contains u votes ≡ true) × (contains u votes' ≡ true)

-- Two majorities of one set.
majorities-Shared :
    (s votes votes' : List String)
    → Distinct s
    → Distinct votes
    → Distinct votes'
    → length s < length (common s votes) * 2
    → length s < length (common s votes') * 2
    → Shared votes votes'
majorities-Shared s votes votes' d dv dv' h h' =
    let both = common (common s votes) (common s votes') in
    let some_peer : (u : String) × (contains u both ≡ true) = first-contains both (
      omega (
        arith,
        common_overlap (common s votes) (common s votes') s (common-Distinct s votes dv)
            (common-Distinct s votes' dv') d (common-Subset s votes) (common-Subset s votes'),
      )) in
    let in_both = common_sound some_peer.0 (common s votes) (common s votes') some_peer.1 in
    (
      some_peer.0,
      (common_sound some_peer.0 s votes in_both.0).1,
      (common_sound some_peer.0 s votes' in_both.1).1,
    )

has_majorities-Among :
    (s votes : List String) (qs : List (List String))
    → Among s qs
    → has_majorities votes qs ≡ true
    → length s < length (common s votes) * 2
unfolding has_majorities
has_majorities-Among s votes [] h m = elim h [ ]
has_majorities-Among s votes (q ∷ qs) (inl e) m = rw (← e) (ground arith)
has_majorities-Among s votes (q ∷ qs) (inr h) m = ground (arith, has_majorities-Among s votes qs h)

-- Majorities of quorums that have a set in common.
has_majorities-Shared :
    (s votes votes' : List String) (qs qs' : List (List String))
    → Among s qs
    → Among s qs'
    → Distinct s
    → Distinct votes
    → Distinct votes'
    → has_majorities votes qs ≡ true
    → has_majorities votes' qs' ≡ true
    → Shared votes votes'
has_majorities-Shared s votes votes' qs qs' h h' d dv dv' m m' =
    majorities-Shared s votes votes' d dv dv' (has_majorities-Among s votes qs h m)
      (has_majorities-Among s votes' qs' h' m')

-- The sets that a message of peers asks for.
abbrev pub sets_of : EntryMessage → List (List String)
sets_of (single_peers ps) = uuids ps ∷ []
sets_of (joint_peers old new) = uuids old ∷ uuids new ∷ []
sets_of _ = []

-- The steps by which a leader changes the peers, and no change.
pub data Change : EntryMessage → EntryMessage → Type 0 where
  none_single : (ps : List PeerInfo) → Change (single_peers ps) (single_peers ps)
  none_joint : (old new : List PeerInfo) → Change (joint_peers old new) (joint_peers old new)
  adds :
      (ps : List PeerInfo) (p : PeerInfo) (m : EntryMessage)
      → m ≡ create_joint_quorum_by_adding_peer (single_peers ps) p
      → Change (single_peers ps) m
  removes :
      (ps : List PeerInfo) (uuid : String) (m : EntryMessage)
      → m ≡ create_joint_quorum_by_removing_peer (single_peers ps) uuid
      → Change (single_peers ps) m
  completes :
      (old new : List PeerInfo) (m : EntryMessage)
      → m ≡ create_single_quorum_from_joint_quorum (joint_peers old new)
      → Change (joint_peers old new) m

-- A set of peers that both ask for.
Change-Among :
    (m m' : EntryMessage)
    → Change m m'
    → (ps : List PeerInfo) × Among (uuids ps) (sets_of m) × Among (uuids ps) (sets_of m')
unfolding create_joint_quorum_by_adding_peer create_joint_quorum_by_removing_peer
    create_single_quorum_from_joint_quorum
Change-Among _ _ (none_single ps) = (ps, inl refl, inl refl)
Change-Among _ _ (none_joint old new) = (old, inl refl, inl refl)
Change-Among _ m' (adds ps p _ e) = (ps, inl refl, rw e (inl refl))
Change-Among _ m' (removes ps uuid _ e) = (ps, inl refl, rw e (inl refl))
Change-Among _ m' (completes old new _ e) = (new, inr (inl refl), rw e (inl refl))

-- The active quorum of an entry whose type was deduced from its message is what the message asks for.
quorums-sets_of :
    (t : LogEntryType) (i n : ℕ) (m : EntryMessage) (qs : List (List String))
    → t ≡ deduce_type_from_message m
    → quorums (record { entry_type = t; log_index = i; term = n; msg = m }) ≡ some qs
    → qs ≡ sets_of m
unfolding quorums deduce_type_from_message
quorums-sets_of t i n no_message qs d h = absurd (ground arith)
quorums-sets_of t i n (command text) qs d h = absurd (ground arith)
quorums-sets_of t i n (single_peers []) qs d h = absurd (ground arith)
quorums-sets_of t i n (single_peers (p ∷ ps)) qs d h = ground arith
quorums-sets_of t i n (joint_peers old []) qs d h = absurd (ground arith)
quorums-sets_of t i n (joint_peers old (p ∷ new)) qs d h = ground arith

is_majority-sets_of :
    (votes : List String) (log : RaftLog) (e : LogEntry)
    → last_quorum_entry log ≡ some e
    → e.entry_type ≡ deduce_type_from_message e.msg
    → is_majority votes log ≡ some true
    → has_majorities votes (sets_of e.msg) ≡ true
unfolding is_majority get_active_quorum
is_majority-sets_of votes log e last typed h = elim (Option-cases (quorums e)) [
  | inl n ↦ absurd (ground (arith, last, n, h))
  | inr (qs, q) ↦
      rw (← quorums-sets_of e.entry_type e.log_index e.term e.msg qs typed q)
        (ground (arith, last, q, h))
]

-- If the votes are a majority by the one log and other votes by the other log, where the configuration of
-- the second log is that of the first or the next one, made by adding a peer, by removing one or by
-- completing a change, and both have the type of their message, then a peer gave both votes: no two
-- leaders are elected by disjoint votes across one change.
pub is_majority-Change :
    (votes votes' : List String) (log log' : RaftLog) (e e' : LogEntry)
    → last_quorum_entry log ≡ some e
    → last_quorum_entry log' ≡ some e'
    → e.entry_type ≡ deduce_type_from_message e.msg
    → e'.entry_type ≡ deduce_type_from_message e'.msg
    → Change e.msg e'.msg
    → Distinct votes
    → Distinct votes'
    → is_majority votes log ≡ some true
    → is_majority votes' log' ≡ some true
    → Shared votes votes'
is_majority-Change votes votes' log log' e e' l l' t t' c dv dv' m m' =
    let (ps, a, a') = Change-Among e.msg e'.msg c in
    has_majorities-Shared (uuids ps) votes votes' (sets_of e.msg) (sets_of e'.msg) a a'
      (uuids-Distinct ps) dv dv' (is_majority-sets_of votes log e l t m)
      (is_majority-sets_of votes' log' e' l' t' m')
