-- ===== src/Raft/Quorum.antt =====
-- raft/raft.cpp: the active quorum, which the last quorum entry of the log names, its majorities and its changes.
pub mod Overlap
use swarm_db.Base.{
  ℕ, zero, suc, ◌+◌, ◌*◌, ◌-◌, ◌/◌, Bool, true, false, not, Option, none, some, List, [], ◌∷◌, ◌++◌,
  String, leb, length, keep, if◌then◌else◌,
}
use swarm_db.Base.Equality.{◌==◌, string_eq}
use swarm_db.Base.Sets.{contains, insert, common}
use swarm_db.Proto.{PeerInfo}
use swarm_db.Raft.Log.{
  LogEntryType, database, single_quorum, joint_quorum, undefined, EntryMessage, no_message, command,
  single_peers, joint_peers, LogEntry, RaftLog, last_quorum_entry,
}

-- msg["peers"] as an array, and its members "old" and "new".
abbrev pub peers_of : EntryMessage → List PeerInfo
peers_of (single_peers ps) = ps
peers_of _ = []

abbrev pub old_peers : EntryMessage → List PeerInfo
old_peers (joint_peers old new) = old
old_peers _ = []

abbrev pub new_peers : EntryMessage → List PeerInfo
new_peers (joint_peers old new) = new
new_peers _ = []

-- Peers that were never appended to are a null member, not an array.
unfoldable pub deduce_type_from_message : EntryMessage → LogEntryType
deduce_type_from_message (command text) = database
deduce_type_from_message (single_peers []) = undefined
deduce_type_from_message (single_peers (p ∷ ps)) = single_quorum
deduce_type_from_message (joint_peers old []) = undefined
deduce_type_from_message (joint_peers old (p ∷ new)) = joint_quorum
deduce_type_from_message no_message = undefined

-- The set of the peers' uuids.
unfoldable pub uuids : List PeerInfo → List String
uuids [] = []
uuids (p ∷ ps) = insert p.uuid (uuids ps)

-- The sets of which each has to agree; `none` where the code throws.
unfoldable pub quorums : LogEntry → Option (List (List String))
quorums e = elim e.entry_type [
  | single_quorum ↦ some (uuids (peers_of e.msg) ∷ [])
  | joint_quorum ↦ some (uuids (old_peers e.msg) ∷ uuids (new_peers e.msg) ∷ [])
  | _ ↦ none
]

abbrev pub or_throw {ℓ κ} : {A : Type ℓ} {B : Type κ} → Option A → (A → Option B) → Option B
or_throw none f = none
or_throw (some a) f = f a

unfoldable pub get_active_quorum : RaftLog → Option (List (List String))
get_active_quorum log = or_throw (last_quorum_entry log) quorums

-- The loop of `is_majority`.
unfoldable pub has_majorities : List String → List (List String) → Bool
has_majorities votes [] = true
has_majorities votes (s ∷ ss) =
    let rest = has_majorities votes ss in
    if leb (length (common s votes) * 2) (length s) then false else rest

unfoldable pub is_majority : List String → RaftLog → Option Bool
is_majority votes log = or_throw (get_active_quorum log) (λ qs. some (has_majorities votes qs))

-- The loop of `in_quorum`.
unfoldable pub stands_in : String → List (List String) → Bool
stands_in uuid [] = false
stands_in uuid (q ∷ qs) = let rest = stands_in uuid qs in if contains uuid q then true else rest

unfoldable pub in_quorum : String → RaftLog → Option Bool
in_quorum uuid log = or_throw (get_active_quorum log) (λ qs. some (stands_in uuid qs))

unfoldable pub create_joint_quorum_by_adding_peer : EntryMessage → PeerInfo → EntryMessage
create_joint_quorum_by_adding_peer last new_peer =
    joint_peers (peers_of last) (peers_of last ++ new_peer ∷ [])

unfoldable pub create_single_quorum_from_joint_quorum : EntryMessage → EntryMessage
create_single_quorum_from_joint_quorum joint = single_peers (new_peers joint)

unfoldable pub create_joint_quorum_by_removing_peer : EntryMessage → String → EntryMessage
create_joint_quorum_by_removing_peer last peer_uuid =
    joint_peers (peers_of last) (keep (λ p. not (p.uuid == peer_uuid)) (peers_of last))
