-- ===== src/Raft/Recovery/Fresh.antt =====
-- What the constructor of raft/raft.cpp makes.
use swarm_db.Base.{ℕ, ◌≡◌, ◌≤◌, refl, Bool, List, [], ◌∷◌, String, none, some, arith}
use swarm_db.Proto.{PeerInfo}
use swarm_db.Raft.Log.{
  LogEntry, RaftLog, closed, new_raft_log, bytes_of, find_last, last_quorum_entry, size,
}
use swarm_db.Raft.Quorum.{uuids, quorums, get_active_quorum}
use swarm_db.Raft.State.{Raft, setup_peer_tracking}
use swarm_db.Raft.Recovery.{file_entry, shutdown_on_exceeded_max_storage, initial, new_raft}

setup_peer_tracking-raft_log :
    (ps : List PeerInfo) (r : Raft) → (setup_peer_tracking ps r).raft_log ≡ r.raft_log
unfolding setup_peer_tracking
setup_peer_tracking-raft_log [] r = refl
setup_peer_tracking-raft_log (p ∷ ps) r = setup_peer_tracking-raft_log ps _

setup_peer_tracking-commit_index :
    (ps : List PeerInfo) (r : Raft) → (setup_peer_tracking ps r).commit_index ≡ r.commit_index
unfolding setup_peer_tracking
setup_peer_tracking-commit_index [] r = refl
setup_peer_tracking-commit_index (p ∷ ps) r = setup_peer_tracking-commit_index ps _

abbrev fresh_log : (LogEntry → ℕ) → List PeerInfo → ℕ → RaftLog
fresh_log entry_size peers maximum = record {
  log_entries = file_entry peers ∷ [];
  total_memory_used = bytes_of entry_size (file_entry peers ∷ []);
  maximum_storage = maximum;
  log_entry_out_stream = closed;
  file = some (file_entry peers ∷ []);
}

fresh_log_kept :
    (entry_size : LogEntry → ℕ) (peers : List PeerInfo) (maximum : ℕ)
    → entry_size (file_entry peers) ≤ maximum
    → shutdown_on_exceeded_max_storage (fresh_log entry_size peers maximum)
      ≡ some (fresh_log entry_size peers maximum)
unfolding shutdown_on_exceeded_max_storage bytes_of
fresh_log_kept entry_size peers maximum room = ground arith

fresh_quorum :
    (entry_size : LogEntry → ℕ) (peers : List PeerInfo) (maximum : ℕ)
    → get_active_quorum (fresh_log entry_size peers maximum) ≡ some (uuids peers ∷ [])
unfolding get_active_quorum last_quorum_entry find_last quorums
fresh_quorum entry_size peers maximum = refl

-- A daemon that is started with some peers on no file, with room for the entry of the peers, has them as its
-- quorum, and all of its log, the one entry, is committed and in the file.
pub new_raft-fresh :
    (entry_size : LogEntry → ℕ) (p : PeerInfo) (ps : List PeerInfo) (uuid : String) (maximum : ℕ)
    (validate : Bool)
    → entry_size (file_entry (p ∷ ps)) ≤ maximum
    → (r : Raft) × (new_raft entry_size (p ∷ ps) uuid maximum validate none ≡ some r)
      × (get_active_quorum r.raft_log ≡ some (uuids (p ∷ ps) ∷ []))
      × (r.commit_index ≡ size r.raft_log)
      × (r.raft_log.file ≡ some r.raft_log.log_entries)
unfolding new_raft new_raft_log
new_raft-fresh entry_size p ps uuid maximum validate room =
    let log = fresh_log entry_size (p ∷ ps) maximum in
    let r = setup_peer_tracking (p ∷ ps) (initial uuid validate log) in
    let kept = setup_peer_tracking-raft_log (p ∷ ps) (initial uuid validate log) in
    (
      r,
      rw (fresh_log_kept entry_size (p ∷ ps) maximum room) refl,
      rw kept (fresh_quorum entry_size (p ∷ ps) maximum),
      rw (kept, setup_peer_tracking-commit_index (p ∷ ps) (initial uuid validate log)) refl,
      rw kept refl,
    )
