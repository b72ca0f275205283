-- ===== src/Raft/Recovery.antt =====
-- raft/raft.cpp: the start of a daemon: the constructor with the file that it makes, and the storage that is rebuilt
-- from the log, as swarm/main.cpp does it. The reading of the text of an entry (base64 and protobuf) is a
-- parameter; whether the directory of the file is there is left out.
pub mod Fresh
use swarm_db.Base.{ℕ, Bool, true, false, Option, none, some, List, [], ◌∷◌, String, if◌then◌else◌}
use swarm_db.Proto.{PeerInfo, DatabaseMsg, DatabaseCommand}
use swarm_db.Storage.{MemStorage, create, update, remove}
use swarm_db.Raft.Log.{
  LogEntryType, database, single_quorum, EntryMessage, no_message, command, single_peers, LogEntry,
  RaftLog, new_raft_log, maximum_storage_exceeded,
}
use swarm_db.Raft.Quorum.{or_throw}
use swarm_db.Raft.State.{follower, nothing, Raft, setup_peer_tracking}

-- ParseFromString on a decoded text, and the case of the message
pub data Decoded : Type 0 where
  not_parsed other_case : Decoded
  db : DatabaseMsg → Decoded

abbrev pub file_entry : List PeerInfo → LogEntry
file_entry peers = record {
  entry_type = single_quorum;
  log_index = 0;
  term = 0;
  msg = single_peers peers;
}

-- The file, which replaces one that is there.
abbrev pub create_dat_file : List PeerInfo → Option (List LogEntry)
create_dat_file peers = some (file_entry peers ∷ [])

abbrev pub or_create : Option (List LogEntry) → List PeerInfo → Option (List LogEntry)
or_create none peers = create_dat_file peers
or_create (some es) peers = some es

unfoldable pub shutdown_on_exceeded_max_storage : RaftLog → Option RaftLog
shutdown_on_exceeded_max_storage log = if maximum_storage_exceeded log then none else some log

-- A state of the class's initial values.
abbrev pub initial : String → Bool → RaftLog → Raft
initial uuid enable_peer_validation log = record {
  current_state = follower;
  current_term = 0;
  yes_votes = [];
  no_votes = [];
  voted_for = none;
  timer = nothing;
  last_log_term = 0;
  commit_index = 1;
  peer_match_index = [];
  uuid = uuid;
  leader = "";
  raft_log = log;
  enable_audit = true;
  enable_peer_validation = enable_peer_validation;
  in_a_swarm = false;
  outputs = [];
}

module _ (entry_size : LogEntry → ℕ) where
  -- The constructor on the file of the log, `none` where it throws.
  unfoldable pub new_raft : List PeerInfo → String → ℕ → Bool → Option (List LogEntry) → Option Raft
  new_raft [] uuid maximum_raft_storage enable_peer_validation file = none
  new_raft (p ∷ ps) uuid maximum_raft_storage enable_peer_validation file =
      or_throw (new_raft_log entry_size (or_create file (p ∷ ps)) maximum_raft_storage) (λ log.
        or_throw (shutdown_on_exceeded_max_storage log)
          (λ kept. some (setup_peer_tracking (p ∷ ps) (initial uuid enable_peer_validation kept))))

-- msg["msg"].asString(), `none` where it throws
abbrev pub text_of : EntryMessage → Option String
text_of (command text) = some text
text_of no_message = some ""
text_of _ = none

-- The body of the loop behind the test of the message: the results of the storage are dropped.
unfoldable pub store_command : DatabaseMsg → MemStorage → MemStorage
store_command m s = elim m.msg [
  | DatabaseCommand.create key value ↦ (create s m.header.db_uuid key value).1
  | DatabaseCommand.update key value ↦ (update s m.header.db_uuid key value).1
  | DatabaseCommand.delete key ↦ (remove s m.header.db_uuid key).1
  | _ ↦ s
]

unfoldable pub store_decoded : Decoded → MemStorage → MemStorage
store_decoded (db m) s = store_command m s
store_decoded _ s = s

module _ (decode : String → Decoded) where
  unfoldable pub store_entry : LogEntry → MemStorage → Option MemStorage
  store_entry e s = elim e.entry_type [
    | database ↦ or_throw (text_of e.msg) (λ text. some (store_decoded (decode text) s))
    | _ ↦ some s
  ]

  -- The loop over the entries.
  unfoldable pub initialize_storage_from_log : List LogEntry → MemStorage → Option MemStorage
  initialize_storage_from_log [] s = some s
  initialize_storage_from_log (e ∷ es) s =
      or_throw (store_entry e s) (λ next. initialize_storage_from_log es next)
