-- ===== src/Raft/Log.antt =====
-- raft/raft_log.cpp, raft/raft_log.hpp and raft/log_entry.hpp: the log of Raft in memory and in its file. The file
-- is a list of entries, since the text of an entry is written and read by jsoncpp and base64; its size is a
-- parameter. The creation of the file's directory is left out.
pub mod Sync
use swarm_db.Base.{
  ℕ, zero, suc, ◌-◌, ◌+◌, ◌%◌, ◌<◌, Bool, true, false, not, ◌&&◌, ◌||◌, Option, none, some, List,
  [], ◌∷◌, ◌++◌, String, ltb, eqb, length, get_elem?, find_if, u64_mod, if◌then◌else◌,
}
use swarm_db.Proto.{PeerInfo}

pub data LogEntryType : Type 0 where
  database single_quorum joint_quorum undefined : LogEntryType

-- The JSON message of an entry: "msg" is the text of a command, or has the peers in an array, or the old and
-- the new peers; any other message has no command and no peers.
pub data EntryMessage : Type 0 where
  no_message : EntryMessage
  command : String → EntryMessage
  single_peers : List PeerInfo → EntryMessage
  joint_peers : List PeerInfo → List PeerInfo → EntryMessage

pub record LogEntry : Type 0 where
  pub entry_type : LogEntryType
  pub log_index : ℕ
  pub term : ℕ
  pub msg : EntryMessage

-- Where the stream writes: not opened yet, to the file of the path, or to a file that was removed while the
-- stream was open.
pub data OutStream : Type 0 where
  closed attached detached : OutStream

-- `file` is what stands under the path, if there is a file.
pub record RaftLog : Type 0 where
  pub log_entries : List LogEntry
  pub total_memory_used : ℕ
  pub maximum_storage : ℕ
  pub log_entry_out_stream : OutStream
  pub file : Option (List LogEntry)

abbrev pub file_entries : Option (List LogEntry) → List LogEntry
file_entries none = []
file_entries (some es) = es

-- log_entries.at(i), `none` where it throws
abbrev pub entry_at : RaftLog → ℕ → Option LogEntry
entry_at log i = get_elem? log.log_entries i

abbrev pub is_quorum : LogEntry → Bool
is_quorum e = elim e.entry_type [ single_quorum ↦ true | joint_quorum ↦ true | _ ↦ false ]

abbrev pub or_else : Option LogEntry → Option LogEntry → Option LogEntry
or_else (some e) other = some e
or_else none other = other

-- The search from the end: the last entry that passes.
unfoldable pub find_last : List LogEntry → Option LogEntry
find_last [] = none
find_last (e ∷ es) = or_else (find_last es) (if is_quorum e then some e else none)

-- `none` where the code throws.
unfoldable pub last_quorum_entry : RaftLog → Option LogEntry
last_quorum_entry log = find_last log.log_entries

abbrev pub size : RaftLog → ℕ
size log = length log.log_entries

abbrev pub maximum_storage_exceeded : RaftLog → Bool
maximum_storage_exceeded log = ltb log.maximum_storage log.total_memory_used

-- log_entries.size() - 1 on size_t
abbrev pub last_index : ℕ → ℕ
last_index n = (n + (u64_mod - 1)) % u64_mod

-- `none` is the read behind the end of the vector.
unfoldable pub entry_accepted : ℕ → ℕ → RaftLog → Option Bool
entry_accepted previous_index previous_term log =
    if ltb previous_index (last_index (size log))
    then some false
    else elim (entry_at log previous_index) [
      | none ↦ none
      | some e ↦ some (eqb previous_term e.term)
    ]

-- The entries before an index.
abbrev pub entries_before : ℕ → List LogEntry → List LogEntry
entries_before zero es = []
entries_before (suc n) [] = []
entries_before (suc n) (e ∷ es) = e ∷ entries_before n es

-- The path is removed, not the file that an open stream writes to.
unfoldable pub remove_file : RaftLog → RaftLog
remove_file log = record log {
  file = none;
  log_entry_out_stream = elim log.log_entry_out_stream [
    | closed ↦ closed
    | attached ↦ detached
    | detached ↦ detached
  ];
}

module _ (entry_size : LogEntry → ℕ) where
  unfoldable pub bytes_of : List LogEntry → ℕ
  bytes_of [] = 0
  bytes_of (e ∷ es) = entry_size e + bytes_of es

  -- The constructor on the file, `none` where it throws since there is no entry.
  unfoldable pub new_raft_log : Option (List LogEntry) → ℕ → Option RaftLog
  new_raft_log none maximum_storage = none
  new_raft_log (some []) maximum_storage = none
  new_raft_log (some (e ∷ es)) maximum_storage = some (record {
    log_entries = e ∷ es;
    total_memory_used = bytes_of (e ∷ es);
    maximum_storage = maximum_storage;
    log_entry_out_stream = closed;
    file = some (e ∷ es);
  })

  -- The stream is opened to append by the first write.
  unfoldable pub append_log_disk : LogEntry → RaftLog → RaftLog
  append_log_disk e log = elim log.log_entry_out_stream [
    | closed ↦ record log {
      log_entry_out_stream = attached;
      file = some (file_entries log.file ++ e ∷ []);
      total_memory_used = bytes_of (file_entries log.file) + entry_size e;
    }
    | attached ↦ record log {
      file = some (file_entries log.file ++ e ∷ []);
      total_memory_used = log.total_memory_used + entry_size e;
    }
    | detached ↦ record log { total_memory_used = log.total_memory_used + entry_size e }
  ]

  unfoldable pub leader_append_entry : LogEntry → RaftLog → RaftLog
  leader_append_entry e log =
      append_log_disk e (record log { log_entries = log.log_entries ++ e ∷ [] })

  unfoldable pub append_all : List LogEntry → RaftLog → RaftLog
  append_all [] log = log
  append_all (e ∷ es) log = append_all es (append_log_disk e log)

  unfoldable pub rewrite_log : RaftLog → RaftLog
  rewrite_log log = append_all log.log_entries (remove_file log)

  -- The entry at the index, if there is one, decides; `none` where the code throws.
  unfoldable pub follower_insert_entry : ℕ → LogEntry → RaftLog → Option RaftLog
  follower_insert_entry index e log = elim (entry_at log index) [
    | some old ↦
        if eqb e.term old.term
        then some log
        else some (
            append_log_disk e (
              rewrite_log
                (record log { log_entries = entries_before index log.log_entries ++ e ∷ [] })))
    | none ↦
        if eqb index (size log)
        then some (append_log_disk e (record log { log_entries = log.log_entries ++ e ∷ [] }))
        else none
  ]
