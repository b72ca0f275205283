-- ===== src/Crud/OverRaft/Tests.antt =====
-- The handlers over Raft and the rebuilt storage at small inputs, and their theorems there.
use swarm_db.Base.{ℕ, ◌≡◌, refl, Bool, true, false, some, List, [], ◌∷◌, String, if◌then◌else◌, All}
use swarm_db.Base.Equality.{◌==◌, string_eq}
use swarm_db.Base.Assoc.{lookup, put}
use swarm_db.Proto.{PeerInfo, DatabaseHeader, DatabaseMsg, DatabaseCommand, response_not_set}
use swarm_db.Storage.{create, read, insert_record}
use swarm_db.Raft.Log.{database, closed, command, LogEntry, RaftLog}
use swarm_db.Raft.Quorum.{deduce_type_from_message}
use swarm_db.Raft.State.{leader}
use swarm_db.Raft.Recovery.{
  Decoded, other_case, db, initial, file_entry, initialize_storage_from_log, store_entry,
  store_decoded, store_command,
}
use swarm_db.Storage.View.{view, write}
use swarm_db.Crud.Answers.{answer}
use swarm_db.Crud.Subscriptions.{Session}
use swarm_db.Crud.OverRaft.{RaftCrud, handle_ws_crud_messages, commit_command, commit_all}
use swarm_db.Crud.OverRaft.Leader.{
  answer_of, logged, handle_ws_crud_messages-answers, commit_command-accepted,
}
use swarm_db.Crud.OverRaft.Commits.{Typed, messages, initialize_storage_from_log-commits}

abbrev entry_size : LogEntry → ℕ
entry_size e = 10

abbrev header : DatabaseHeader
header = record { db_uuid = "db"; transaction_id = 7 }

abbrev creation : DatabaseMsg
creation = record { header = header; msg = DatabaseCommand.create "k" "v" }

abbrev decode : String → Decoded
decode text = if text == "creation" then db creation else other_case

abbrev session : Session
session = record { session_id = 1; address = 1 }

abbrev peers : List PeerInfo
peers = (record { host = "h"; port = 1; http_port = 2; name = "n"; uuid = "a" }) ∷ []

abbrev entry : LogEntry
entry = record { entry_type = database; log_index = 1; term = 0; msg = command "creation" }

abbrev log : RaftLog
log = record {
  log_entries = file_entry peers ∷ entry ∷ [];
  total_memory_used = 20;
  maximum_storage = 100;
  log_entry_out_stream = closed;
  file = some (file_entry peers ∷ entry ∷ []);
}

abbrev daemon : RaftCrud
daemon = record {
  raft = record (initial "a" false log) { current_state = leader };
  storage = record { kv_store = [] };
  subscribers = [];
}

decoded : decode "creation" ≡ db creation
decoded = refl

handle_ws_crud_messages-answers_example :
    handle_ws_crud_messages entry_size decode (some "creation") session daemon
    ≡ some (
      logged entry_size "creation" creation.msg (answer_of daemon creation) daemon,
      record {
        response = record { header = header; response = answer_of daemon creation };
        end_session = false;
      },
    )
handle_ws_crud_messages-answers_example =
    handle_ws_crud_messages-answers entry_size "creation" decode creation session daemon decoded
      refl refl

unset : answer (record { kv_store = [] }) "db" creation.msg ≡ some response_not_set
unfolding read lookup
unset = refl

commit_command-accepted_example :
    ((commit_command creation (record { kv_store = [] })).0 ≡ true)
    × ((u k : String)
        → view (commit_command creation (record { kv_store = [] })).1 u k
          ≡ write (view (record { kv_store = [] })) "db" "k" (some "v") u k)
commit_command-accepted_example =
    commit_command-accepted header creation.msg (record { kv_store = [] }) refl unset

entries-Typed : All Typed (file_entry peers ∷ entry ∷ [])
unfolding deduce_type_from_message
entries-Typed = (refl, (refl, tt))

abbrev alive : Session → Bool
alive s = true

initialize_storage_from_log-commits_example :
    initialize_storage_from_log decode (file_entry peers ∷ entry ∷ []) (record { kv_store = [] })
    ≡ some (commit_all alive decode (messages (file_entry peers ∷ entry ∷ [])) daemon).storage
initialize_storage_from_log-commits_example =
    initialize_storage_from_log-commits alive decode (file_entry peers ∷ entry ∷ []) daemon
      entries-Typed

rebuilt :
    initialize_storage_from_log decode (file_entry peers ∷ entry ∷ []) (record { kv_store = [] })
    ≡ some (record { kv_store = ("db", ("k", "v") ∷ []) ∷ [] })
unfolding initialize_storage_from_log store_entry store_decoded store_command create insert_record
    lookup put
rebuilt = refl
