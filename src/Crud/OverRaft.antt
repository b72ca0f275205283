-- ===== src/Crud/OverRaft.antt =====
-- crud/raft_crud.cpp and crud/raft_crud.hpp: the handler of database requests over Raft and the handler of its
-- commits. `none` is where the code throws. The calls of Raft take its lock one by one; a handler is one step here.
pub mod Leader
pub mod Commits
mod Tests
use Prim.Native.String.{len}
use swarm_db.Base.{
  ℕ, Bool, true, false, not, Option, none, some, List, [], ◌∷◌, String, ltb, if◌then◌else◌,
}
use swarm_db.Proto.{
  DatabaseMsg, DatabaseCommand, ResponseBody, response_not_set, read_response, keys_response,
  size_response, has_response, redirect, error_response, DatabaseResponse,
}
use swarm_db.Storage.{
  StorageResult, ok, MemStorage, max_value_size, max_key_size, create, read, update, remove,
  get_keys, has, get_size,
}
use swarm_db.Pbft.Peers.{PeerAddress}
use swarm_db.Crud.{
  msg_record_exists, msg_record_not_found, msg_value_size_too_large, msg_key_size_too_large,
  to_int32,
}
use swarm_db.Crud.Subscriptions.{
  Session, Subscribers, subscribe, unsubscribe, Datagram, inspect_commit,
}
use swarm_db.Raft.Log.{database, EntryMessage, command, LogEntry}
use swarm_db.Raft.Quorum.{or_throw}
use swarm_db.Raft.State.{
  RaftState, candidate, follower, leader, Raft, is_leader, append_log, get_leader,
}
use swarm_db.Raft.Recovery.{Decoded, not_parsed, other_case, db}

abbrev pub msg_invalid_crud_command : String
msg_invalid_crud_command = "INVALID_CRUD"

abbrev pub msg_election_in_progress : String
msg_election_in_progress = "ELECTION_IN_PROGRESS"

abbrev pub msg_invalid_arguments : String
msg_invalid_arguments = "INVALID_ARGUMENTS"

-- The daemon that the handlers work on.
pub record RaftCrud : Type 0 where
  pub raft : Raft
  pub storage : MemStorage
  pub subscribers : Subscribers

-- The daemon and the body of the response, `none` where the code throws.
abbrev pub Routed : Type 0
Routed = Option (RaftCrud × ResponseBody)

abbrev pub validate_value_size : String → Bool
validate_value_size value = ltb max_value_size (len value)

abbrev pub validate_key_size : String → Bool
validate_key_size key = ltb max_key_size (len key)

abbrev pub leader_info : PeerAddress → ResponseBody
leader_info p = redirect p.uuid p.host p.port p.http_port p.name

unfoldable pub set_leader_info : RaftCrud → Routed
set_leader_info c = or_throw (get_leader c.raft) (λ p. some (c, leader_info p))

abbrev pub fail_with : String → RaftCrud → Routed
fail_with message c = some (c, error_response message)

unfoldable pub handle_get_keys : String → RaftCrud → Routed
handle_get_keys uuid c = some (c, keys_response (get_keys c.storage uuid))

unfoldable pub handle_has : String → String → RaftCrud → Routed
handle_has uuid key c = some (c, has_response key (has c.storage uuid key))

unfoldable pub handle_size : String → RaftCrud → Routed
handle_size uuid c =
    let (keys, size) = get_size c.storage uuid in
    some (c, size_response (to_int32 keys) (to_int32 size))

unfoldable pub handle_read : String → String → RaftCrud → Routed
handle_read uuid key c = elim (read c.storage uuid key) [
  | some value ↦ some (c, read_response key value)
  | none ↦ if is_leader c.raft then fail_with msg_record_not_found c else set_leader_info c
]

unfoldable pub do_candidate_tasks : RaftCrud → Routed
do_candidate_tasks = fail_with msg_election_in_progress

unfoldable pub do_follower_tasks : DatabaseMsg → RaftCrud → Routed
do_follower_tasks request c = elim request.msg [
  | DatabaseCommand.read key ↦ handle_read request.header.db_uuid key c
  | DatabaseCommand.keys ↦ handle_get_keys request.header.db_uuid c
  | DatabaseCommand.has key ↦ handle_has request.header.db_uuid key c
  | DatabaseCommand.size ↦ handle_size request.header.db_uuid c
  | _ ↦ set_leader_info c
]

module _ (entry_size : LogEntry → ℕ) where
  -- raft->append_log with the request as it came
  unfoldable pub append_request : EntryMessage → RaftCrud → RaftCrud
  append_request msg c = record c { raft = (append_log entry_size msg database c.raft).0 }

  unfoldable pub handle_create : EntryMessage → String → String → String → RaftCrud → Routed
  handle_create msg uuid key value c =
      if validate_value_size value
      then fail_with msg_value_size_too_large c
      else if validate_key_size key
      then fail_with msg_key_size_too_large c
      else if has c.storage uuid key
      then fail_with msg_record_exists c
      else if is_leader c.raft
      then some (append_request msg c, response_not_set)
      else some (c, response_not_set)

  unfoldable pub handle_update : EntryMessage → String → String → String → RaftCrud → Routed
  handle_update msg uuid key value c =
      if validate_value_size value
      then fail_with msg_value_size_too_large c
      else if not (has c.storage uuid key)
      then fail_with msg_record_not_found c
      else if is_leader c.raft
      then some (append_request msg c, response_not_set)
      else set_leader_info c

  unfoldable pub handle_delete : EntryMessage → String → String → RaftCrud → Routed
  handle_delete msg uuid key c =
      if not (is_leader c.raft)
      then set_leader_info c
      else if has c.storage uuid key
      then some (append_request msg c, response_not_set)
      else fail_with msg_record_not_found c

  -- The table of handlers has no entry for the other commands, which are only logged.
  unfoldable pub do_leader_tasks : EntryMessage → DatabaseMsg → RaftCrud → Routed
  do_leader_tasks msg request c = elim request.msg [
    | DatabaseCommand.create key value ↦ handle_create msg request.header.db_uuid key value c
    | DatabaseCommand.read key ↦ handle_read request.header.db_uuid key c
    | DatabaseCommand.update key value ↦ handle_update msg request.header.db_uuid key value c
    | DatabaseCommand.delete key ↦ handle_delete msg request.header.db_uuid key c
    | DatabaseCommand.keys ↦ handle_get_keys request.header.db_uuid c
    | DatabaseCommand.has key ↦ handle_has request.header.db_uuid key c
    | DatabaseCommand.size ↦ handle_size request.header.db_uuid c
    | _ ↦ some (c, response_not_set)
  ]

  -- The handler of the daemon's state in the table.
  unfoldable pub route : RaftState → EntryMessage → DatabaseMsg → RaftCrud → Routed
  route leader msg request c = do_leader_tasks msg request c
  route candidate msg request c = do_candidate_tasks c
  route follower msg request c = do_follower_tasks request c

-- The error that the subscriptions report, if any.
abbrev pub subscribed : Option String × Subscribers → RaftCrud → RaftCrud × ResponseBody
subscribed (none, next) c = (record c { subscribers = next }, response_not_set)
subscribed (some message, next) c = (record c { subscribers = next }, error_response message)

unfoldable pub do_raft_task_routing :
    (LogEntry → ℕ) → EntryMessage → DatabaseMsg → Session → RaftCrud → Routed
do_raft_task_routing entry_size msg request session c = elim request.msg [
  | DatabaseCommand.subscribe key ↦ some (
      subscribed
        (subscribe request.header.db_uuid key request.header.transaction_id session c.subscribers)
        c)
  | DatabaseCommand.unsubscribe key transaction ↦
      some (subscribed (unsubscribe request.header.db_uuid key transaction session c.subscribers) c)
  | _ ↦ route entry_size c.raft.current_state msg request c
]

-- What is sent to the session, and whether the session ends by it.
pub record Reply : Type 0 where
  pub response : DatabaseResponse
  pub end_session : Bool

abbrev pub refused : String → RaftCrud → Option (RaftCrud × Reply)
refused message c = some (
  c,
  record {
    response = record {
      header = record { db_uuid = ""; transaction_id = 0 };
      response = error_response message;
    };
    end_session = true;
  },
)

abbrev pub reply_to : DatabaseMsg → Routed → Option (RaftCrud × Reply)
reply_to request none = none
reply_to request (some (c, body)) = some (
  c,
  record { response = record { header = request.header; response = body }; end_session = false },
)

unfoldable pub handle_decoded :
    (LogEntry → ℕ) → String → Decoded → Session → RaftCrud → Option (RaftCrud × Reply)
handle_decoded entry_size text not_parsed session c = refused msg_invalid_crud_command c
handle_decoded entry_size text other_case session c = refused msg_invalid_arguments c
handle_decoded entry_size text (db request) session c =
    reply_to request (do_raft_task_routing entry_size (command text) request session c)

-- msg["msg"] of a request: the member is missing, or it is read as a text.
unfoldable pub handle_ws_crud_messages :
    (LogEntry → ℕ)
    → (String → Decoded)
    → Option String
    → Session
    → RaftCrud
    → Option (RaftCrud × Reply)
handle_ws_crud_messages entry_size decode none session c = refused msg_invalid_crud_command c
handle_ws_crud_messages entry_size decode (some text) session c =
    handle_decoded entry_size text (decode text) session c

-- The handlers of commits: whether the storage did it, and the storage.
abbrev pub is_ok : StorageResult × MemStorage → Bool × MemStorage
is_ok (ok, s) = (true, s)
is_ok (_, s) = (false, s)

unfoldable pub commit_create : String → String → String → MemStorage → Bool × MemStorage
commit_create uuid key value s = is_ok (create s uuid key value)

unfoldable pub commit_update : String → String → String → MemStorage → Bool × MemStorage
commit_update uuid key value s = is_ok (update s uuid key value)

unfoldable pub commit_delete : String → String → MemStorage → Bool × MemStorage
commit_delete uuid key s = is_ok (remove s uuid key)

-- The handler in the table, if there is one, or else as one that did nothing.
unfoldable pub commit_command : DatabaseMsg → MemStorage → Bool × MemStorage
commit_command m s = elim m.msg [
  | DatabaseCommand.create key value ↦ commit_create m.header.db_uuid key value s
  | DatabaseCommand.update key value ↦ commit_update m.header.db_uuid key value s
  | DatabaseCommand.delete key ↦ commit_delete m.header.db_uuid key s
  | _ ↦ (false, s)
]

module _ (alive : Session → Bool) (decode : String → Decoded) where
  -- The subscribers are told of a commit that the storage did.
  unfoldable pub commit_decoded : Decoded → RaftCrud → RaftCrud × List Datagram
  commit_decoded (db m) c =
      let (done, next) = commit_command m c.storage in
      (record c { storage = next }, if done then inspect_commit alive m c.subscribers else [])
  commit_decoded _ c = (c, [])

  -- The commit handler that `start` gives to Raft.
  unfoldable pub handle_commit : EntryMessage → RaftCrud → RaftCrud × List Datagram
  handle_commit (command text) c = commit_decoded (decode text) c
  handle_commit _ c = (c, [])

  -- The storage after the commits of a list of entries, in their order.
  unfoldable pub commit_all : List EntryMessage → RaftCrud → RaftCrud
  commit_all [] c = c
  commit_all (m ∷ ms) c = commit_all ms (handle_commit m c).0
