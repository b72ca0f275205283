-- ===== src/Crud.antt =====
-- crud/crud.cpp and crud/crud_base.hpp: the handler of database requests over a storage. A handler gives the
-- storage that it leaves and the responses that it sends, none where the session is gone; what it only
-- logs is left out.
pub mod Answers
pub mod Replay
pub mod Subscriptions
pub mod OverRaft
mod Tests
use swarm_db.Base.{
  ℕ, ◌%◌, ◌^◌, Bool, true, false, Option, none, some, List, [], ◌∷◌, String, if◌then◌else◌,
}
use swarm_db.Proto.{
  DatabaseHeader, DatabaseMsg, DatabaseCommand, ResponseBody, response_not_set, read_response,
  keys_response, size_response, error_response, DatabaseResponse,
}
use swarm_db.Storage.{
  StorageResult, ok, not_found, exists, not_saved, value_too_large, key_too_large, MemStorage,
  create, read, update, remove, get_keys, has, get_size,
}

abbrev pub msg_record_exists : String
msg_record_exists = "RECORD_EXISTS"

abbrev pub msg_record_not_found : String
msg_record_not_found = "RECORD_NOT_FOUND"

abbrev pub msg_value_size_too_large : String
msg_value_size_too_large = "VALUE_SIZE_TOO_LARGE"

abbrev pub msg_key_size_too_large : String
msg_key_size_too_large = "KEY_SIZE_TOO_LARGE"

-- session->send_message
pub record Sent : Type 0 where
  pub session : ℕ
  pub response : DatabaseResponse

-- The storage and the messages sent.
abbrev pub Handled : Type 0
Handled = MemStorage × List Sent

-- The body after the error, if any, was set in it; an unknown code is only logged.
unfoldable pub set_error : StorageResult → ResponseBody → ResponseBody
set_error ok body = body
set_error value_too_large body = error_response msg_value_size_too_large
set_error key_too_large body = error_response msg_key_size_too_large
set_error exists body = error_response msg_record_exists
set_error not_found body = error_response msg_record_not_found
set_error not_saved body = body

unfoldable pub send_response : DatabaseHeader → StorageResult → ResponseBody → ℕ → List Sent
unfolding set_error
send_response header result body session =
    (record {
      session = session;
      response = record { header = header; response = set_error result body };
    })
    ∷ []

-- The writers: the storage is changed whether or not the session is still there.
unfoldable pub respond_to_write : DatabaseHeader → StorageResult × MemStorage → Option ℕ → Handled
unfolding send_response
respond_to_write header (result, storage) none = (storage, [])
respond_to_write header (result, storage) (some session) =
    (storage, send_response header result response_not_set session)

unfoldable pub handle_create : DatabaseHeader → String → String → Option ℕ → MemStorage → Handled
unfolding respond_to_write
handle_create header key value session storage =
    respond_to_write header (create storage header.db_uuid key value) session

unfoldable pub handle_update : DatabaseHeader → String → String → Option ℕ → MemStorage → Handled
unfolding respond_to_write
handle_update header key value session storage =
    respond_to_write header (update storage header.db_uuid key value) session

unfoldable pub handle_delete : DatabaseHeader → String → Option ℕ → MemStorage → Handled
unfolding respond_to_write
handle_delete header key session storage =
    respond_to_write header (remove storage header.db_uuid key) session

-- The readers do nothing where the session is gone.
unfoldable pub handle_read : DatabaseHeader → String → Option ℕ → MemStorage → Handled
unfolding send_response
handle_read header key none storage = (storage, [])
handle_read header key (some session) storage = (
  storage,
  elim (read storage header.db_uuid key) [
    | none ↦ send_response header not_found response_not_set session
    | some value ↦ send_response header ok (read_response key value) session
  ],
)

unfoldable pub handle_has : DatabaseHeader → String → Option ℕ → MemStorage → Handled
unfolding send_response
handle_has header key none storage = (storage, [])
handle_has header key (some session) storage = (
  storage,
  send_response header (if has storage header.db_uuid key then ok else not_found) response_not_set
      session,
)

unfoldable pub handle_keys : DatabaseHeader → Option ℕ → MemStorage → Handled
unfolding send_response
handle_keys header none storage = (storage, [])
handle_keys header (some session) storage =
    (storage, send_response header ok (keys_response (get_keys storage header.db_uuid)) session)

-- A size in an int32 of the message, as its bit pattern.
abbrev pub to_int32 : ℕ → ℕ
to_int32 n = n % 2 ^ 32

unfoldable pub handle_size : DatabaseHeader → Option ℕ → MemStorage → Handled
unfolding send_response
handle_size header none storage = (storage, [])
handle_size header (some session) storage =
    let (keys, size) = get_size storage header.db_uuid in
    (storage, send_response header ok (size_response (to_int32 keys) (to_int32 size)) session)

-- The table of handlers has no entry for the other commands, which are only logged.
unfoldable pub handle_command : DatabaseCommand → DatabaseHeader → Option ℕ → MemStorage → Handled
unfolding handle_create handle_read handle_update handle_delete handle_has handle_keys handle_size
handle_command (DatabaseCommand.create key value) = λ header. handle_create header key value
handle_command (DatabaseCommand.read key) = λ header. handle_read header key
handle_command (DatabaseCommand.update key value) = λ header. handle_update header key value
handle_command (DatabaseCommand.delete key) = λ header. handle_delete header key
handle_command (DatabaseCommand.has key) = λ header. handle_has header key
handle_command DatabaseCommand.keys = λ header. handle_keys header
handle_command DatabaseCommand.size = λ header. handle_size header
handle_command _ = λ header session storage. (storage, [])

unfoldable pub handle_request : DatabaseMsg → Option ℕ → MemStorage → Handled
unfolding handle_command
handle_request request session storage = handle_command request.msg request.header session storage
