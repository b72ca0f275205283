-- ===== src/Crud/Answers.antt =====
-- What the handlers of crud/crud.cpp answer and what they do to the view of the storage. Requests for all keys
-- and for the size are answered with what the storage lists and counts.
use Prim.Native.String.{len}
use swarm_db.Base.{
  ℕ, ◌≡◌, refl, Option, none, some, List, [], ◌∷◌, String, ltb, if◌then◌else◌, is_some, arith,
}
use swarm_db.Proto.{
  DatabaseHeader, DatabaseCommand, ResponseBody, response_not_set, read_response, keys_response,
  size_response, error_response,
}
use swarm_db.Storage.{
  StorageResult, MemStorage, max_key_size, max_value_size, create, update, remove, get_keys,
  get_size,
}
use swarm_db.Storage.View.{
  View, view, write_if_ok, create_result, update_result, remove_result, create-refines,
  update-refines, remove-refines, has-eq-read,
}
use swarm_db.Storage.Size.{IsWellFormed, creates, updates, removes, after, after-IsWellFormed}
use swarm_db.Crud.{Sent, set_error, respond_to_write, handle_read, to_int32, handle_request}

-- The answer to a command, `none` to one that the handler does not know.
abbrev pub answer : MemStorage → String → DatabaseCommand → Option ResponseBody
answer s uuid (DatabaseCommand.create key value) = some (
    if ltb max_value_size (len value)
    then error_response "VALUE_SIZE_TOO_LARGE"
    else if ltb max_key_size (len key)
    then error_response "KEY_SIZE_TOO_LARGE"
    else if is_some (view s uuid key)
    then error_response "RECORD_EXISTS"
    else response_not_set)
answer s uuid (DatabaseCommand.update key value) = some (
    if ltb max_value_size (len value)
    then error_response "VALUE_SIZE_TOO_LARGE"
    else if is_some (view s uuid key)
    then response_not_set
    else error_response "RECORD_NOT_FOUND")
answer s uuid (DatabaseCommand.delete key) =
    some (if is_some (view s uuid key) then response_not_set else error_response "RECORD_NOT_FOUND")
answer s uuid (DatabaseCommand.read key) = some (elim (view s uuid key) [
  | none ↦ error_response "RECORD_NOT_FOUND"
  | some value ↦ read_response key value
])
answer s uuid (DatabaseCommand.has key) =
    some (if is_some (view s uuid key) then response_not_set else error_response "RECORD_NOT_FOUND")
answer s uuid DatabaseCommand.keys = some (keys_response (get_keys s uuid))
answer s uuid DatabaseCommand.size =
    some (size_response (to_int32 (get_size s uuid).0) (to_int32 (get_size s uuid).1))
answer s uuid _ = none

abbrev pub sent_to : ℕ → DatabaseHeader → Option ResponseBody → List Sent
sent_to session header none = []
sent_to session header (some body) =
    (record { session = session; response = record { header = header; response = body } }) ∷ []

-- What a writer sends to a session.
respond_to_write_lem :
    (header : DatabaseHeader) (r : StorageResult × MemStorage) (session : ℕ)
    → (respond_to_write header r (some session)).1
      ≡ sent_to session header (some (set_error r.0 response_not_set))
unfolding respond_to_write
respond_to_write_lem header (r, st) session = refl

handle_read_lem :
    (header : DatabaseHeader) (key : String) (session : ℕ) (s : MemStorage)
    → (handle_read header key (some session) s).1
      ≡ sent_to session header (answer s header.db_uuid (DatabaseCommand.read key))
unfolding handle_read set_error
handle_read_lem header key session s = ground arith

-- A session that is there is sent one response to each known command, with the request's header.
pub handle_request-answers :
    (header : DatabaseHeader) (command : DatabaseCommand) (session : ℕ) (s : MemStorage)
    → (handle_request (record { header = header; msg = command }) (some session) s).1
      ≡ sent_to session header (answer s header.db_uuid command)
unfolding handle_request set_error
handle_request-answers header (DatabaseCommand.create key value) session s = ground (
  arith,
  respond_to_write_lem header (create s header.db_uuid key value) session,
  (create-refines s header.db_uuid key value).0,
)
handle_request-answers header (DatabaseCommand.update key value) session s = ground (
  arith,
  respond_to_write_lem header (update s header.db_uuid key value) session,
  (update-refines s header.db_uuid key value).0,
)
handle_request-answers header (DatabaseCommand.delete key) session s = ground (
  arith,
  respond_to_write_lem header (remove s header.db_uuid key) session,
  (remove-refines s header.db_uuid key).0,
)
handle_request-answers header (DatabaseCommand.read key) session s =
    ground (arith, handle_read_lem header key session s)
handle_request-answers header (DatabaseCommand.has key) session s =
    ground (arith, has-eq-read s header.db_uuid key)
handle_request-answers header DatabaseCommand.keys session s = refl
handle_request-answers header DatabaseCommand.size session s = refl
handle_request-answers header (DatabaseCommand.subscribe key) session s = refl
handle_request-answers header (DatabaseCommand.unsubscribe key t) session s = refl
handle_request-answers header DatabaseCommand.msg_not_set session s = refl

-- The view that a command leaves.
abbrev pub next_view : DatabaseCommand → String → View → View
next_view (DatabaseCommand.create key value) uuid f =
    write_if_ok (create_result f uuid key value) f uuid key (some value)
next_view (DatabaseCommand.update key value) uuid f =
    write_if_ok (update_result f uuid key value) f uuid key (some value)
next_view (DatabaseCommand.delete key) uuid f =
    write_if_ok (remove_result f uuid key) f uuid key none
next_view _ uuid f = f

-- The storage that a command leaves, whoever asked.
pub storage_after : DatabaseCommand → String → MemStorage → MemStorage
storage_after (DatabaseCommand.create key value) uuid s = after s (creates uuid key value)
storage_after (DatabaseCommand.update key value) uuid s = after s (updates uuid key value)
storage_after (DatabaseCommand.delete key) uuid s = after s (removes uuid key)
storage_after _ uuid s = s

respond_to_write_storage :
    (header : DatabaseHeader) (r : StorageResult × MemStorage) (session : Option ℕ)
    → (respond_to_write header r session).0 ≡ r.1
unfolding respond_to_write
respond_to_write_storage header (r, st) none = refl
respond_to_write_storage header (r, st) (some n) = refl

pub handle_request-storage :
    (header : DatabaseHeader) (command : DatabaseCommand) (session : Option ℕ) (s : MemStorage)
    → (handle_request (record { header = header; msg = command }) session s).0
      ≡ storage_after command header.db_uuid s
unfolding handle_request storage_after
handle_request-storage h (DatabaseCommand.create key value) session s =
    respond_to_write_storage h (create s h.db_uuid key value) session
handle_request-storage h (DatabaseCommand.update key value) session s =
    respond_to_write_storage h (update s h.db_uuid key value) session
handle_request-storage h (DatabaseCommand.delete key) session s =
    respond_to_write_storage h (remove s h.db_uuid key) session
handle_request-storage h (DatabaseCommand.read key) none s = refl
handle_request-storage h (DatabaseCommand.read key) (some n) s = refl
handle_request-storage h (DatabaseCommand.has key) none s = refl
handle_request-storage h (DatabaseCommand.has key) (some n) s = refl
handle_request-storage h DatabaseCommand.keys none s = refl
handle_request-storage h DatabaseCommand.keys (some n) s = refl
handle_request-storage h DatabaseCommand.size none s = refl
handle_request-storage h DatabaseCommand.size (some n) s = refl
handle_request-storage h (DatabaseCommand.subscribe key) session s = refl
handle_request-storage h (DatabaseCommand.unsubscribe key t) session s = refl
handle_request-storage h DatabaseCommand.msg_not_set session s = refl

storage_after-view :
    (c : DatabaseCommand) (uuid : String) (s : MemStorage) (u k : String)
    → view (storage_after c uuid s) u k ≡ next_view c uuid (view s) u k
unfolding storage_after
storage_after-view (DatabaseCommand.create key value) uuid s u k =
    rw (← (create-refines s uuid key value).0) ((create-refines s uuid key value).1 u k)
storage_after-view (DatabaseCommand.update key value) uuid s u k =
    rw (← (update-refines s uuid key value).0) ((update-refines s uuid key value).1 u k)
storage_after-view (DatabaseCommand.delete key) uuid s u k =
    rw (← (remove-refines s uuid key).0) ((remove-refines s uuid key).1 u k)
storage_after-view (DatabaseCommand.read key) uuid s u k = refl
storage_after-view (DatabaseCommand.has key) uuid s u k = refl
storage_after-view DatabaseCommand.keys uuid s u k = refl
storage_after-view DatabaseCommand.size uuid s u k = refl
storage_after-view (DatabaseCommand.subscribe key) uuid s u k = refl
storage_after-view (DatabaseCommand.unsubscribe key t) uuid s u k = refl
storage_after-view DatabaseCommand.msg_not_set uuid s u k = refl

storage_after-IsWellFormed :
    (c : DatabaseCommand) (uuid : String) (s : MemStorage)
    → IsWellFormed s
    → IsWellFormed (storage_after c uuid s)
unfolding storage_after
storage_after-IsWellFormed (DatabaseCommand.create key value) uuid s w =
    after-IsWellFormed s (creates uuid key value) w
storage_after-IsWellFormed (DatabaseCommand.update key value) uuid s w =
    after-IsWellFormed s (updates uuid key value) w
storage_after-IsWellFormed (DatabaseCommand.delete key) uuid s w =
    after-IsWellFormed s (removes uuid key) w
storage_after-IsWellFormed (DatabaseCommand.read key) uuid s w = w
storage_after-IsWellFormed (DatabaseCommand.has key) uuid s w = w
storage_after-IsWellFormed DatabaseCommand.keys uuid s w = w
storage_after-IsWellFormed DatabaseCommand.size uuid s w = w
storage_after-IsWellFormed (DatabaseCommand.subscribe key) uuid s w = w
storage_after-IsWellFormed (DatabaseCommand.unsubscribe key t) uuid s w = w
storage_after-IsWellFormed DatabaseCommand.msg_not_set uuid s w = w

module _ (header : DatabaseHeader) (command : DatabaseCommand) (session : Option ℕ)
    (s : MemStorage) where
  -- Whether or not its session is there, a request leaves the view of the storage that its command
  -- demands: a successful write changes the one entry, and all else changes none.
  pub handle_request-refines :
      (u k : String)
      → view (handle_request (record { header = header; msg = command }) session s).0 u k
        ≡ next_view command header.db_uuid (view s) u k
  handle_request-refines u k =
      rw (handle_request-storage header command session s)
        (storage_after-view command header.db_uuid s u k)

  -- Every request, known or not, keeps the keys of each database distinct.
  pub handle_request-IsWellFormed :
      IsWellFormed s
      → IsWellFormed (handle_request (record { header = header; msg = command }) session s).0
  handle_request-IsWellFormed w =
      rw (handle_request-storage header command session s)
        (storage_after-IsWellFormed command header.db_uuid s w)
