-- ===== src/Crud/Replay.antt =====
-- Sequences of requests to crud/crud.cpp: what is written is read again, and the replicas of
-- pbft/database_pbft_service.cpp, which execute the same requests, keep the same storage.
use swarm_db.Base.{ℕ, ◌≡◌, refl, some, List, [], ◌∷◌, ◌++◌, String, arith}
use swarm_db.Base.Equality.{==_refl, string_eq}
use swarm_db.Proto.{
  DatabaseHeader, DatabaseMsg, DatabaseCommand, msg_not_set, response_not_set, read_response,
  RequestBody, operation, PbftRequest,
}
use swarm_db.Storage.{MemStorage}
use swarm_db.Storage.Size.{IsWellFormed}
use swarm_db.Pbft.Service.{Execution}
use swarm_db.Crud.{Handled, handle_request}
use swarm_db.Crud.Answers.{
  answer, sent_to, handle_request-answers, handle_request-refines, handle_request-IsWellFormed,
  handle_request-storage, storage_after,
}

-- request.operation(), the default message if it is not set
abbrev pub operation_of : RequestBody → DatabaseMsg
operation_of (operation m) = m
operation_of _ = record { header = record { db_uuid = ""; transaction_id = 0 }; msg = msg_not_set }

-- The calls of `handle_request` that the service makes, in their order.
unfoldable pub replay : List Execution → MemStorage → Handled
replay [] storage = (storage, [])
replay (e ∷ es) storage =
    let (next, sent) = handle_request (operation_of e.request.msg) e.session storage in
    let (last, more) = replay es next in (last, sent ++ more)

abbrev pub requests : List Execution → List PbftRequest
requests [] = []
requests (e ∷ es) = e.request ∷ requests es

-- The storage after a list of operations, which no session is known of.
storage_of : List PbftRequest → MemStorage → MemStorage
storage_of [] s = s
storage_of (r ∷ rs) s =
    let m = operation_of r.msg in storage_of rs (storage_after m.msg m.header.db_uuid s)

replay-storage :
    (es : List Execution) (s : MemStorage) → (replay es s).0 ≡ storage_of (requests es) s
unfolding replay storage_of
replay-storage [] s = refl
replay-storage (e ∷ es) s =
    let m = operation_of e.request.msg in
    rw (handle_request-storage m.header m.msg e.session s)
      (replay-storage es (storage_after m.msg m.header.db_uuid s))

-- Two replicas that execute the same requests in the same order, from the same storage, end with the
-- same storage, whatever sessions each of them still has for its answers.
pub replay-deterministic :
    (es fs : List Execution) (s : MemStorage)
    → requests es ≡ requests fs
    → (replay es s).0 ≡ (replay fs s).0
replay-deterministic es fs s same = rw (replay-storage es s, replay-storage fs s, same) refl

-- A replica's storage keeps the keys of each database distinct through every replay.
pub replay-IsWellFormed :
    (es : List Execution) (s : MemStorage) → IsWellFormed s → IsWellFormed (replay es s).0
unfolding replay
replay-IsWellFormed [] s w = w
replay-IsWellFormed (e ∷ es) s w =
    let m = operation_of e.request.msg in
    replay-IsWellFormed es (handle_request m e.session s).0
      (handle_request-IsWellFormed m.header m.msg e.session s w)

-- A `read` that follows a `create` which was answered without an error is answered with the value.
pub read-create :
    (header h : DatabaseHeader) (key value : String) (session n : ℕ) (s : MemStorage)
    → h.db_uuid ≡ header.db_uuid
    → answer s header.db_uuid (DatabaseCommand.create key value) ≡ some response_not_set
    → (handle_request
        (record { header = h; msg = DatabaseCommand.read key })
        (some n)
        (handle_request
          (record { header = header; msg = DatabaseCommand.create key value })
          (some session)
          s).0).1
      ≡ sent_to n h (some (read_response key value))
read-create header h key value session n s same answered =
    let after_create : MemStorage =
      (handle_request (record { header = header; msg = DatabaseCommand.create key value })
        (some session) s).0 in
    rw (handle_request-answers h (DatabaseCommand.read key) n after_create) (
      ground (
        arith,
        handle_request-refines header (DatabaseCommand.create key value) (some session) s h.db_uuid
            key,
        ==_refl header.db_uuid,
        ==_refl key,
      ))
