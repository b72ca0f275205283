-- ===== src/Pbft/Service.antt =====
-- pbft/database_pbft_service.cpp: the service that keeps committed operations in a storage and executes them
-- by rising sequence number. The CRUD handler that it calls is outside; what it is called with is kept in
-- `executed`. A session that is gone is `none`. The constructor's reading of the saved number is left out.
pub mod Order
pub mod Kept
mod Tests
use swarm_db.Base.{
  ℕ, zero, suc, Bool, true, false, Option, none, some, List, [], ◌∷◌, ◌++◌, String, add64,
  if◌then◌else◌,
}
use swarm_db.Base.Equality.{nat_eq}
use swarm_db.Base.Assoc.{Assoc, lookup, put}
use swarm_db.Proto.{PbftRequest}
use swarm_db.Storage.{StorageResult, ok, MemStorage, create, read, update, remove, has}
use swarm_db.Pbft.Operation.{Operation}

-- std::to_string, and protobuf's serialisation and parsing of a request
pub record Codec : Type 0 where
  pub decimal : ℕ → String
  pub serialize_request : PbftRequest → String
  pub parse_request : String → Option PbftRequest

pub record Execution : Type 0 where
  pub sequence : ℕ
  pub request : PbftRequest
  pub session : Option ℕ

pub record Service : Type 0 where
  pub unstable_storage : MemStorage
  pub uuid : String
  pub next_request_sequence : ℕ
  pub sessions_awaiting_response : Assoc ℕ (Option ℕ)
  pub executed : List Execution

-- The runtime errors that it throws.
pub data ServiceFault : Type 0 where
  store_failed read_failed parse_failed remove_failed : ServiceFault

pub data Result : Type 0 where
  finished : Service → Result
  failed : ServiceFault → Service → Result
  out_of_fuel : Service → Result

abbrev pub next_request_sequence_key : String
next_request_sequence_key = "next_request_sequence"

-- The session of a sequence number, if it is known and still there.
abbrev pub session_of : Option (Option ℕ) → Option ℕ
session_of none = none
session_of (some session) = session

abbrev pub then_go_on : Result → (Service → Result) → Result
then_go_on (finished s) f = f s
then_go_on (failed e s) f = failed e s
then_go_on (out_of_fuel s) f = out_of_fuel s

module _ (codec : Codec) where
  -- A failure is only logged.
  unfoldable pub save_next_request_sequence : Service → Service
  save_next_request_sequence s = record s {
    unstable_storage =
        (update s.unstable_storage s.uuid next_request_sequence_key
          (codec.decimal s.next_request_sequence)).1;
  }

  unfoldable pub is_stored : Service → Bool
  is_stored s = has s.unstable_storage s.uuid (codec.decimal s.next_request_sequence)

  -- The end of the loop's body: the operation is removed and the number goes up.
  unfoldable pub finish_execution : StorageResult × MemStorage → Service → Result
  unfolding save_next_request_sequence
  finish_execution (ok, storage) s = finished (
      save_next_request_sequence (record s {
        unstable_storage = storage;
        next_request_sequence = add64 s.next_request_sequence 1;
      }))
  finish_execution (_, storage) s = failed remove_failed s

  unfoldable pub execute_request : PbftRequest → Service → Result
  unfolding finish_execution
  execute_request request s =
      finish_execution (remove s.unstable_storage s.uuid (codec.decimal s.next_request_sequence))
        (record s {
          executed =
              s.executed
              ++ (record {
                sequence = s.next_request_sequence;
                request = request;
                session = session_of (lookup s.next_request_sequence s.sessions_awaiting_response);
              })
                ∷ [];
        })

  -- The loop's body.
  unfoldable pub execute_next : Service → Result
  unfolding execute_request
  execute_next s = elim (read s.unstable_storage s.uuid (codec.decimal s.next_request_sequence)) [
    | none ↦ failed read_failed s
    | some text ↦ elim (codec.parse_request text) [
      | none ↦ failed parse_failed s
      | some request ↦ execute_request request s
    ]
  ]

  unfoldable pub process_awaiting_operations : ℕ → Service → Result
  unfolding is_stored execute_next
  process_awaiting_operations zero s = out_of_fuel s
  process_awaiting_operations (suc n) s =
      if is_stored s
      then then_go_on (execute_next s) (λ t. process_awaiting_operations n t)
      else finished s

  -- After the operation was stored, with the fuel of the loop.
  unfoldable pub accept_operation : ℕ → Operation → StorageResult × MemStorage → Service → Result
  unfolding process_awaiting_operations
  accept_operation fuel op (ok, storage) s = process_awaiting_operations fuel (record s {
    unstable_storage = storage;
    sessions_awaiting_response = put op.sequence op.listener_session s.sessions_awaiting_response;
  })
  accept_operation fuel op (_, storage) s = failed store_failed s

  unfoldable pub apply_operation : ℕ → Operation → Service → Result
  unfolding accept_operation
  apply_operation fuel op s =
      accept_operation fuel op
        (create s.unstable_storage s.uuid (codec.decimal op.sequence)
          (codec.serialize_request op.request))
        s
