-- ===== src/Pbft/Service/Tests.antt =====
-- A service of pbft/database_pbft_service.cpp that has the operations 1 and 2, and its theorems there.
use swarm_db.Base.{none, Bool, true, false, ◌≢◌, ◌≡◌, refl, some, [], ◌∷◌, String, eqb, arith}
use swarm_db.Base.Equality.{◌==◌, ==_iff, string_eq}
use swarm_db.Base.Assoc.{lookup}
use swarm_db.Proto.{PbftRequest, RequestType, body_not_set}
use swarm_db.Storage.{MemStorage, ok, create, insert_record, get_size, count_records}
use swarm_db.Storage.Size.{IsWellFormed}
use swarm_db.Pbft.Operation.{Operation, OperationState}
use swarm_db.Pbft.Service.{Codec, Service, process_awaiting_operations, apply_operation}
use swarm_db.Pbft.Service.Kept.{IsOwnKey, IsKept, last_state, apply_operation-IsKept}
use swarm_db.Pbft.Service.Order.{stored, Returned, Processed, process_awaiting_operations-Returned}

abbrev request : PbftRequest
request = record { type = RequestType.undefined; msg = body_not_set; timestamp = 0; client = "req" }

-- The digit of a number that is 1, 2, 3 or another one.
abbrev digit : Bool → Bool → Bool → String
digit true b c = "1"
digit false true c = "2"
digit false false true = "3"
digit false false false = "4"

apart : (a b : String) → (a == b) ≡ false → a ≢ b
apart a b n e = ground (arith, ==_iff a b, n, e)

digit_third : (a b c : Bool) → digit a b c ≡ "3" → c ≡ true
digit_third true b c h = ground (arith, apart "1" "3" refl h, h)
digit_third false true c h = ground (arith, apart "2" "3" refl h, h)
digit_third false false true h = refl
digit_third false false false h = ground (arith, apart "4" "3" refl h, h)

abbrev codec : Codec
codec = record {
  decimal = λ n. digit (eqb n 1) (eqb n 2) (eqb n 3);
  serialize_request = λ r. r.client;
  parse_request = λ s. some request;
}

abbrev storage : MemStorage
storage = record { kv_store = ("me", ("1", "req") ∷ ("2", "req") ∷ []) ∷ [] }

storage-IsWellFormed : IsWellFormed storage
unfolding lookup
storage-IsWellFormed = record { distinct = λ u db h. ground (arith, h) }

abbrev service : Service
service = record {
  unstable_storage = storage;
  uuid = "me";
  next_request_sequence = 1;
  sessions_awaiting_response = [];
  executed = [];
}

stored_two : stored service ≡ 2
unfolding get_size count_records lookup
stored_two = refl

process_awaiting_operations-Returned_example :
    Returned codec (Processed codec) (process_awaiting_operations codec 10 service)
process_awaiting_operations-Returned_example =
    process_awaiting_operations-Returned codec 10 service storage-IsWellFormed refl
      (rw stored_two (omega arith)) (omega arith)

abbrev third : Operation
third = record {
  view = 1;
  sequence = 3;
  request = request;
  peers = [];
  state = OperationState.committed;
  preprepare_seen = true;
  prepares_seen = [];
  commits_seen = [];
  listener_session = none;
}

third-IsOwnKey : IsOwnKey codec 3
third-IsOwnKey = record {
  injective = λ m h. ground (arith, digit_third (eqb m 1) (eqb m 2) (eqb m 3) h);
  reserved = apart "next_request_sequence" "3" refl;
}

third_fits : (create storage "me" "3" "req").0 ≡ ok
unfolding create insert_record lookup
third_fits = refl

apply_operation-IsKept_example :
    IsKept codec "req" 3 (last_state (apply_operation codec 10 third service))
    × Returned codec (Processed codec) (apply_operation codec 10 third service)
apply_operation-IsKept_example =
    apply_operation-IsKept codec 10 third service third-IsOwnKey storage-IsWellFormed refl
      third_fits (rw stored_two (omega arith)) (omega arith)
