-- ===== src/Pbft/Service/Kept.antt =====
-- What pbft/database_pbft_service.cpp takes in is not lost: it is executed, or it is still stored.
use swarm_db.Base.{
  ℕ, zero, suc, ◌+◌, ◌<◌, ◌≡◌, ◌≢◌, ◌⊎◌, refl, sym, ◌∙◌, ap, some, List, [], ◌∷◌, ◌++◌, String,
  arith, eqb, u64_mod, Among, Among-append_left, Among-append_right, Option-cases, Bool-cases, inl,
  inr,
}
use swarm_db.Base.Equality.{==_iff, ==_refl, string_eq, nat_eq}
use swarm_db.Base.Assoc.{lookup, put}
use swarm_db.Pbft.Operation.{Operation}
use swarm_db.Proto.{PbftRequest}
use swarm_db.Storage.{
  StorageResult, ok, not_found, exists, not_saved, value_too_large, key_too_large, MemStorage,
  create, read, update, remove,
}
use swarm_db.Storage.View.{create-refines, remove-refines, update-refines}
use swarm_db.Storage.Size.{IsWellFormed, after-IsWellFormed, creates, get_size-create}
use swarm_db.Pbft.Service.{
  Codec, Execution, Service, Result, finished, failed, out_of_fuel, next_request_sequence_key,
  session_of, save_next_request_sequence, is_stored, finish_execution, execute_request,
  execute_next, then_go_on, process_awaiting_operations, accept_operation, apply_operation,
}
use swarm_db.Pbft.Service.Order.{
  IsInOrder, stored, ok_pair, Returned, Processed, process_awaiting_operations-Returned,
}

-- The state in which a run ends, however it does.
abbrev pub last_state : Result → Service
last_state (finished s) = s
last_state (failed e s) = s
last_state (out_of_fuel s) = s

-- Writing under another key leaves what is read.
remove_other :
    (s : MemStorage) (uuid k j : String) → k ≢ j → read (remove s uuid k).1 uuid j ≡ read s uuid j
remove_other s uuid k j n = ground (arith, (remove-refines s uuid k).1 uuid j, ==_iff k j, n)

update_other :
    (s : MemStorage) (uuid k v j : String)
    → k ≢ j
    → read (update s uuid k v).1 uuid j ≡ read s uuid j
update_other s uuid k v j n = ground (arith, (update-refines s uuid k v).1 uuid j, ==_iff k j, n)

create_stored :
    (s : MemStorage) (uuid key value : String)
    → (create s uuid key value).0 ≡ ok
    → read (create s uuid key value).1 uuid key ≡ some value
create_stored s uuid key value e =
    ground (arith, (create-refines s uuid key value).1 uuid key, e, ==_refl uuid, ==_refl key)

-- A key that no other number and no key of the service's own has.
pub record IsOwnKey (codec : Codec) (n : ℕ) : Type 0 where
  pub injective : (m : ℕ) → codec.decimal m ≡ codec.decimal n → m ≡ n
  pub reserved : next_request_sequence_key ≢ codec.decimal n

module _ (codec : Codec) (text : String) (n : ℕ) where
  -- The operation of the number was executed, as what its stored text parses as.
  abbrev pub WasExecuted : List Execution → Type 0
  WasExecuted es =
      (e : Execution) × Among e es × (e.sequence ≡ n) × (codec.parse_request text ≡ some e.request)

  -- The text stands under the number, or it was executed.
  abbrev IsKeptIn : MemStorage → Service → Type 0
  IsKeptIn st s = (read st s.uuid (codec.decimal n) ≡ some text) ⊎ WasExecuted s.executed

  abbrev pub IsKept : Service → Type 0
  IsKept s = IsKeptIn s.unstable_storage s

  finish_execution-IsKept :
      (r : StorageResult × MemStorage) (s : Service)
      → IsOwnKey codec n
      → IsKeptIn r.1 s
      → IsKept s
      → IsKept (last_state (finish_execution codec r s))
  unfolding finish_execution save_next_request_sequence
  finish_execution-IsKept (ok, st) s own (inr w) before = inr w
  finish_execution-IsKept (ok, st) s own (inl h) before =
      inl (update_other st s.uuid next_request_sequence_key _ (codec.decimal n) own.reserved ∙ h)
  finish_execution-IsKept (not_found, st) s own kept before = before
  finish_execution-IsKept (exists, st) s own kept before = before
  finish_execution-IsKept (not_saved, st) s own kept before = before
  finish_execution-IsKept (value_too_large, st) s own kept before = before
  finish_execution-IsKept (key_too_large, st) s own kept before = before

  -- An execution that is added to a service.
  abbrev add_execution : Execution → Service → Service
  add_execution e s = record s { executed = s.executed ++ e ∷ [] }

  later-IsKeptIn :
      (e : Execution) (st : MemStorage) (s : Service)
      → IsKeptIn st s
      → IsKeptIn st (add_execution e s)
  later-IsKeptIn e st s (inl h) = inl h
  later-IsKeptIn e st s (inr (f, a, k, q)) =
      inr (f, Among-append_left f s.executed (e ∷ []) a, k, q)

  removed-IsKeptIn :
      (e : Execution) (s : Service)
      → IsOwnKey codec n
      → e.sequence ≡ s.next_request_sequence
      → (here : String)
      → read s.unstable_storage s.uuid (codec.decimal s.next_request_sequence) ≡ some here
      → codec.parse_request here ≡ some e.request
      → IsKept s
      → IsKeptIn
          (remove s.unstable_storage s.uuid (codec.decimal s.next_request_sequence)).1
          (add_execution e s)
  removed-IsKeptIn e s own numbered here found parsed (inr w) =
      later-IsKeptIn e (remove s.unstable_storage s.uuid (codec.decimal s.next_request_sequence)).1
        s (inr w)
  removed-IsKeptIn e s own numbered here found parsed (inl h) =
      elim (Bool-cases (eqb s.next_request_sequence n)) [
        | inl same ↦
            let k : s.next_request_sequence ≡ n = ground (arith, same) in
            let t : here ≡ text =
              ground
                (arith, found, h, ap (λ i. read s.unstable_storage s.uuid (codec.decimal i)) k) in
            inr (
              e,
              Among-append_right e s.executed (e ∷ []) (inl refl),
              numbered ∙ k,
              ap codec.parse_request (sym t) ∙ parsed,
            )
        | inr other ↦ inl (
            remove_other s.unstable_storage s.uuid (codec.decimal s.next_request_sequence)
              (codec.decimal n)
              (λ d. ground (arith, own.injective s.next_request_sequence d, other))
            ∙ h)
      ]

  execute_request-IsKept :
      (request : PbftRequest) (s : Service) (here : String)
      → IsOwnKey codec n
      → read s.unstable_storage s.uuid (codec.decimal s.next_request_sequence) ≡ some here
      → codec.parse_request here ≡ some request
      → IsKept s
      → IsKept (last_state (execute_request codec request s))
  unfolding execute_request
  execute_request-IsKept request s here own found parsed kept =
      let e : Execution = record {
        sequence = s.next_request_sequence;
        request = request;
        session = session_of (lookup s.next_request_sequence s.sessions_awaiting_response);
      } in
      finish_execution-IsKept
        (remove s.unstable_storage s.uuid (codec.decimal s.next_request_sequence))
        (add_execution e s) own (removed-IsKeptIn e s own refl here found parsed kept)
        (later-IsKeptIn e s.unstable_storage s kept)

  execute_next-IsKept :
      (s : Service) → IsOwnKey codec n → IsKept s → IsKept (last_state (execute_next codec s))
  unfolding execute_next
  execute_next-IsKept s own kept =
      elim (Option-cases (read s.unstable_storage s.uuid (codec.decimal s.next_request_sequence))) [
        | inl e ↦ rw (e, execute_next) kept
        | inr (here, e) ↦ elim (Option-cases (codec.parse_request here)) [
          | inl p ↦ rw (e, execute_next, p) kept
          | inr (request, p) ↦
              rw (e, execute_next, p) (execute_request-IsKept request s here own e p kept)
        ]
      ]

  go_on-IsKept :
      (r : Result) (f : Service → Result)
      → IsKept (last_state r)
      → ((t : Service) → IsKept t → IsKept (last_state (f t)))
      → IsKept (last_state (then_go_on r f))
  go_on-IsKept (finished t) f h k = k t h
  go_on-IsKept (failed e t) f h k = h
  go_on-IsKept (out_of_fuel t) f h k = h

  process_awaiting_operations-IsKept :
      (fuel : ℕ) (s : Service)
      → IsOwnKey codec n
      → IsKept s
      → IsKept (last_state (process_awaiting_operations codec fuel s))
  unfolding process_awaiting_operations
  process_awaiting_operations-IsKept zero s own kept = kept
  process_awaiting_operations-IsKept (suc fuel) s own kept = elim (Bool-cases (is_stored codec s)) [
    | inr e ↦ rw (e, process_awaiting_operations) kept
    | inl e ↦
        rw (e, process_awaiting_operations)
          (go_on-IsKept (execute_next codec s) (λ t. process_awaiting_operations codec fuel t)
            (execute_next-IsKept s own kept) λ t k. process_awaiting_operations-IsKept fuel t own k)
  ]

module _ (codec : Codec) where
  -- In a service with a well-formed storage that has executed consecutive sequence numbers from 1, an operation
  -- that can be stored, under a key that no other number and no counter of the service's own has, is taken in
  -- with fuel for it and for what is stored, and room for as many sequence numbers. It is then executed, as its
  -- stored text parses, or it is still stored. What was executed are still consecutive sequence numbers from 1,
  -- each once, and the next one is not stored; the one error left is a stored text that is no request.
  pub apply_operation-IsKept :
      (fuel : ℕ) (op : Operation) (s : Service)
      → IsOwnKey codec op.sequence
      → IsWellFormed s.unstable_storage
      → IsInOrder s.executed 1 s.next_request_sequence
      → (create s.unstable_storage s.uuid
          (codec.decimal op.sequence)
          (codec.serialize_request op.request)).0
        ≡ ok
      → stored s + 1 < fuel
      → s.next_request_sequence + fuel < u64_mod
      → IsKept codec
          (codec.serialize_request op.request)
          op.sequence
          (last_state (apply_operation codec fuel op s))
        × Returned codec (Processed codec) (apply_operation codec fuel op s)
  unfolding apply_operation accept_operation
  apply_operation-IsKept fuel op s own w o e k h =
      let key = codec.decimal op.sequence in
      let text = codec.serialize_request op.request in
      let st = (create s.unstable_storage s.uuid key text).1 in
      let t : Service = record s {
        unstable_storage = st;
        sessions_awaiting_response =
            put op.sequence op.listener_session s.sessions_awaiting_response;
      } in
      let grown = get_size-create s.unstable_storage s.uuid key text e in
      rw (ok_pair (create s.unstable_storage s.uuid key text) e) (
        process_awaiting_operations-IsKept codec text op.sequence fuel t own
            (inl (create_stored s.unstable_storage s.uuid key text e)),
        process_awaiting_operations-Returned codec fuel t
            (after-IsWellFormed s.unstable_storage (creates s.uuid key text) w) o
            (omega (arith, ap (λ (p : ℕ × ℕ). p.0) grown, k)) h,
      )
