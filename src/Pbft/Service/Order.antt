-- ===== src/Pbft/Service/Order.antt =====
-- The service of pbft/database_pbft_service.cpp executes operations one after the other, by consecutive
-- sequence numbers.
use swarm_db.Base.{
  ℕ, zero, suc, ◌+◌, ◌<◌, ◌≡◌, refl, sym, ◌∙◌, true, false, some, List, [], ◌∷◌, ◌++◌, String,
  u64_mod, add64, add64-eq-add, arith, Option-cases, Bool-cases, inl, inr,
}
use swarm_db.Base.Equality.{nat_eq}
use swarm_db.Base.Assoc.{lookup}
use swarm_db.Proto.{PbftRequest}
use swarm_db.Storage.{StorageResult, ok, MemStorage, read, update, remove, get_size}
use swarm_db.Storage.View.{remove-refines, has-eq-read}
use swarm_db.Storage.Size.{
  IsWellFormed, get_size-update, get_size-remove, after-IsWellFormed, updates, removes,
  update_cases,
}
use swarm_db.Pbft.Service.{
  Codec, Execution, Service, parse_failed, Result, finished, failed, out_of_fuel,
  next_request_sequence_key, session_of, save_next_request_sequence, is_stored, finish_execution,
  execute_request, execute_next, then_go_on, process_awaiting_operations,
}

-- The sequence numbers rise by one from the one number to below the other.
abbrev pub IsInOrder : List Execution → ℕ → ℕ → Type 0
IsInOrder [] low next = low ≡ next
IsInOrder (e ∷ es) low next = (e.sequence ≡ low) × IsInOrder es (low + 1) next

IsInOrder-append :
    (es : List Execution) (e : Execution) (low next : ℕ)
    → IsInOrder es low next
    → e.sequence ≡ next
    → IsInOrder (es ++ e ∷ []) low (next + 1)
IsInOrder-append [] e low next h k = (k ∙ sym h, ground (arith, h))
IsInOrder-append (f ∷ es) e low next h k = (h.0, IsInOrder-append es e (low + 1) next h.1 k)

-- How many keys the service has in its storage.
abbrev pub stored : Service → ℕ
stored s = (get_size s.unstable_storage s.uuid).0

update_same :
    (s : MemStorage) (uuid key value : String)
    → (get_size (update s uuid key value).1 uuid).0 ≡ (get_size s uuid).0
update_same s uuid key value = elim (update_cases s uuid key value) [
  | inl e ↦ rw e refl
  | inr (o, r, e) ↦ (get_size-update s uuid key value o r e).0
]

pub ok_pair : (p : StorageResult × MemStorage) → p.0 ≡ ok → p ≡ (ok, p.1)
ok_pair (r, st) e = rw e refl

module _ (codec : Codec) where
  -- What one execution leaves, on the way of a run that started with this many stored keys.
  record Executed (s t : Service) : Type 0 where
    well_formed : IsWellFormed t.unstable_storage
    fewer : stored t + 1 ≡ stored s
    moved : t.next_request_sequence ≡ s.next_request_sequence + 1
    in_order : IsInOrder t.executed 1 t.next_request_sequence

  -- A result that is neither an internal error nor a lack of fuel.
  abbrev pub Returned : (Service → Type 0) → Result → Type 0
  Returned P (finished s) = P s
  Returned P (failed e s) = (e ≡ parse_failed) × IsInOrder s.executed 1 s.next_request_sequence
  Returned P (out_of_fuel s) = ⊥

  removed :
      (s : Service) (text : String)
      → read s.unstable_storage s.uuid (codec.decimal s.next_request_sequence) ≡ some text
      → (remove s.unstable_storage s.uuid (codec.decimal s.next_request_sequence)).0 ≡ ok
  removed s text e =
      (remove-refines s.unstable_storage s.uuid (codec.decimal s.next_request_sequence)).0
      ∙ rw e refl

  finish_lem :
      (s t : Service) (st : MemStorage)
      → IsWellFormed st
      → (get_size st s.uuid).0 + 1 ≡ stored s
      → t.uuid ≡ s.uuid
      → t.next_request_sequence ≡ s.next_request_sequence
      → s.next_request_sequence + 1 < u64_mod
      → IsInOrder t.executed 1 (s.next_request_sequence + 1)
      → Returned (Executed s) (finish_execution codec (ok, st) t)
  unfolding finish_execution save_next_request_sequence
  finish_lem s t st w k u n h o = record {
    well_formed =
        after-IsWellFormed st
          (updates t.uuid next_request_sequence_key
            (codec.decimal (add64 t.next_request_sequence 1)))
          w;
    fewer = ground (
      arith,
      update_same st t.uuid next_request_sequence_key
          (codec.decimal (add64 t.next_request_sequence 1)),
      u,
      k,
    );
    moved = ground (arith, n, add64-eq-add s.next_request_sequence 1 h);
    in_order = rw (n, add64-eq-add s.next_request_sequence 1 h) o;
  }

  execute_request-Returned :
      (s : Service) (text : String) (request : PbftRequest)
      → IsWellFormed s.unstable_storage
      → read s.unstable_storage s.uuid (codec.decimal s.next_request_sequence) ≡ some text
      → s.next_request_sequence + 1 < u64_mod
      → IsInOrder s.executed 1 s.next_request_sequence
      → Returned (Executed s) (execute_request codec request s)
  unfolding execute_request
  execute_request-Returned s text request w r h o =
      let key = codec.decimal s.next_request_sequence in
      let e : Execution = record {
        sequence = s.next_request_sequence;
        request = request;
        session = session_of (lookup s.next_request_sequence s.sessions_awaiting_response);
      } in
      rw (ok_pair (remove s.unstable_storage s.uuid key) (removed s text r)) (
        finish_lem s (record s { executed = s.executed ++ e ∷ [] })
          (remove s.unstable_storage s.uuid key).1
          (after-IsWellFormed s.unstable_storage (removes s.uuid key) w)
          (get_size-remove s.unstable_storage s.uuid key text w r).0 refl refl h
          (IsInOrder-append s.executed e 1 s.next_request_sequence o refl))

  execute_next-Returned :
      (s : Service)
      → IsWellFormed s.unstable_storage
      → is_stored codec s ≡ true
      → s.next_request_sequence + 1 < u64_mod
      → IsInOrder s.executed 1 s.next_request_sequence
      → Returned (Executed s) (execute_next codec s)
  unfolding is_stored execute_next execute_request
  execute_next-Returned s w e h o =
      let key = codec.decimal s.next_request_sequence in
      elim (Option-cases (read s.unstable_storage s.uuid key)) [
        | inl r ↦ ground (arith, r, has-eq-read s.unstable_storage s.uuid key, e)
        | inr (text, r) ↦ elim (Option-cases (codec.parse_request text)) [
          | inl p ↦ rw (r, execute_next, p) (refl, o)
          | inr (request, p) ↦
              rw (r, execute_next, p) (execute_request-Returned s text request w r h o)
        ]
      ]

  -- What the loop has done when it ends by itself: the next operation is not stored.
  pub record Processed (t : Service) : Type 0 where
    pub in_order : IsInOrder t.executed 1 t.next_request_sequence
    pub well_formed : IsWellFormed t.unstable_storage
    pub done_for_now : is_stored codec t ≡ false

  go_on :
      (r : Result) (s : Service) (f : Service → Result)
      → Returned (Executed s) r
      → ((t : Service) → Executed s t → Returned Processed (f t))
      → Returned Processed (then_go_on r f)
  go_on (finished t) s f h k = k t h
  go_on (failed e t) s f h k = h
  go_on (out_of_fuel t) s f h k = absurd h

  -- In a service with a well-formed storage that has executed consecutive sequence numbers from 1, with more
  -- fuel than stored keys and room for as many sequence numbers, the loop ends: what it has executed then are
  -- still consecutive sequence numbers from 1, each once, and the next one is not stored; the one error that
  -- it can end with is a stored text that is no request.
  pub process_awaiting_operations-Returned :
      (fuel : ℕ) (s : Service)
      → IsWellFormed s.unstable_storage
      → IsInOrder s.executed 1 s.next_request_sequence
      → stored s < fuel
      → s.next_request_sequence + fuel < u64_mod
      → Returned Processed (process_awaiting_operations codec fuel s)
  unfolding process_awaiting_operations
  process_awaiting_operations-Returned zero s w o k h = ground arith
  process_awaiting_operations-Returned (suc n) s w o k h = elim (Bool-cases (is_stored codec s)) [
    | inr e ↦
        rw (e, process_awaiting_operations)
          (record { in_order = o; well_formed = w; done_for_now = e })
    | inl e ↦
        rw (e, process_awaiting_operations)
          (go_on (execute_next codec s) s (λ t. process_awaiting_operations codec n t)
            (execute_next-Returned s w e (omega (arith, h)) o)
            λ t x.
              process_awaiting_operations-Returned n t x.well_formed x.in_order
                (omega (arith, x.fewer, k)) (omega (arith, x.moved, h)))
  ]
