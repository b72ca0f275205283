-- ===== src/Pbft/Replica/Issue.antt =====
-- What `handle_request` of pbft/pbft.cpp does with a request of a client: the primary gives it the next
-- sequence number and proposes it to every peer, and a backup forwards it to the primary.
pub mod Requests
use swarm_db.Base.{
  ℕ, ◌+◌, ◌≡◌, refl, sym, subst, ◌∙◌, Bool, true, false, Option, none, some, List, [], ◌∷◌, ◌++◌,
  String, map, add64, arith, if◌then◌else◌, All, Option-cases, Bool-cases, inl, inr,
}
use swarm_db.Base.Equality.{◌==◌, string_eq}
use swarm_db.Base.Assoc.{lookup, put}
use swarm_db.Proto.{PbftMsgType, PbftRequest}
use swarm_db.Pbft.Peers.{PeerAddress}
use swarm_db.Pbft.External.{External}
use swarm_db.Pbft.Operation.{
  Operation, OperationKey, new_operation, get_operation_key, request_hash, set_session,
}
use swarm_db.Pbft.Operation.Phases.{IsSound, listens, Step-IsSound}
use swarm_db.Pbft.Configuration.{Configuration}
use swarm_db.Pbft.ConfigStore.{ConfigStore, current}
use swarm_db.Pbft.Replica.State.{
  Replica, Output, send, forward, WireMessage, from_sender, Outcome, done, throws, Action, continue,
  ◌>>=◌, ◌>>◌, pure, current_peers, emit, broadcast, broadcast_pbft, get_primary, is_primary,
  primary_of, store_operation, operation_key_eq,
}
use swarm_db.Pbft.Replica.Operations.{find_operation, do_preprepare, common_message_setup}
use swarm_db.Pbft.Replica.Requests.{
  issue_sequence, attach_session, setup_request_operation, handle_request,
}
use swarm_db.Pbft.Replica.Invariant.{
  Returns, Returns-continue, Returns-map, Returns-both, Returns-if, IsProper, marks, Inv, Evolves,
  Evolves-refl, Good, InTable, KeepsTable,
}
use swarm_db.Pbft.Replica.Invariant.Parts.{
  store_operation-Returns, find_operation-Returns, current_peers-Returns,
}

-- Nothing has been sent and no number given out.
record Quiet (s t : Replica) : Type 0 where
  same_view : t.view ≡ s.view
  same_uuid : t.uuid ≡ s.uuid
  same_outputs : t.outputs ≡ s.outputs
  same_next : t.next_issued_sequence_number ≡ s.next_issued_sequence_number
  same_configurations : t.configurations ≡ s.configurations

store_operation-Quiet :
    (ext : External) (op : Operation) (s : Replica)
    → Returns (λ r t. Quiet s t) (store_operation ext op s)
unfolding store_operation
store_operation-Quiet ext op s = record {
  same_view = refl;
  same_uuid = refl;
  same_outputs = refl;
  same_next = refl;
  same_configurations = refl;
}

issue_sequence-Good :
    (ext : External) (s : Replica)
    → Inv ext s
    → Good ext s (record s { next_issued_sequence_number = add64 s.next_issued_sequence_number 1 })
unfolding marks
issue_sequence-Good ext s i = record {
  inv = record {
    keyed = i.keyed;
    sound = i.sound;
    accepted = i.accepted;
    configured = i.configured;
    proper = i.proper;
  };
  evolves = record {
    same_view = refl;
    same_uuid = refl;
    same_marks = refl;
    still_accepted = λ k key h. h;
  };
}

find_operation-Quiet :
    (ext : External) {s : Replica} (view sequence : ℕ) (request : PbftRequest) (t : Replica)
    → Good ext s t
    → Returns (λ op u. Quiet t u) (find_operation ext view sequence request t)
unfolding find_operation
find_operation-Quiet ext view sequence request t g =
    let key : OperationKey = record {
      view = view;
      sequence = sequence;
      hash = request_hash ext request;
    } in
    elim (Option-cases (lookup key t.operations)) [
      | inl e ↦
          rw (e, find_operation)
            (Returns-continue (λ ps u. u ≡ t) (λ op u. Quiet t u) (current_peers t) _
              (current_peers-Returns ext t g)
              λ ps u same.
                rw same (store_operation-Quiet ext (new_operation view sequence request ps) t))
      | inr (op, e) ↦
          rw (e, find_operation)
            (record {
              same_view = refl;
              same_uuid = refl;
              same_outputs = refl;
              same_next = refl;
              same_configurations = refl;
            })
    ]

-- The operation is under the next sequence number of the view, which is given out no more; nothing has
-- been sent.
pub record Issued (ext : External) (s : Replica) (request : PbftRequest) (op : Operation)
    (t : Replica) : Type 0 where
  pub good : Good ext s t
  pub in_table : InTable ext op t
  pub own_key : get_operation_key ext op ≡ record {
    view = s.view;
    sequence = s.next_issued_sequence_number;
    hash = request_hash ext request;
  }
  pub numbered : t.next_issued_sequence_number ≡ add64 s.next_issued_sequence_number 1
  pub same_outputs : t.outputs ≡ s.outputs
  pub same_configurations : t.configurations ≡ s.configurations
  pub same_uuid : t.uuid ≡ s.uuid

attach_session-Issued :
    (ext : External) (s : Replica) (request : PbftRequest) (op : Operation) (session : Option ℕ)
    (t : Replica)
    → Issued ext s request op t
    → Returns (Issued ext s request) (attach_session ext op session t)
unfolding attach_session set_session get_operation_key
attach_session-Issued ext s request op none t i = i
attach_session-Issued ext s request op (some n) t i =
    let q = set_session n op in
    let sound =
      Step-IsSound (listens op n) (i.good.inv.sound (get_operation_key ext op) op i.in_table) in
    Returns-map (λ r u. (Good ext s u × (r ≡ q) × InTable ext q u) × Quiet t u)
      (Issued ext s request) (store_operation ext q t)
      (Returns-both (λ r u. Good ext s u × (r ≡ q) × InTable ext q u) (λ r u. Quiet t u)
        (store_operation ext q t) (store_operation-Returns ext q t i.good sound)
        (store_operation-Quiet ext q t))
      λ r u w. record {
        good = w.0.0;
        in_table = rw w.0.1 w.0.2;
        own_key = rw w.0.1 i.own_key;
        numbered = w.1.same_next ∙ i.numbered;
        same_outputs = w.1.same_outputs ∙ i.same_outputs;
        same_configurations = w.1.same_configurations ∙ i.same_configurations;
        same_uuid = w.1.same_uuid ∙ i.same_uuid;
      }

-- In a replica with the invariant, setting up the operation of a request throws nothing, and it gets the next sequence number.
pub setup_request_operation-Issued :
    (ext : External) (request : PbftRequest) (session : Option ℕ) (s : Replica)
    → Inv ext s
    → Returns (Issued ext s request) (setup_request_operation ext request session s)
unfolding setup_request_operation issue_sequence
setup_request_operation-Issued ext request session s i =
    let n = s.next_issued_sequence_number in
    let t = record s { next_issued_sequence_number = add64 n 1 } in
    let g = issue_sequence-Good ext s i in
    let found = find_operation ext s.view n request t in
    Returns-continue _ (Issued ext s request) found _
      (Returns-both _ (λ op u. Quiet t u) found (find_operation-Returns ext s.view n request t g)
        (find_operation-Quiet ext s.view n request t g))
      λ op u w. attach_session-Issued ext s request op session u (record {
        good = w.0.0;
        in_table = w.0.1;
        own_key = w.0.2;
        numbered = w.1.same_next;
        same_outputs = w.1.same_outputs;
        same_configurations = w.1.same_configurations;
        same_uuid = w.1.same_uuid;
      })
