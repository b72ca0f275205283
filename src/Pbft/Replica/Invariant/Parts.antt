-- ===== src/Pbft/Replica/Invariant/Parts.antt =====
-- The parts of the handlers of pbft/pbft.cpp keep the invariant; all but the broadcast return.
use swarm_db.Base.{
  ℕ, ◌≡◌, refl, subst, some, false, List, [], ◌∷◌, ◌∙◌, Bool-cases, All, All-append, arith,
  Option-cases, inl, inr,
}
use swarm_db.Base.Equality.{string_eq}
use swarm_db.Base.Assoc.{Assoc, lookup, lookup-put_cases, lookup-put_self, All-lookup, All-put}
use swarm_db.Proto.{PbftRequest}
use swarm_db.Pbft.Peers.{PeerAddress}
use swarm_db.Pbft.External.{External}
use swarm_db.Pbft.Operation.{
  Operation, OperationKey, new_operation, get_operation_key, request_hash,
}
use swarm_db.Pbft.Operation.Phases.{IsSound, new_operation-IsSound}
use swarm_db.Pbft.Configuration.{Configuration}
use swarm_db.Pbft.ConfigStore.{ConfigStore, current}
use swarm_db.Pbft.ConfigStore.Current.{HasCurrent}
use swarm_db.Pbft.Replica.State.{
  Replica, Output, WireMessage, done, current_peers, emit, send, make_endpoint, send_all, broadcast,
  store_operation, log_key_eq, operation_key_eq,
}
use swarm_db.Pbft.Replica.Operations.{find_operation}
use swarm_db.Pbft.Replica.Invariant.{
  Returns, Returns-continue, Handled, Returns-Handled, all_ipv4, IsProper, marks, Good, InTable,
}

key-new :
    (ext : External) (view sequence : ℕ) (request : PbftRequest) (ps : List PeerAddress)
    → get_operation_key ext (new_operation view sequence request ps)
      ≡ record { view = view; sequence = sequence; hash = request_hash ext request }
unfolding new_operation get_operation_key
key-new ext view sequence request ps = refl

pub broadcast_to :
    (ext : External) (msg : WireMessage) (t : Replica) (c : Configuration)
    → current t.configurations ≡ some c
    → broadcast ext msg t ≡ send_all ext msg c.sorted_peers t
unfolding broadcast current_peers
broadcast_to ext msg t c e = rw (e, current_peers) refl

module _ (ext : External) {s : Replica} where
  pub current_peers-Returns :
      (t : Replica) → Good ext s t → Returns (λ (ps : List PeerAddress) u. u ≡ t) (current_peers t)
  unfolding current_peers
  current_peers-Returns t g = elim (Option-cases (current t.configurations)) [
    | inl e ↦ ground (arith, g.inv.configured)
    | inr (c, e) ↦ ground (arith, e)
  ]

  -- Writing a sound operation under its key keeps everything else.
  pub store_operation-Returns :
      (op : Operation) (t : Replica)
      → Good ext s t
      → IsSound op
      → Returns (λ r u. Good ext s u × (r ≡ op) × InTable ext op u) (store_operation ext op t)
  unfolding store_operation marks
  store_operation-Returns op t g h = (
    record {
      inv = record {
        keyed =
            All-put (λ e. get_operation_key ext e.1 ≡ e.0) (get_operation_key ext op) op
              t.operations refl g.inv.keyed;
        sound = λ key o e.
            elim (lookup-put_cases (get_operation_key ext op) key op t.operations o e) [
              | inl (_, same) ↦ subst IsSound same h
              | inr old ↦ g.inv.sound key o old
            ];
        accepted = g.inv.accepted;
        configured = g.inv.configured;
        proper = g.inv.proper;
      };
      evolves = record {
        same_view = g.evolves.same_view;
        same_uuid = g.evolves.same_uuid;
        same_marks = g.evolves.same_marks;
        still_accepted = g.evolves.still_accepted;
      };
    },
    refl,
    lookup-put_self (get_operation_key ext op) op t.operations,
  )

  -- Sending changes the outputs alone.
  pub emit-Returns :
      (outs : List Output) (t : Replica)
      → Good ext s t
      → All IsProper outs
      → Returns (λ r u. Good ext s u × (u.operations ≡ t.operations)) (emit outs t)
  unfolding emit marks
  emit-Returns outs t g h = (
    record {
      inv = record {
        keyed = g.inv.keyed;
        sound = g.inv.sound;
        accepted = g.inv.accepted;
        configured = g.inv.configured;
        proper = All-append IsProper t.outputs outs g.inv.proper h;
      };
      evolves = record {
        same_view = g.evolves.same_view;
        same_uuid = g.evolves.same_uuid;
        same_marks = g.evolves.same_marks;
        still_accepted = g.evolves.still_accepted;
      };
    },
    refl,
  )

  send_all-Handled :
      (msg : WireMessage) (ps : List PeerAddress) (o : Assoc OperationKey Operation)
      (c : Configuration) (t : Replica)
      → Good ext s t × (t.operations ≡ o)
      → current t.configurations ≡ some c
      → (all_ipv4 ext ps ≡ false → all_ipv4 ext c.sorted_peers ≡ false)
      → Handled ext s (λ r u. Good ext s u × (u.operations ≡ o)) (send_all ext msg ps t)
  unfolding send_all make_endpoint emit
  send_all-Handled msg [] o c t g cur back = g
  send_all-Handled msg (p ∷ ps) o c t g cur back = elim (Bool-cases (ext.is_ipv4 p.host)) [
    | inl e ↦
        let sent = emit-Returns (send p msg ∷ []) t g.0 (tt, tt) in
        rw (e, send_all)
          (send_all-Handled msg ps o c _ (sent.0, sent.1 ∙ g.1) cur λ h. back (rw (e, h) refl))
    | inr e ↦ rw (e, send_all) ((c, cur, back (rw e refl)), g.0)
  ]

  pub broadcast-Handled :
      (msg : WireMessage) (t : Replica)
      → Good ext s t
      → Handled ext s (λ r u. Good ext s u × (u.operations ≡ t.operations)) (broadcast ext msg t)
  broadcast-Handled msg t g = elim (Option-cases (current t.configurations)) [
    | inl e ↦ absurd (ground (arith, e, g.inv.configured))
    | inr (c, e) ↦
        rw (broadcast_to ext msg t c e)
          (send_all-Handled msg c.sorted_peers t.operations c t (g, refl) e λ h. h)
  ]

  pub find_operation-Returns :
      (view sequence : ℕ) (request : PbftRequest) (t : Replica)
      → Good ext s t
      → Returns
          (λ op u.
            Good ext s u
            × InTable ext op u
            × (get_operation_key ext op
                ≡ record { view = view; sequence = sequence; hash = request_hash ext request }))
          (find_operation ext view sequence request t)
  unfolding find_operation
  find_operation-Returns view sequence request t g =
      let key : OperationKey = record {
        view = view;
        sequence = sequence;
        hash = request_hash ext request;
      } in
      elim (Option-cases (lookup key t.operations)) [
        | inl e ↦
            rw (e, find_operation, Returns)
              (Returns-continue _ _ (current_peers t) _ (current_peers-Returns t g) λ ps u same.
                let op = new_operation view sequence request ps in
                let h =
                  store_operation-Returns op t g (new_operation-IsSound view sequence request ps) in
                rw same (h.0, h.2, key-new ext view sequence request ps))
        | inr (op, e) ↦
            let own =
              All-lookup (λ e. get_operation_key ext e.1 ≡ e.0) key op t.operations g.inv.keyed e in
            rw (e, find_operation, Returns) (g, rw own e, own)
      ]

  pub find_operation-Handled :
      (view sequence : ℕ) (request : PbftRequest) (t : Replica)
      → Good ext s t
      → Handled ext s
          (λ op u.
            Good ext s u
            × InTable ext op u
            × (get_operation_key ext op
                ≡ record { view = view; sequence = sequence; hash = request_hash ext request }))
          (find_operation ext view sequence request t)
  find_operation-Handled view sequence request t g =
      Returns-Handled ext s _ (find_operation ext view sequence request t)
        (find_operation-Returns view sequence request t g)

  -- The configurations may change as long as there is a current one.
  pub set_configurations-Good :
      (c : ConfigStore) (t : Replica)
      → Good ext s t
      → HasCurrent c
      → Good ext s (record t { configurations = c })
  unfolding marks
  set_configurations-Good c t g h = record {
    inv = record {
      keyed = g.inv.keyed;
      sound = g.inv.sound;
      accepted = g.inv.accepted;
      configured = h;
      proper = g.inv.proper;
    };
    evolves = record {
      same_view = g.evolves.same_view;
      same_uuid = g.evolves.same_uuid;
      same_marks = g.evolves.same_marks;
      still_accepted = g.evolves.still_accepted;
    };
  }

-- What is in the table is found.
pub find_operation_found :
    (ext : External) (op : Operation) (t : Replica)
    → InTable ext op t
    → find_operation ext op.view op.sequence op.request t ≡ done op t
unfolding find_operation get_operation_key
find_operation_found ext op t i = rw (i, find_operation)
