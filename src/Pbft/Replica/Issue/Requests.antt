-- ===== src/Pbft/Replica/Issue/Requests.antt =====
-- `handle_request` of pbft/pbft.cpp on the primary and on a backup.
use swarm_db.Base.{
  ℕ, ◌≡◌, refl, subst, true, arith, ◌∙◌, Option, some, List, [], ◌∷◌, ◌++◌, String, map, add64,
  if◌then◌else◌, Bool-cases, inl, inr,
}
use mathlib.Core.List.{append-nil, append_assoc}
use swarm_db.Base.Equality.{◌==◌, string_eq}
use swarm_db.Proto.{PbftMsg, PbftMsgType, PbftRequest}
use swarm_db.Pbft.Peers.{PeerAddress}
use swarm_db.Pbft.External.{External}
use swarm_db.Pbft.Operation.{Operation, get_operation_key, request_hash}
use swarm_db.Pbft.Configuration.{Configuration}
use swarm_db.Pbft.ConfigStore.{current}
use swarm_db.Pbft.Replica.State.{
  Replica, send, forward, from_sender, done, ◌>>=◌, emit, WireMessage, make_endpoint, send_all,
  broadcast_pbft, get_primary, is_primary,
}
use swarm_db.Pbft.Replica.Operations.{do_preprepare, common_message_setup}
use swarm_db.Pbft.Replica.Requests.{setup_request_operation, handle_request}
use swarm_db.Pbft.Replica.Invariant.{
  Returns, Returns-continue, Handled, all_ipv4, Inv, Evolves, Good, KeepsTable,
}
use swarm_db.Pbft.Replica.Invariant.Parts.{broadcast_to, broadcast-Handled}
use swarm_db.Pbft.Replica.Issue.{Issued, setup_request_operation-Issued}

send_all_lem :
    (ext : External) (msg : WireMessage) (ps : List PeerAddress) (s : Replica)
    → all_ipv4 ext ps ≡ true
    → send_all ext msg ps s ≡ done tt (record s { outputs = s.outputs ++ map (λ p. send p msg) ps })
unfolding send_all make_endpoint
send_all_lem ext msg [] s h = rw (append-nil s.outputs) refl
send_all_lem ext msg (p ∷ ps) s h =
    let first : ext.is_ipv4 p.host ≡ true = ground (arith, h) in
    let next : Replica = record s { outputs = s.outputs ++ send p msg ∷ [] } in
    rw (first, send_all)
      (send_all_lem ext msg ps next (ground (arith, h))
        ∙ rw (append_assoc s.outputs (send p msg ∷ []) (map (λ q. send q msg) ps)) refl)

-- A broadcast is one message to each peer of the current configuration, in their order.
pub broadcast_pbft_lem :
    (ext : External) (msg : PbftMsg) (s : Replica) (c : Configuration)
    → current s.configurations ≡ some c
    → all_ipv4 ext c.sorted_peers ≡ true
    → broadcast_pbft ext msg s
      ≡ done tt (record s {
        outputs = s.outputs ++ map (λ p. send p (from_sender s.uuid msg)) c.sorted_peers;
      })
unfolding broadcast_pbft
broadcast_pbft_lem ext msg s c e h =
    broadcast_to ext (from_sender s.uuid msg) s c e
    ∙ send_all_lem ext (from_sender s.uuid msg) c.sorted_peers s h

-- An operation with the next sequence number was proposed to these peers, and nothing else was sent.
pub record Proposed (ext : External) (s : Replica) (request : PbftRequest) (ps : List PeerAddress)
    (t : Replica) : Type 0 where
  pub op : Operation
  pub own_key : get_operation_key ext op ≡ record {
    view = s.view;
    sequence = s.next_issued_sequence_number;
    hash = request_hash ext request;
  }
  pub numbered : t.next_issued_sequence_number ≡ add64 s.next_issued_sequence_number 1
  pub sent :
      t.outputs
      ≡ s.outputs
        ++ map
            (λ p. send p (from_sender s.uuid (common_message_setup ext op PbftMsgType.preprepare)))
            ps
  pub inv : Inv ext t
  pub evolves : Evolves s t

broadcast_pbft-Good :
    (ext : External) {s : Replica} (msg : PbftMsg) (u : Replica)
    → Good ext s u
    → Handled ext s (KeepsTable ext s u) (broadcast_pbft ext msg u)
unfolding broadcast_pbft
broadcast_pbft-Good ext msg u g = broadcast-Handled ext (from_sender u.uuid msg) u g

propose :
    (ext : External) (request : PbftRequest) (session : Option ℕ) (s : Replica) (c : Configuration)
    → Inv ext s
    → current s.configurations ≡ some c
    → all_ipv4 ext c.sorted_peers ≡ true
    → Returns
        (λ r t. Proposed ext s request c.sorted_peers t)
        ((setup_request_operation ext request session >>= λ op. do_preprepare ext op) s)
unfolding do_preprepare
propose ext request session s c i e hosts =
    Returns-continue (Issued ext s request) _ (setup_request_operation ext request session s) _
      (setup_request_operation-Issued ext request session s i)
      λ op u w.
        let msg = common_message_setup ext op PbftMsgType.preprepare in
        let sent = broadcast_pbft_lem ext msg u c (rw w.same_configurations e) hosts in
        let g =
          subst (Handled ext s (KeepsTable ext s u)) sent (broadcast_pbft-Good ext msg u w.good) in
        rw sent (record {
          op = op;
          own_key = w.own_key;
          numbered = w.numbered;
          sent = rw (w.same_outputs, w.same_uuid) refl;
          inv = g.0.inv;
          evolves = g.0.evolves;
        })

is_primary_lem :
    (s : Replica) (p : PeerAddress)
    → get_primary s ≡ done p s
    → is_primary s ≡ done (p.uuid == s.uuid) s
unfolding is_primary
is_primary_lem s p e = rw (e, is_primary) refl

-- In a replica with the invariant, a current configuration, a primary, and IPv4 addresses as their hosts, a
-- request throws nothing: the primary proposes it to all current peers under the next sequence number, and a backup
-- forwards it to the primary and changes nothing else.
pub handle_request-Answers :
    (ext : External) (request : PbftRequest) (json : String) (session : Option ℕ) (s : Replica)
    (p : PeerAddress) (c : Configuration)
    → Inv ext s
    → current s.configurations ≡ some c
    → get_primary s ≡ done p s
    → all_ipv4 ext (p ∷ c.sorted_peers) ≡ true
    → Returns
        (λ r t.
          if p.uuid == s.uuid
          then Proposed ext s request c.sorted_peers t
          else t ≡ record s { outputs = s.outputs ++ forward p json ∷ [] })
        (handle_request ext request json session s)
unfolding handle_request emit make_endpoint
handle_request-Answers ext request json session s p c i e known hosts =
    elim (Bool-cases (p.uuid == s.uuid)) [
      | inl own ↦
          rw (is_primary_lem s p known, own, handle_request)
            (propose ext request session s c i e (ground (arith, hosts)))
      | inr other ↦
          let host : ext.is_ipv4 p.host ≡ true = ground (arith, hosts) in
          rw (is_primary_lem s p known, other, handle_request, known, host) refl
    ]
