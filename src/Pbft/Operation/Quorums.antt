-- ===== src/Pbft/Operation/Quorums.antt =====
-- How far two quorums of the operations of pbft/pbft_operation.cpp overlap, if every sender counted is
-- one of the peers. The code does not look whether a sender is a peer, so that is a hypothesis here.
use swarm_db.Base.{
  ◌+◌, ◌*◌, ◌≤◌, ◌<◌, ◌≡◌, refl, true, List, [], ◌∷◌, String, length, u64_mod, arith,
}
use swarm_db.Base.Equality.{string_eq}
use swarm_db.Base.Sets.{Distinct, Subset, common, common_overlap}
use swarm_db.Pbft.Peers.{PeerAddress}
use swarm_db.Pbft.Operation.{Operation, faulty_nodes_bound, is_prepared}

-- The identities of the peers.
unfoldable pub uuids : List PeerAddress → List String
uuids [] = []
uuids (p ∷ ps) = p.uuid ∷ uuids ps

length-uuids : (ps : List PeerAddress) → length (uuids ps) ≡ length ps
unfolding uuids
length-uuids [] = refl
length-uuids (p ∷ ps) = omega (arith, length-uuids ps)

-- The bound is the number of faults that the peers bear.
pub faulty_nodes_bound_lem :
    (op : Operation)
    → 0 < length op.peers
    → length op.peers < u64_mod
    → (3 * faulty_nodes_bound op + 1 ≤ length op.peers)
      × (length op.peers ≤ 3 * faulty_nodes_bound op + 3)
unfolding faulty_nodes_bound
faulty_nodes_bound_lem op h k = (omega arith, omega arith)

-- Votes of peers, each counted once.
pub record IsVoteSet (op : Operation) (votes : List String) : Type 0 where
  pub once : Distinct votes
  pub by_peers : Subset votes (uuids op.peers)

-- Two operations of one set of 3 * f + 1 peers that are prepared on votes of peers, each counted once,
-- share more than f of the voters, where f is the bound on faulty nodes.
pub prepared_overlap :
    (p q : Operation)
    → q.peers ≡ p.peers
    → length p.peers ≡ 3 * faulty_nodes_bound p + 1
    → Distinct (uuids p.peers)
    → IsVoteSet p p.prepares_seen
    → IsVoteSet p q.prepares_seen
    → is_prepared p ≡ true
    → is_prepared q ≡ true
    → faulty_nodes_bound p < length (common p.prepares_seen q.prepares_seen)
unfolding is_prepared faulty_nodes_bound
prepared_overlap p q e n d vp vq hp hq =
    let overlap =
      common_overlap p.prepares_seen q.prepares_seen (uuids p.peers) vp.once vq.once d vp.by_peers
        vq.by_peers in
    ground (arith, overlap, length-uuids p.peers)
