-- ===== src/Pbft/Replica/Watermarks/Start.antt =====
-- The water marks that the constructor of pbft/pbft.cpp sets.
use swarm_db.Base.{◌≡◌, some, List, [], ◌∷◌, String, arith}
use swarm_db.Base.Assoc.{lookup}
use swarm_db.Base.Sets.{contains}
use swarm_db.Pbft.Peers.{PeerAddress}
use swarm_db.Pbft.External.{External}
use swarm_db.Pbft.Replica.State.{Replica, checkpoint_eq}
use swarm_db.Pbft.Replica.Requests.{new_replica}
use swarm_db.Pbft.Replica.Invariant.{marks}
use swarm_db.Pbft.Replica.Watermarks.{IsMarked}

-- The marks of a new replica stand at its first stable checkpoint and 200 above it.
pub new_replica-IsMarked :
    (ext : External) (uuid : String) (ps : List PeerAddress) (s : Replica)
    → new_replica ext uuid ps ≡ some s
    → IsMarked (marks s)
unfolding new_replica lookup contains marks
new_replica-IsMarked ext uuid [] s h = ground arith
new_replica-IsMarked ext uuid (p ∷ ps) s h = record {
  low_is = ground (arith, h);
  high_is = ground (arith, h);
  local_fits = λ cp e. ground (arith, h, e);
  later = λ cp qs e l. ground (arith, h, e);
  once = λ cp qs e. ground (arith, h, e);
}
