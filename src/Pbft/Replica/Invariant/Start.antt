-- ===== src/Pbft/Replica/Invariant/Start.antt =====
-- The constructor of pbft/pbft.cpp establishes the invariant of the replica.
use swarm_db.Base.{◌≡◌, some, List, [], ◌∷◌, String, arith, add64, find_if}
use swarm_db.Base.Equality.{==_refl, string_eq}
use swarm_db.Base.Assoc.{lookup}
use swarm_db.Pbft.Peers.{PeerAddress}
use swarm_db.Pbft.External.{External}
use swarm_db.Pbft.Configuration.{new_configuration, get_hash}
use swarm_db.Pbft.ConfigStore.{
  empty, insert_entry, add, enable_first, enable, find_by_hash, set_current, current,
}
use swarm_db.Pbft.Replica.State.{Replica, log_key_eq, operation_key_eq}
use swarm_db.Pbft.Replica.Requests.{initialize_configuration, initial_configuration, new_replica}
use swarm_db.Pbft.Replica.Invariant.{Inv}

-- The configuration of the initial peers is the current one from the start.
pub initialize_configuration-current :
    (ext : External) (ps : List PeerAddress)
    → current (initialize_configuration ext ps empty)
      ≡ some (initial_configuration ext ps new_configuration).1
unfolding initialize_configuration insert_entry add enable_first enable find_by_hash set_current
    current find_if add64
initialize_configuration-current ext ps =
    ground (arith, ==_refl (get_hash (initial_configuration ext ps new_configuration).1))

-- A replica that is made from at least one peer keeps the invariant.
pub new_replica-Inv :
    (ext : External) (uuid : String) (ps : List PeerAddress) (s : Replica)
    → new_replica ext uuid ps ≡ some s
    → Inv ext s
unfolding new_replica lookup
new_replica-Inv ext uuid [] s h = ground arith
new_replica-Inv ext uuid (p ∷ ps) s h = record {
  keyed = ground (arith, h);
  sound = λ key op e. ground (arith, h, e);
  accepted = λ k key e. ground (arith, h, e);
  configured = ground (arith, h, initialize_configuration-current ext (p ∷ ps));
  proper = ground (arith, h);
}
