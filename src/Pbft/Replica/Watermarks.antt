-- ===== src/Pbft/Replica/Watermarks.antt =====
-- The window of sequence numbers of pbft/pbft.cpp: what its two water marks, its checkpoints and the proofs
-- of checkpoints have to do with each other.
pub mod Sets
pub mod Stable
pub mod Messages
pub mod Start
use swarm_db.Base.{ℕ, ◌+◌, ◌<◌, ◌≡◌, true, some, List, [], ◌∷◌, String, u64_mod, length}
use swarm_db.Base.Equality.{string_eq}
use swarm_db.Base.Assoc.{Assoc, lookup}
use swarm_db.Base.Sets.{Distinct, contains}
use swarm_db.Pbft.Replica.State.{Checkpoint, checkpoint_eq}
use swarm_db.Pbft.Replica.Checkpoints.{high_water_interval}
use swarm_db.Pbft.Replica.Invariant.{Marks}

-- Those who sent a proof.
unfoldable pub senders : Assoc String String → List String
senders [] = []
senders ((k, v) ∷ m) = k ∷ senders m

-- The low mark is the stable checkpoint's and the high mark 200 above it. Checkpoints that were reached
-- here leave room for that. What is proved of checkpoints is of later ones, by nobody twice.
pub record IsMarked (m : Marks) : Type 0 where
  pub low_is : m.low ≡ m.stable.sequence
  pub high_is : m.high ≡ m.stable.sequence + high_water_interval
  pub local_fits :
      (cp : Checkpoint) → contains cp m.local ≡ true → cp.sequence + high_water_interval < u64_mod
  pub later :
      (cp : Checkpoint) (ps : Assoc String String)
      → lookup cp m.proofs ≡ some ps
      → 0 < length ps
      → m.stable.sequence < cp.sequence
  pub once :
      (cp : Checkpoint) (ps : Assoc String String)
      → lookup cp m.proofs ≡ some ps
      → Distinct (senders ps)
