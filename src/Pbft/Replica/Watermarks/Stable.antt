-- ===== src/Pbft/Replica/Watermarks/Stable.antt =====
-- When a checkpoint of pbft/pbft.cpp becomes stable, and what is then left.
use swarm_db.Base.{
  ◌<◌, ◌≤◌, ◌≡◌, ◌⊎◌, ◌≢◌, inl, inr, refl, ◌∙◌, true, none, some, String, length, arith, ltb, leb,
  add64, if◌then◌else◌, Option-cases,
}
use swarm_db.Base.Equality.{==_iff, string_eq, nat_eq}
use swarm_db.Base.Assoc.{Assoc, lookup, lookup-put, lookup-keep_keys}
use swarm_db.Base.Sets.{Distinct, contains}
use swarm_db.Pbft.External.{External}
use swarm_db.Pbft.Operation.{OperationKey}
use swarm_db.Pbft.Configuration.{Configuration}
use swarm_db.Pbft.ConfigStore.{current}
use swarm_db.Pbft.ConfigStore.Current.{HasCurrent}
use swarm_db.Pbft.Replica.State.{
  Replica, Checkpoint, done, checkpoint_eq, operation_key_eq, log_key_eq, current_peers,
}
use swarm_db.Pbft.Replica.Checkpoints.{
  is_newer, quorum_size, proofs_of, touch_proofs, clear_local_checkpoints_until,
  clear_checkpoint_messages_until, clear_operations_until, raise_watermarks, stabilize,
  maybe_stabilize_checkpoint,
}
use swarm_db.Pbft.Replica.Invariant.{Returns, Returns-if, marks, Inv}
use swarm_db.Pbft.Replica.Watermarks.{senders, IsMarked}
use swarm_db.Pbft.Replica.Watermarks.Sets.{
  contains-keep, is_newer_sound, lookup-operations_after, operations_after-keyed,
}

-- Reading the proofs of a checkpoint may make an empty entry.
touch_proofs-IsMarked :
    (cp : Checkpoint) (s : Replica) → IsMarked (marks s) → IsMarked (marks (touch_proofs cp s))
unfolding marks touch_proofs proofs_of senders
touch_proofs-IsMarked cp s v = record {
  low_is = v.low_is;
  high_is = v.high_is;
  local_fits = v.local_fits;
  later = λ k ps e l. ground (
    arith,
    lookup-put cp k (proofs_of cp s) s.unstable_checkpoint_proofs,
    v.later k ps,
    e,
    ==_iff cp k,
  );
  once = λ k ps e. ground (
    arith,
    lookup-put cp k (proofs_of cp s) s.unstable_checkpoint_proofs,
    v.once k ps,
    e,
    ==_iff cp k,
  );
}

-- With a proof at all, the checkpoint is later than the stable one, and nobody sent two of the proofs.
proofs_of_lem :
    (cp : Checkpoint) (s : Replica)
    → IsMarked (marks s)
    → 0 < length (proofs_of cp s)
    → (s.stable_checkpoint.sequence < cp.sequence) × Distinct (senders (proofs_of cp s))
unfolding marks proofs_of
proofs_of_lem cp s v h = elim (Option-cases (lookup cp s.unstable_checkpoint_proofs)) [
  | inl e ↦ ground (arith, e)
  | inr (ps, e) ↦ ground (arith, e, v.later cp ps e, v.once cp ps e)
]

stabilize-IsMarked :
    (cp : Checkpoint) (s : Replica)
    → IsMarked (marks s)
    → contains cp s.local_unstable_checkpoints ≡ true
    → 0 < length (proofs_of cp s)
    → IsMarked (marks (stabilize cp s))
unfolding marks stabilize clear_local_checkpoints_until clear_checkpoint_messages_until
    clear_operations_until raise_watermarks add64
stabilize-IsMarked cp s v c h = record {
  low_is = ground (arith, v.low_is, proofs_of_lem cp s v h);
  high_is = ground (arith, v.high_is, v.local_fits cp c, proofs_of_lem cp s v h);
  local_fits = λ k e. v.local_fits k (contains-keep (is_newer cp) k s.local_unstable_checkpoints e);
  later = λ k ps e l. ground (
    arith,
    lookup-keep_keys (is_newer cp) k s.unstable_checkpoint_proofs,
    e,
    is_newer_sound cp k,
    v.local_fits cp c,
  );
  once = λ k ps e.
      ground (arith, lookup-keep_keys (is_newer cp) k s.unstable_checkpoint_proofs, e, v.once k ps);
}

module _ (ext : External) where
  stabilize-Inv : (cp : Checkpoint) (s : Replica) → Inv ext s → Inv ext (stabilize cp s)
  unfolding stabilize clear_local_checkpoints_until clear_checkpoint_messages_until
      clear_operations_until raise_watermarks
  stabilize-Inv cp s i = record {
    keyed = operations_after-keyed ext cp.sequence s.operations i.keyed;
    sound = λ key op e. ground (
      arith,
      lookup-operations_after ext cp.sequence key s.operations i.keyed,
      e,
      i.sound key op,
    );
    accepted = i.accepted;
    configured = i.configured;
    proper = i.proper;
  }

-- The checkpoint was reached here and a quorum of the current peers, each counted once, has proved it by `ps`; it
-- is later than the one that was stable; the operations up to it are gone and no other.
pub record Stabilized (cp : Checkpoint) (ps : Assoc String String) (s t : Replica) : Type 0 where
  pub is_stable : t.stable_checkpoint ≡ cp
  pub is_later : s.stable_checkpoint.sequence < cp.sequence
  pub reached : contains cp s.local_unstable_checkpoints ≡ true
  pub proofs : t.stable_checkpoint_proof ≡ ps
  pub once : Distinct (senders t.stable_checkpoint_proof)
  pub config : Configuration
  pub is_current : current s.configurations ≡ some config
  pub quorum : quorum_size config.sorted_peers ≤ length t.stable_checkpoint_proof
  pub cleared :
      (key : OperationKey)
      → lookup key t.operations
        ≡ (if leb key.sequence cp.sequence then none else lookup key s.operations)

-- Nothing but an empty entry of proofs.
pub record Unstabilized (s t : Replica) : Type 0 where
  pub same_stable : t.stable_checkpoint ≡ s.stable_checkpoint
  pub same_proof : t.stable_checkpoint_proof ≡ s.stable_checkpoint_proof
  pub same_local : t.local_unstable_checkpoints ≡ s.local_unstable_checkpoints
  pub same_operations : t.operations ≡ s.operations

stabilize-Stabilized :
    (ext : External) (cp : Checkpoint) (s : Replica) (c : Configuration)
    → IsMarked (marks s)
    → Inv ext s
    → contains cp s.local_unstable_checkpoints ≡ true
    → current s.configurations ≡ some c
    → quorum_size c.sorted_peers ≤ length (proofs_of cp s)
    → Stabilized cp (proofs_of cp s) s (stabilize cp s)
unfolding stabilize clear_local_checkpoints_until clear_checkpoint_messages_until
    clear_operations_until raise_watermarks
stabilize-Stabilized ext cp s c v i r e q = record {
  is_stable = refl;
  is_later = ground (arith, proofs_of_lem cp s v, q);
  reached = r;
  proofs = refl;
  once = ground (arith, proofs_of_lem cp s v, q);
  config = c;
  is_current = e;
  quorum = q;
  cleared = λ key. lookup-operations_after ext cp.sequence key s.operations i.keyed;
}

-- Reading by [] leaves the proofs that it reads.
proofs_of-touch_proofs :
    (cp : Checkpoint) (s : Replica) → proofs_of cp (touch_proofs cp s) ≡ proofs_of cp s
unfolding proofs_of touch_proofs
proofs_of-touch_proofs cp s =
    ground (arith, lookup-put cp cp (proofs_of cp s) s.unstable_checkpoint_proofs, ==_iff cp cp)

touch_proofs-Inv :
    (ext : External) (cp : Checkpoint) (s : Replica) → Inv ext s → Inv ext (touch_proofs cp s)
unfolding touch_proofs
touch_proofs-Inv ext cp s i = record {
  keyed = i.keyed;
  sound = i.sound;
  accepted = i.accepted;
  configured = i.configured;
  proper = i.proper;
}

abbrev pub Checked : External → Checkpoint → Replica → Unit {0} → Replica → Type 0
Checked ext cp s r t =
    IsMarked (marks t) × Inv ext t × (Unstabilized s t ⊎ Stabilized cp (proofs_of cp s) s t)

-- On the state in which the entry of proofs has been made.
check_touched :
    (ext : External) (cp : Checkpoint) (s : Replica) (c : Configuration)
    → IsMarked (marks s)
    → Inv ext s
    → contains cp s.local_unstable_checkpoints ≡ true
    → current s.configurations ≡ some c
    → Returns (Checked ext cp s) (
        if ltb (length (proofs_of cp (touch_proofs cp s))) (quorum_size c.sorted_peers)
        then done tt (touch_proofs cp s)
        else done tt (stabilize cp (touch_proofs cp s)))
unfolding touch_proofs
check_touched ext cp s c v i r e =
    let u = touch_proofs cp s in
    let w = touch_proofs-IsMarked cp s v in
    let j = touch_proofs-Inv ext cp s i in
    Returns-if (Checked ext cp s) (ltb (length (proofs_of cp u)) (quorum_size c.sorted_peers)) _ _
      (λ _. (
        w,
        j,
        inl (record {
          same_stable = refl;
          same_proof = refl;
          same_local = refl;
          same_operations = refl;
        }),
      ))
      (λ enough.
        let q : quorum_size c.sorted_peers ≤ length (proofs_of cp u) = ground (arith, enough) in
        let z = stabilize-Stabilized ext cp u c w j r e q in
        (
          stabilize-IsMarked cp u w r (ground (arith, q)),
          stabilize-Inv ext cp u j,
          inr (record {
            is_stable = z.is_stable;
            is_later = z.is_later;
            reached = z.reached;
            proofs = z.proofs ∙ proofs_of-touch_proofs cp s;
            once = z.once;
            config = z.config;
            is_current = z.is_current;
            quorum = z.quorum;
            cleared = z.cleared;
          }),
        ))

current_peers-touch_proofs :
    (cp : Checkpoint) (s : Replica) (c : Configuration)
    → current s.configurations ≡ some c
    → current_peers (touch_proofs cp s) ≡ done c.sorted_peers (touch_proofs cp s)
unfolding current_peers touch_proofs
current_peers-touch_proofs cp s c e = rw (e, current_peers) refl

configured_lem : (s : Replica) → HasCurrent s.configurations → current s.configurations ≢ none
configured_lem s h e = ground (arith, e, h)

-- In a replica with both invariants, looking whether a checkpoint has become stable throws nothing and leaves
-- them true; either
-- no checkpoint has become stable and the operations are what they were, or this one has, with its proofs.
pub maybe_stabilize_checkpoint-Checked :
    (ext : External) (cp : Checkpoint) (s : Replica)
    → IsMarked (marks s)
    → Inv ext s
    → Returns (Checked ext cp s) (maybe_stabilize_checkpoint cp s)
unfolding maybe_stabilize_checkpoint
maybe_stabilize_checkpoint-Checked ext cp s v i =
    Returns-if (Checked ext cp s) (contains cp s.local_unstable_checkpoints) _ _
      (λ r. elim (Option-cases (current s.configurations)) [
        | inl e ↦ absurd (configured_lem s i.configured e)
        | inr (c, e) ↦ rw (current_peers-touch_proofs cp s c e) (check_touched ext cp s c v i r e)
      ])
      (λ _. (
        v,
        i,
        inl (record {
          same_stable = refl;
          same_proof = refl;
          same_local = refl;
          same_operations = refl;
        }),
      ))
