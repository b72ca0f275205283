-- ===== src/Pbft/Replica/Watermarks/Messages.antt =====
-- The two handlers of pbft/pbft.cpp that may make a checkpoint stable: a checkpoint message that comes in,
-- and a checkpoint that the replica's own service has reached.
use swarm_db.Base.{◌<◌, ◌≡◌, ◌⊎◌, inl, inr, refl, ◌∙◌, String, arith, leb, Option-cases}
use swarm_db.Base.Equality.{==_iff, string_eq, nat_eq}
use swarm_db.Base.Assoc.{Assoc, lookup, put, lookup-put, lookup-put_self}
use swarm_db.Base.Sets.{Distinct}
use swarm_db.Proto.{PbftMsg, Envelope}
use swarm_db.Pbft.External.{External}
use swarm_db.Pbft.Replica.State.{Replica, Checkpoint, checkpoint_eq}
use swarm_db.Pbft.Replica.Checkpoints.{proofs_of, maybe_stabilize_checkpoint, handle_checkpoint}
use swarm_db.Pbft.Replica.Invariant.{Returns, Returns-map, Returns-if, marks, Inv}
use swarm_db.Pbft.Replica.Watermarks.{senders, IsMarked}
use swarm_db.Pbft.Replica.Watermarks.Sets.{put-Distinct}
use swarm_db.Pbft.Replica.Watermarks.Stable.{
  Stabilized, Unstabilized, Checked, maybe_stabilize_checkpoint-Checked,
}

-- The state in which a checkpoint has these proofs.
abbrev with_proofs : Checkpoint → Assoc String String → Replica → Replica
with_proofs cp ps s = record s {
  unstable_checkpoint_proofs = put cp ps s.unstable_checkpoint_proofs;
}

with_proofs-IsMarked :
    (cp : Checkpoint) (ps : Assoc String String) (s : Replica)
    → IsMarked (marks s)
    → s.stable_checkpoint.sequence < cp.sequence
    → Distinct (senders ps)
    → IsMarked (marks (with_proofs cp ps s))
unfolding marks
with_proofs-IsMarked cp ps s v l d = record {
  low_is = v.low_is;
  high_is = v.high_is;
  local_fits = v.local_fits;
  later = λ k qs e h.
      ground (
        arith,
        lookup-put cp k ps s.unstable_checkpoint_proofs,
        v.later k qs,
        e,
        h,
        l,
        ==_iff cp k,
      );
  once = λ k qs e.
      ground
        (arith, lookup-put cp k ps s.unstable_checkpoint_proofs, v.once k qs, e, d, ==_iff cp k);
}

with_proofs-Inv :
    (ext : External) (cp : Checkpoint) (ps : Assoc String String) (s : Replica)
    → Inv ext s
    → Inv ext (with_proofs cp ps s)
with_proofs-Inv ext cp ps s i = record {
  keyed = i.keyed;
  sound = i.sound;
  accepted = i.accepted;
  configured = i.configured;
  proper = i.proper;
}

proofs_of-Distinct :
    (cp : Checkpoint) (s : Replica) → IsMarked (marks s) → Distinct (senders (proofs_of cp s))
unfolding marks proofs_of senders
proofs_of-Distinct cp s v = elim (Option-cases (lookup cp s.unstable_checkpoint_proofs)) [
  | inl e ↦ rw (e, proofs_of, senders) tt
  | inr (ps, e) ↦ rw (e, proofs_of) (v.once cp ps e)
]

proofs_of-with_proofs :
    (cp : Checkpoint) (ps : Assoc String String) (s : Replica)
    → proofs_of cp (with_proofs cp ps s) ≡ ps
unfolding proofs_of
proofs_of-with_proofs cp ps s =
    rw (lookup-put_self cp ps s.unstable_checkpoint_proofs, proofs_of) refl

-- The proofs of a checkpoint message's checkpoint, with the message among them.
abbrev pub proofs_with : External → PbftMsg → Envelope → Replica → Assoc String String
proofs_with ext msg original_msg s =
    put original_msg.sender (ext.serialize_envelope original_msg)
      (proofs_of (record { sequence = msg.sequence; hash = msg.state_hash }) s)

-- In a replica with both invariants, a checkpoint message throws nothing and leaves them true; either no checkpoint becomes stable,
-- or its own does, which was reached here and which a quorum of distinct senders has then proved.
pub handle_checkpoint-Checked :
    (ext : External) (msg : PbftMsg) (original_msg : Envelope) (s : Replica)
    → IsMarked (marks s)
    → Inv ext s
    → Returns
        (λ r t.
          IsMarked (marks t)
          × Inv ext t
          × (Unstabilized s t
              ⊎ Stabilized
                  (record { sequence = msg.sequence; hash = msg.state_hash })
                  (proofs_with ext msg original_msg s)
                  s
                  t))
        (handle_checkpoint ext msg original_msg s)
unfolding handle_checkpoint
handle_checkpoint-Checked ext msg original_msg s v i =
    let cp : Checkpoint = record { sequence = msg.sequence; hash = msg.state_hash } in
    let ps = proofs_with ext msg original_msg s in
    let u = with_proofs cp ps s in
    let d =
      put-Distinct original_msg.sender (ext.serialize_envelope original_msg) (proofs_of cp s)
        (proofs_of-Distinct cp s v) in
    Returns-if (λ r t. IsMarked (marks t) × Inv ext t × (Unstabilized s t ⊎ Stabilized cp ps s t))
      (leb msg.sequence s.stable_checkpoint.sequence) _ _
      (λ _. (
        v,
        i,
        inl (record {
          same_stable = refl;
          same_proof = refl;
          same_local = refl;
          same_operations = refl;
        }),
      ))
      (λ late.
        Returns-map (Checked ext cp u) _ (maybe_stabilize_checkpoint cp u)
          (maybe_stabilize_checkpoint-Checked ext cp u
            (with_proofs-IsMarked cp ps s v (ground (arith, late)) d)
            (with_proofs-Inv ext cp ps s i))
          λ _ t w. (w.0, w.1, seen_before cp ps s t w.2))
  where
    seen_before :
        (cp : Checkpoint) (ps : Assoc String String) (s t : Replica)
        → Unstabilized (with_proofs cp ps s) t
          ⊎ Stabilized cp (proofs_of cp (with_proofs cp ps s)) (with_proofs cp ps s) t
        → Unstabilized s t ⊎ Stabilized cp ps s t
    seen_before cp ps s t (inl x) = inl (record {
      same_stable = x.same_stable;
      same_proof = x.same_proof;
      same_local = x.same_local;
      same_operations = x.same_operations;
    })
    seen_before cp ps s t (inr z) = inr (record {
      is_stable = z.is_stable;
      is_later = z.is_later;
      reached = z.reached;
      proofs = z.proofs ∙ proofs_of-with_proofs cp ps s;
      once = z.once;
      config = z.config;
      is_current = z.is_current;
      quorum = z.quorum;
      cleared = z.cleared;
    })
