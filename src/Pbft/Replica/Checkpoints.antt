-- ===== src/Pbft/Replica/Checkpoints.antt =====
-- pbft/pbft.cpp: local checkpoints, checkpoint messages, and what becomes of both when a checkpoint is
-- stable. The set and the map of checkpoints are ordered by sequence number and then by hash, so that
-- erasing up to an upper bound is erasing what is not above it.
use swarm_db.Base.{
  ℕ, ◌+◌, ◌*◌, ◌/◌, max, Bool, false, ◌&&◌, ◌||◌, Option, none, some, List, [], ◌∷◌, String, length,
  ltb, leb, add64, keep, if◌then◌else◌,
}
use swarm_db.Base.Equality.{◌==◌, nat_eq, string_eq}
use swarm_db.Base.TextOrder.{text_lt}
use swarm_db.Base.Assoc.{Assoc, lookup, put, keep_keys}
use swarm_db.Base.Sets.{contains}
use swarm_db.Proto.{PbftMsg, PbftMsgType, Envelope, default_request}
use swarm_db.Pbft.Peers.{PeerAddress}
use swarm_db.Pbft.External.{External}
use swarm_db.Pbft.Operation.{Operation, OperationKey}
use swarm_db.Pbft.Replica.State.{
  Replica, Checkpoint, checkpoint_eq, dangling_checkpoint, done, throws, Action, continue,
  current_peers, broadcast_pbft,
}

abbrev pub checkpoint_interval : ℕ
checkpoint_interval = 100

-- lround(HIGH_WATER_INTERVAL_IN_CHECKPOINTS * CHECKPOINT_INTERVAL)
abbrev pub high_water_interval : ℕ
high_water_interval = 200

unfoldable pub checkpoint_lt : Checkpoint → Checkpoint → Bool
checkpoint_lt a b = ltb a.sequence b.sequence || (a.sequence == b.sequence && text_lt a.hash b.hash)

-- set::emplace
unfoldable pub insert_checkpoint : Checkpoint → List Checkpoint → List Checkpoint
unfolding checkpoint_lt
insert_checkpoint cp [] = cp ∷ []
insert_checkpoint cp (x ∷ xs) =
    let rest = insert_checkpoint cp xs in
    if checkpoint_lt cp x then cp ∷ x ∷ xs else if x == cp then x ∷ xs else x ∷ rest

-- Above checkpoint_t(cp.first + 1, "")
unfoldable pub is_newer : Checkpoint → Checkpoint → Bool
unfolding checkpoint_lt
is_newer cp x = checkpoint_lt (record { sequence = add64 cp.sequence 1; hash = "" }) x

unfoldable pub clear_local_checkpoints_until : Checkpoint → Replica → Replica
unfolding is_newer
clear_local_checkpoints_until cp s = record s {
  local_unstable_checkpoints = keep (is_newer cp) s.local_unstable_checkpoints;
}

unfoldable pub clear_checkpoint_messages_until : Checkpoint → Replica → Replica
unfolding is_newer
clear_checkpoint_messages_until cp s = record s {
  unstable_checkpoint_proofs = keep_keys (is_newer cp) s.unstable_checkpoint_proofs;
}

-- The operations whose own sequence number is above the checkpoint's.
unfoldable pub operations_after : ℕ → Assoc OperationKey Operation → Assoc OperationKey Operation
operations_after sequence [] = []
operations_after sequence ((k, op) ∷ ops) =
    let rest = operations_after sequence ops in
    if leb op.sequence sequence then rest else (k, op) ∷ rest

unfoldable pub clear_operations_until : Checkpoint → Replica → Replica
unfolding operations_after
clear_operations_until cp s = record s { operations = operations_after cp.sequence s.operations }

abbrev pub max_faulty_nodes : List PeerAddress → ℕ
max_faulty_nodes peers = length peers / 3

abbrev pub quorum_size : List PeerAddress → ℕ
quorum_size peers = 1 + 2 * max_faulty_nodes peers

-- unstable_checkpoint_proofs[cp]
abbrev pub or_no_proofs : Option (Assoc String String) → Assoc String String
or_no_proofs none = []
or_no_proofs (some m) = m

unfoldable pub proofs_of : Checkpoint → Replica → Assoc String String
proofs_of cp s = or_no_proofs (lookup cp s.unstable_checkpoint_proofs)

-- Reading by [] makes a missing entry.
unfoldable pub touch_proofs : Checkpoint → Replica → Replica
unfolding proofs_of
touch_proofs cp s = record s {
  unstable_checkpoint_proofs = put cp (proofs_of cp s) s.unstable_checkpoint_proofs;
}

unfoldable pub raise_watermarks : Checkpoint → Replica → Replica
raise_watermarks cp s = record s {
  low_water_mark = max s.low_water_mark cp.sequence;
  high_water_mark = max s.high_water_mark (add64 cp.sequence high_water_interval);
}

unfoldable pub stabilize : Checkpoint → Replica → Replica
unfolding clear_local_checkpoints_until clear_checkpoint_messages_until clear_operations_until
    raise_watermarks
stabilize cp s = raise_watermarks cp (
    clear_operations_until cp (
      clear_checkpoint_messages_until cp (
        clear_local_checkpoints_until cp
          (record s { stable_checkpoint = cp; stable_checkpoint_proof = proofs_of cp s }))))

unfoldable pub maybe_stabilize_checkpoint : Checkpoint → Action (Unit {0})
unfolding contains proofs_of touch_proofs stabilize
maybe_stabilize_checkpoint cp s =
    if contains cp s.local_unstable_checkpoints
    then continue (current_peers (touch_proofs cp s)) (λ peers s'.
      if ltb (length (proofs_of cp s')) (quorum_size peers)
      then done tt s'
      else done tt (stabilize cp s'))
    else done tt s

abbrev pub checkpoint_message : Replica → Checkpoint → PbftMsg
checkpoint_message s cp = record {
  type = PbftMsgType.checkpoint;
  view = s.view;
  sequence = cp.sequence;
  has_request = false;
  request = default_request;
  state_hash = cp.hash;
}

module _ (ext : External) where
  unfoldable pub handle_checkpoint : PbftMsg → Envelope → Action (Unit {0})
  unfolding maybe_stabilize_checkpoint
  handle_checkpoint msg original_msg s =
      let cp : Checkpoint = record { sequence = msg.sequence; hash = msg.state_hash } in
      let proofs = put original_msg.sender (ext.serialize_envelope original_msg) (proofs_of cp s) in
      if leb msg.sequence s.stable_checkpoint.sequence
      then done tt s
      else maybe_stabilize_checkpoint cp
          (record s { unstable_checkpoint_proofs = put cp proofs s.unstable_checkpoint_proofs })

  -- `maybe_stabilize_checkpoint` with a reference to the element of the set of local checkpoints: to make the
  -- checkpoint stable erases that element, and the reference is read after it.
  abbrev pub maybe_stabilize_local : Checkpoint → Action (Unit {0})
  maybe_stabilize_local cp s =
      if contains cp s.local_unstable_checkpoints
      then continue (current_peers (touch_proofs cp s)) (λ peers s'.
        if ltb (length (proofs_of cp s')) (quorum_size peers)
        then done tt s'
        else throws dangling_checkpoint s')
      else done tt s

  unfoldable pub checkpoint_reached_locally : ℕ → Action (Unit {0})
  unfolding insert_checkpoint broadcast_pbft contains touch_proofs proofs_of
  checkpoint_reached_locally sequence s =
      let cp : Checkpoint = record {
        sequence = sequence;
        hash = ext.service_state_hash sequence;
      } in
      let local = record s {
        local_unstable_checkpoints = insert_checkpoint cp s.local_unstable_checkpoints;
      } in
      continue (broadcast_pbft ext (checkpoint_message local cp) local)
        (λ _. maybe_stabilize_local cp)

abbrev pub latest_stable_checkpoint : Replica → Checkpoint
latest_stable_checkpoint s = s.stable_checkpoint

-- *rbegin of the set
unfoldable pub last_or : Checkpoint → List Checkpoint → Checkpoint
last_or cp [] = cp
last_or cp (x ∷ xs) = last_or x xs

unfoldable pub latest_checkpoint : Replica → Checkpoint
unfolding last_or
latest_checkpoint s = last_or s.stable_checkpoint s.local_unstable_checkpoints
