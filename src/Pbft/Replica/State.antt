-- ===== src/Pbft/Replica/State.antt =====
-- The state of pbft/pbft.hpp, and the methods of the replica as actions: an action changes the state and
-- returns a value, or throws. What a replica sends, posts to its service or reports to its failure
-- detector is kept in order in `outputs`.
use swarm_db.Base.{
  ℕ, ◌≡◌, ◌↔◌, arith, Bool, true, ◌++◌, Option, none, some, List, [], ◌∷◌, String, ◌&&◌,
  if◌then◌else◌, length, ◌%◌, get_elem?,
}
use swarm_db.Base.Equality.{Eq, ◌==◌, ==_iff, string_eq, nat_eq}
use swarm_db.Base.Assoc.{Assoc, put}
use swarm_db.Proto.{PbftMsg, PbftRequest, AuditMessage, DatabaseResponse}
use swarm_db.Pbft.Peers.{PeerAddress}
use swarm_db.Pbft.External.{External}
use swarm_db.Pbft.Operation.{Operation, OperationKey, get_operation_key}
use swarm_db.Pbft.ConfigStore.{ConfigStore, current}

-- log_key_t
pub record LogKey : Type 0 where
  pub view : ℕ
  pub sequence : ℕ

-- checkpoint_t
pub record Checkpoint : Type 0 where
  pub sequence : ℕ
  pub hash : String

-- wrap_message: an envelope with the sender, or the JSON of an audit message
pub data WireMessage : Type 0 where
  from_sender : String → PbftMsg → WireMessage
  audit : AuditMessage → WireMessage

pub data Output : Type 0 where
  send : PeerAddress → WireMessage → Output
  forward : PeerAddress → String → Output
  respond : ℕ → DatabaseResponse → Bool → Output
  request_seen : PbftRequest → Output
  apply_operation : Operation → Output

pub record Replica : Type 0 where
  pub view : ℕ
  pub next_issued_sequence_number : ℕ
  pub low_water_mark : ℕ
  pub high_water_mark : ℕ
  pub uuid : String
  pub operations : Assoc OperationKey Operation
  pub accepted_preprepares : Assoc LogKey OperationKey
  pub audit_enabled : Bool
  pub stable_checkpoint : Checkpoint
  pub stable_checkpoint_proof : Assoc String String
  pub local_unstable_checkpoints : List Checkpoint
  pub unstable_checkpoint_proofs : Assoc Checkpoint (Assoc String String)
  pub configurations : ConfigStore
  pub outputs : List Output

-- What the code throws; `no_peers` stands for the division by zero of `get_primary` without peers, and
-- `dangling_checkpoint` for what is not defined at all, a read of an erased element.
pub data Fault : Type 0 where
  no_current_configuration no_peers illegal_commit_phase illegal_end_phase : Fault
  unsupported_message_type no_peers_found invalid_host wrong_json_type dangling_checkpoint : Fault

pub data Outcome {ℓ} (A : Type ℓ) : Type ℓ where
  done : A → Replica → Outcome A
  throws : Fault → Replica → Outcome A

abbrev pub Action {ℓ} : Type ℓ → Type ℓ
Action A = Replica → Outcome A

abbrev pub continue {ℓ κ} : {A : Type ℓ} {B : Type κ} → Outcome A → (A → Action B) → Outcome B
continue (done a s) f = f a s
continue (throws e s) f = throws e s

infixl 5 ◌>>=◌ ◌>>◌
abbrev pub ◌>>=◌ {ℓ κ} : {A : Type ℓ} {B : Type κ} → Action A → (A → Action B) → Action B
◌>>=◌ m f s = continue (m s) f

abbrev pub ◌>>◌ {ℓ} : {B : Type ℓ} → Action (Unit {0}) → Action B → Action B
m >> k = m >>= λ _. k

abbrev pub pure {ℓ} : {A : Type ℓ} → A → Action A
pure a s = done a s

abbrev pub raise {ℓ} : {A : Type ℓ} → Fault → Action A
raise e s = throws e s

abbrev pub final {ℓ} : {A : Type ℓ} → Outcome A → Replica
final (done a s) = s
final (throws e s) = s

abbrev same_log_key : LogKey → LogKey → Bool
same_log_key a b = a.view == b.view && a.sequence == b.sequence

pub same_log_key_iff : (a b : LogKey) → (same_log_key a b ≡ true) ↔ (a ≡ b)
same_log_key_iff a b = ground arith

instance abbrev pub log_key_eq : Eq LogKey
log_key_eq = record { equal = same_log_key; equal_iff = same_log_key_iff }

abbrev same_operation_key : OperationKey → OperationKey → Bool
same_operation_key a b = a.view == b.view && a.sequence == b.sequence && a.hash == b.hash

pub same_operation_key_iff : (a b : OperationKey) → (same_operation_key a b ≡ true) ↔ (a ≡ b)
same_operation_key_iff a b = ground (arith, ==_iff a.hash b.hash)

instance abbrev pub operation_key_eq : Eq OperationKey
operation_key_eq = record { equal = same_operation_key; equal_iff = same_operation_key_iff }

abbrev same_checkpoint : Checkpoint → Checkpoint → Bool
same_checkpoint a b = a.sequence == b.sequence && a.hash == b.hash

pub same_checkpoint_iff : (a b : Checkpoint) → (same_checkpoint a b ≡ true) ↔ (a ≡ b)
same_checkpoint_iff a b = ground (arith, ==_iff a.hash b.hash)

instance abbrev pub checkpoint_eq : Eq Checkpoint
checkpoint_eq = record { equal = same_checkpoint; equal_iff = same_checkpoint_iff }

-- current_peers
unfoldable pub current_peers : Action (List PeerAddress)
current_peers s = elim (current s.configurations) [
  | none ↦ throws no_current_configuration s
  | some c ↦ done c.sorted_peers s
]

unfoldable pub emit : List Output → Action (Unit {0})
emit outs s = done tt (record s { outputs = s.outputs ++ outs })

module _ (ext : External) where
  -- The endpoint is the peer's; the conversion of its host may throw.
  unfoldable pub make_endpoint : PeerAddress → Action PeerAddress
  make_endpoint p s = if ext.is_ipv4 p.host then done p s else throws invalid_host s

  -- The loop of `broadcast`: a host that is no address ends it.
  unfoldable pub send_all : WireMessage → List PeerAddress → Action (Unit {0})
  unfolding make_endpoint
  send_all msg [] s = done tt s
  send_all msg (p ∷ ps) s =
      continue (make_endpoint p s)
        (λ e t. send_all msg ps (record t { outputs = t.outputs ++ send e msg ∷ [] }))

  -- One message to each current peer.
  unfoldable pub broadcast : WireMessage → Action (Unit {0})
  unfolding current_peers send_all
  broadcast msg = do peers ← current_peers; send_all msg peers

  unfoldable pub broadcast_pbft : PbftMsg → Action (Unit {0})
  unfolding broadcast
  broadcast_pbft msg s = broadcast (from_sender s.uuid msg) s

-- The division by the number of peers is a fault where there are none.
unfoldable pub primary_of : ℕ → List PeerAddress → Option PeerAddress
primary_of view [] = none
primary_of view (p ∷ ps) = get_elem? (p ∷ ps) (view % length (p ∷ ps))

unfoldable pub get_primary : Action PeerAddress
unfolding current_peers primary_of
get_primary s = elim (current s.configurations) [
  | none ↦ throws no_current_configuration s
  | some c ↦ elim (primary_of s.view c.sorted_peers) [
    | none ↦ throws no_peers s
    | some p ↦ done p s
  ]
]

unfoldable pub is_primary : Action Bool
unfolding get_primary
is_primary s = continue (get_primary s) (λ p s'. done (p.uuid == s'.uuid) s')

module _ (ext : External) where
  -- `operations[op->get_operation_key()]` after a write through the shared pointer
  unfoldable pub store_operation : Operation → Action Operation
  store_operation op s =
      done op (record s { operations = put (get_operation_key ext op) op s.operations })
