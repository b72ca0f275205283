-- ===== src/Pbft/Operation.antt =====
-- pbft/pbft_operation.hpp and pbft/pbft_operation.cpp: what a replica has recorded about one request at
-- one view and sequence number. A session is named by its number. `begin_commit_phase` and
-- `end_commit_phase` give `none` where the code throws.
pub mod Phases
pub mod Quorums
mod Tests
use swarm_db.Base.{
  ℕ, ◌+◌, ◌-◌, ◌*◌, ◌/◌, ◌%◌, Bool, true, false, ◌&&◌, not, Option, none, some, List, [], String,
  length, ltb, if◌then◌else◌, u64_mod,
}
use swarm_db.Base.Equality.{Eq, ◌==◌, ==_iff, string_eq, nat_eq}
use swarm_db.Base.Sets.{insert}
use swarm_db.Proto.{PbftRequest, Envelope}
use swarm_db.Pbft.Peers.{PeerAddress}
use swarm_db.Pbft.External.{External}

-- pbft_operation_state
pub data OperationState : Type 0 where
  prepare commit committed : OperationState

pub record Operation : Type 0 where
  pub view : ℕ
  pub sequence : ℕ
  pub request : PbftRequest
  pub peers : List PeerAddress
  pub state : OperationState
  pub preprepare_seen : Bool
  pub prepares_seen : List String
  pub commits_seen : List String
  pub listener_session : Option ℕ

-- operation_key_t
pub record OperationKey : Type 0 where
  pub view : ℕ
  pub sequence : ℕ
  pub hash : String

unfoldable pub new_operation : ℕ → ℕ → PbftRequest → List PeerAddress → Operation
new_operation view sequence request peers = record {
  view = view;
  sequence = sequence;
  request = request;
  peers = peers;
  state = prepare;
  preprepare_seen = false;
  prepares_seen = [];
  commits_seen = [];
  listener_session = none;
}

unfoldable pub record_preprepare : Operation → Operation
record_preprepare op = record op { preprepare_seen = true }

unfoldable pub record_prepare : Envelope → Operation → Operation
record_prepare msg op = record op { prepares_seen = insert msg.sender op.prepares_seen }

unfoldable pub record_commit : Envelope → Operation → Operation
record_commit msg op = record op { commits_seen = insert msg.sender op.commits_seen }

unfoldable pub set_session : ℕ → Operation → Operation
set_session session op = record op { listener_session = some session }

-- (peers->size() - 1) / 3 on size_t
unfoldable pub faulty_nodes_bound : Operation → ℕ
faulty_nodes_bound op = (length op.peers + u64_mod - 1) % u64_mod / 3

unfoldable pub is_prepared : Operation → Bool
is_prepared op = op.preprepare_seen && ltb (2 * faulty_nodes_bound op) (length op.prepares_seen)

unfoldable pub is_committed : Operation → Bool
is_committed op = is_prepared op && ltb (2 * faulty_nodes_bound op) (length op.commits_seen)

abbrev pub in_prepare : OperationState → Bool
in_prepare prepare = true
in_prepare _ = false

abbrev pub in_commit : OperationState → Bool
in_commit commit = true
in_commit _ = false

unfoldable pub begin_commit_phase : Operation → Option Operation
begin_commit_phase op =
    if is_prepared op && in_prepare op.state then some (record op { state = commit }) else none

unfoldable pub end_commit_phase : Operation → Option Operation
end_commit_phase op =
    if is_committed op && in_commit op.state then some (record op { state = committed }) else none

module _ (ext : External) where
  -- request_hash: not a hash yet, but the text form of the request
  unfoldable pub request_hash : PbftRequest → String
  request_hash r = ext.short_debug_string r

  unfoldable pub get_operation_key : Operation → OperationKey
  get_operation_key op = record {
    view = op.view;
    sequence = op.sequence;
    hash = request_hash op.request;
  }
