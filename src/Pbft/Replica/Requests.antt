-- ===== src/Pbft/Replica/Requests.antt =====
-- pbft/pbft.cpp: requests of clients, changes of the membership, the audit timer, and the constructor. The source
-- runs these without its lock; here each is one step.
use swarm_db.Base.{
  ℕ, ◌+◌, Bool, true, false, ◌&&◌, Option, none, some, List, [], ◌∷◌, String, add64, if◌then◌else◌,
}
use swarm_db.Base.Equality.{nat_eq, string_eq}
use swarm_db.Proto.{
  PbftRequest, RequestType, config, operation, MembershipType, PeerInfo, DatabaseMsg,
  DatabaseHeader, response_not_set, error_response, primary_status, failure_detected,
}
use swarm_db.Pbft.Peers.{PeerAddress, to_peer_address}
use swarm_db.Pbft.External.{External}
use swarm_db.Pbft.Operation.{Operation, set_session}
use swarm_db.Pbft.Configuration.{
  Configuration, new_configuration, get_hash, add_peer, remove_peer, to_string,
}
use swarm_db.Pbft.ConfigStore.{
  ConfigStore, empty, add, enable, set_current, remove_prior_to, is_enabled, current,
}
use swarm_db.Pbft.Replica.State.{
  Replica, Checkpoint, no_current_configuration, forward, respond, audit, done, throws, Action,
  continue, ◌>>=◌, ◌>>◌, pure, emit, make_endpoint, broadcast, get_primary, is_primary,
  store_operation,
}
use swarm_db.Pbft.Replica.Operations.{find_operation, do_preprepare}
use swarm_db.Pbft.Replica.Checkpoints.{high_water_interval}

-- next_issued_sequence_number++
unfoldable pub issue_sequence : Action ℕ
issue_sequence s =
    done s.next_issued_sequence_number
      (record s { next_issued_sequence_number = add64 s.next_issued_sequence_number 1 })

module _ (ext : External) where
  unfoldable pub attach_session : Operation → Option ℕ → Action Operation
  unfolding store_operation
  attach_session op none = pure op
  attach_session op (some session) = store_operation ext (set_session session op)

  unfoldable pub setup_request_operation : PbftRequest → Option ℕ → Action Operation
  unfolding issue_sequence find_operation attach_session
  setup_request_operation msg session s =
      (do
        request_seq ← issue_sequence
        op ← find_operation ext s.view request_seq msg
        attach_session op session)
        s

  -- `original_msg` is the text of the JSON message, which a backup forwards to the primary.
  unfoldable pub handle_request : PbftRequest → String → Option ℕ → Action (Unit {0})
  unfolding is_primary get_primary make_endpoint emit setup_request_operation do_preprepare
  handle_request msg original_msg session = do
    primary ← is_primary
    if primary
        then (do op ← setup_request_operation msg session; do_preprepare ext op)
        else do p ← get_primary; e ← make_endpoint ext p; emit (forward e original_msg ∷ [])

  abbrev pub config_request : Configuration → PbftRequest
  config_request c = record {
    type = RequestType.new_config;
    msg = config (to_string ext c);
    timestamp = 0;
    client = "";
  }

  unfoldable pub broadcast_new_configuration : Configuration → Action (Unit {0})
  unfolding setup_request_operation do_preprepare
  broadcast_new_configuration c = do
    op ← setup_request_operation (config_request c) none
    do_preprepare ext op

  -- The configuration that a request to join or leave asks for.
  unfoldable pub changed_configuration :
      MembershipType → PeerAddress → Configuration → Bool × Configuration
  changed_configuration MembershipType.join peer c = add_peer ext peer c
  changed_configuration MembershipType.leave peer c = remove_peer ext peer c
  changed_configuration MembershipType.undefined peer c = (true, c)

  unfoldable pub propose_configuration : MembershipType → PeerInfo → Action (Unit {0})
  unfolding changed_configuration broadcast_new_configuration
  propose_configuration type info s = elim (current s.configurations) [
    | none ↦ throws no_current_configuration s
    | some c ↦
        let (changed, c') = changed_configuration type (to_peer_address info) c in
        if changed
        then broadcast_new_configuration c'
            (record s { configurations = (add c' s.configurations).1 })
        else done tt s
  ]

  unfoldable pub handle_join_or_leave : MembershipType → Option PeerInfo → Action (Unit {0})
  unfolding is_primary propose_configuration
  handle_join_or_leave type peer_info = do
    primary ← is_primary
    if primary
        then elim peer_info [ none ↦ pure tt | some info ↦ propose_configuration type info ]
        else pure tt

  -- A membership message that was parsed.
  unfoldable pub handle_membership_message : MembershipType → Option PeerInfo → Action (Unit {0})
  unfolding handle_join_or_leave
  handle_membership_message type none = pure tt
  handle_membership_message MembershipType.join (some i) =
      handle_join_or_leave MembershipType.join (some i)
  handle_membership_message MembershipType.leave (some i) =
      handle_join_or_leave MembershipType.leave (some i)
  handle_membership_message MembershipType.undefined (some i) = pure tt

  abbrev pub database_request : DatabaseMsg → PbftRequest
  database_request msg = record {
    type = RequestType.undefined;
    msg = operation msg;
    timestamp = 0;
    client = "";
  }

  abbrev default_header : DatabaseHeader
  default_header = record { db_uuid = ""; transaction_id = 0 }

  -- `none` is a message without the field "msg", or one that does not decode.
  unfoldable pub handle_database_message : String → Option DatabaseMsg → ℕ → Action (Unit {0})
  unfolding handle_request emit
  handle_database_message json none session = emit (
      respond session (record { header = default_header; response = error_response "INVALID_CRUD" })
        true
      ∷ [])
  handle_database_message json (some msg) session = do
    handle_request (database_request msg) json (some session)
    emit (respond session (record { header = msg.header; response = response_not_set }) false ∷ [])

  -- Every initial peer that can be added is; the result says whether all could.
  unfoldable pub initial_configuration : List PeerAddress → Configuration → Bool × Configuration
  initial_configuration [] c = (true, c)
  initial_configuration (p ∷ ps) c =
      let (added, c') = add_peer ext p c in
      let (rest, c'') = initial_configuration ps c' in (added && rest, c'')

  unfoldable pub initialize_configuration : List PeerAddress → ConfigStore → ConfigStore
  unfolding initial_configuration
  initialize_configuration peers s =
      let c = (initial_configuration peers new_configuration).1 in
      let added = (add c s).1 in
      let enabled = (enable (get_hash c) true added).1 in (set_current (get_hash c) enabled).1

  abbrev pub initial_checkpoint : Checkpoint
  initial_checkpoint = record { sequence = 0; hash = "<null db state>" }

  -- The constructor; it throws without peers.
  unfoldable pub new_replica : String → List PeerAddress → Option Replica
  unfolding initialize_configuration
  new_replica uuid [] = none
  new_replica uuid (p ∷ ps) = some (record {
    view = 1;
    next_issued_sequence_number = 1;
    low_water_mark = 0;
    high_water_mark = 0 + high_water_interval;
    uuid = uuid;
    operations = [];
    accepted_preprepares = [];
    audit_enabled = true;
    stable_checkpoint = initial_checkpoint;
    stable_checkpoint_proof = [];
    local_unstable_checkpoints = [];
    unstable_checkpoint_proofs = [];
    configurations = initialize_configuration (p ∷ ps) empty;
    outputs = [];
  })

unfoldable pub is_configuration_acceptable_in_new_view : String → Replica → Bool
is_configuration_acceptable_in_new_view hash s = is_enabled hash s.configurations

unfoldable pub move_to_new_configuration : String → Replica → Bool × Replica
move_to_new_configuration hash s =
    if is_enabled hash s.configurations
    then (
      true,
      record s { configurations = (remove_prior_to hash (set_current hash s.configurations).1).1 },
    )
    else (false, s)

unfoldable pub notify_audit_failure_detected : External → Action (Unit {0})
unfolding broadcast
notify_audit_failure_detected ext s =
    if s.audit_enabled then broadcast ext (audit (failure_detected s.uuid)) s else done tt s

unfoldable pub handle_failure : External → Action (Unit {0})
unfolding notify_audit_failure_detected
handle_failure ext = notify_audit_failure_detected ext

-- `canceled` is the error code of the timer; the timer is armed again after each expiry.
unfoldable pub handle_audit_heartbeat_timeout : External → Bool → Action (Unit {0})
unfolding is_primary broadcast
handle_audit_heartbeat_timeout ext true s = done tt s
handle_audit_heartbeat_timeout ext false s = continue (is_primary s) (λ primary s'.
    if primary && s'.audit_enabled
    then broadcast ext (audit (primary_status s'.view s'.uuid)) s'
    else done tt s')

unfoldable pub set_audit_enabled : Bool → Replica → Replica
set_audit_enabled setting s = record s { audit_enabled = setting }
