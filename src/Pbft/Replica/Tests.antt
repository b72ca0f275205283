-- ===== src/Pbft/Replica/Tests.antt =====
-- Runs of the replica of pbft/pbft.cpp among four peers, and its theorems at concrete states.
use swarm_db.Base.{
  ℕ, ◌+◌, ◌≡◌, ◌⊎◌, refl, true, false, Option, none, some, List, [], ◌∷◌, String, arith, find_if,
  add64, if◌then◌else◌,
}
use swarm_db.Base.Equality.{◌==◌, string_eq}
use swarm_db.Base.Assoc.{Assoc, lookup}
use swarm_db.Base.Sets.{Distinct, contains}
use swarm_db.Proto.{PbftMsg, PbftMsgType, PbftRequest, RequestType, body_not_set, Envelope}
use swarm_db.Pbft.Peers.{PeerAddress}
use swarm_db.Pbft.External.{External, rejected}
use swarm_db.Pbft.Configuration.{
  Configuration, new_configuration, conflicts, conflicting_peer_exists, valid_peer, has_address,
  insert_address, insert_sorted, sort_peers, to_string, create_hash, cache_sorted_peers,
  insert_peer, add_peer,
}
use swarm_db.Pbft.ConfigStore.{
  empty, insert_entry, add, enable_first, enable, find_by_hash, set_current, current, get,
  is_enabled,
}
use swarm_db.Pbft.ConfigStore.Laws.{IsValid}
use swarm_db.Pbft.Replica.Membership.{move_to_new_configuration_lem}
use swarm_db.Pbft.Replica.State.{
  Replica, Checkpoint, forward, get_primary, primary_of, done, checkpoint_eq,
}
use swarm_db.Pbft.Replica.Checkpoints.{handle_checkpoint, maybe_stabilize_checkpoint}
use swarm_db.Pbft.Replica.Messages.{handle_message}
use swarm_db.Pbft.Replica.Issue.{Issued, setup_request_operation-Issued}
use swarm_db.Pbft.Replica.Issue.Requests.{Proposed, handle_request-Answers}
use swarm_db.Pbft.Replica.Watermarks.{IsMarked, senders}
use swarm_db.Pbft.Replica.Watermarks.Stable.{
  Unstabilized, Stabilized, Checked, maybe_stabilize_checkpoint-Checked,
}
use swarm_db.Pbft.Replica.Watermarks.Messages.{proofs_with, handle_checkpoint-Checked}
use swarm_db.Pbft.Replica.Watermarks.Start.{new_replica-IsMarked}
use swarm_db.Base.TextOrder.{text_lt}
use swarm_db.Pbft.Replica.Requests.{
  new_replica, initialize_configuration, initial_configuration, setup_request_operation,
  handle_request, move_to_new_configuration,
}
use swarm_db.Pbft.Replica.Invariant.{Returns, all_ipv4, marks, Inv, Evolves}
use swarm_db.Pbft.Replica.Invariant.Ordering.{
  Holds, handle_message-Good, handle_messages, handle_messages-Good,
}
use swarm_db.Pbft.Replica.Invariant.Start.{new_replica-Inv, initialize_configuration-current}

abbrev ext : External
ext = record {
  short_debug_string = λ r. r.client;
  serialize_envelope = λ e. e.payload;
  parse_configuration = λ s. rejected;
  is_ipv4 = λ h. h == "127.0.0.1";
  styled_configuration = λ ps. "peers";
  hash_of_text = λ s. s;
  service_state_hash = λ n. "state";
}

abbrev peer : String → ℕ → PeerAddress
peer name port = record {
  host = "127.0.0.1";
  port = port;
  http_port = port + 1000;
  name = name;
  uuid = name;
}

abbrev peers : List PeerAddress
peers = peer "a" 1 ∷ peer "b" 2 ∷ peer "c" 3 ∷ peer "d" 4 ∷ []

abbrev or_else : Replica → Option Replica → Replica
or_else s none = s
or_else s (some t) = t

abbrev start : Replica
start = record {
  view = 1;
  next_issued_sequence_number = 1;
  low_water_mark = 0;
  high_water_mark = 200;
  uuid = "b";
  operations = [];
  accepted_preprepares = [];
  audit_enabled = true;
  stable_checkpoint = record { sequence = 0; hash = "<null db state>" };
  stable_checkpoint_proof = [];
  local_unstable_checkpoints = [];
  unstable_checkpoint_proofs = [];
  configurations = initialize_configuration ext peers empty;
  outputs = [];
}

start_made : new_replica ext "b" peers ≡ some start
unfolding new_replica
start_made = refl

start-Inv : Inv ext start
start-Inv = new_replica-Inv ext "b" peers start start_made

abbrev request : PbftRequest
request = record { type = RequestType.undefined; msg = body_not_set; timestamp = 0; client = "req" }

abbrev message : PbftMsgType → PbftMsg
message type = record {
  type = type;
  view = 1;
  sequence = 1;
  has_request = true;
  request = request;
  state_hash = "";
}

abbrev from : String → Envelope
from sender = record { sender = sender; payload = "" }

-- A whole round: the preprepare, and three votes in each phase.
abbrev round : List (PbftMsg × Envelope)
round =
    (message PbftMsgType.preprepare, from "b")
    ∷ (message PbftMsgType.prepare, from "a")
    ∷ (message PbftMsgType.prepare, from "b")
    ∷ (message PbftMsgType.prepare, from "c")
    ∷ (message PbftMsgType.commit, from "a")
    ∷ (message PbftMsgType.commit, from "b")
    ∷ (message PbftMsgType.commit, from "c")
    ∷ []

handle_message-Good_example :
    Holds ext
      (λ t. Inv ext t × Evolves start t)
      (handle_message ext (message PbftMsgType.preprepare) (from "b") start)
handle_message-Good_example =
    handle_message-Good ext (message PbftMsgType.preprepare) (from "b") start refl start-Inv

handle_messages-Good_example :
    Holds ext (λ t. Inv ext t × Evolves start t) (handle_messages ext round start)
handle_messages-Good_example =
    handle_messages-Good ext round start (refl, (refl, (refl, (refl, (refl, (refl, (refl, tt)))))))
      start-Inv

new_replica-Inv_example : Inv ext start
new_replica-Inv_example = new_replica-Inv ext "b" peers start start_made

new_replica-IsMarked_test : IsMarked (marks start)
new_replica-IsMarked_test = new_replica-IsMarked ext "b" peers start start_made

start_config : Configuration
start_config = (initial_configuration ext peers new_configuration).1

start_is_current : current start.configurations ≡ some start_config
unfolding start_config
start_is_current = initialize_configuration-current ext peers

-- The second of the sorted peers is the primary of view 1.
start_primary : get_primary start ≡ done (peer "b" 2) start
unfolding get_primary primary_of current initialize_configuration insert_entry add enable
    set_current find_if enable_first find_by_hash initial_configuration add_peer insert_peer
    conflicting_peer_exists conflicts valid_peer insert_address has_address cache_sorted_peers
    sort_peers insert_sorted text_lt create_hash to_string add64
start_primary = refl

start_hosts : all_ipv4 ext (peer "b" 2 ∷ start_config.sorted_peers) ≡ true
unfolding start_config initial_configuration add_peer insert_peer conflicting_peer_exists conflicts
    valid_peer insert_address has_address cache_sorted_peers sort_peers insert_sorted text_lt
    create_hash to_string
start_hosts = refl

handle_request-Answers_example :
    Returns
      (λ r t.
        if (peer "b" 2).uuid == start.uuid
        then Proposed ext start request start_config.sorted_peers t
        else t ≡ record start { outputs = forward (peer "b" 2) "{}" ∷ [] })
      (handle_request ext request "{}" (some 7) start)
handle_request-Answers_example =
    handle_request-Answers ext request "{}" (some 7) start (peer "b" 2) start_config start-Inv
      start_is_current start_primary start_hosts

setup_request_operation-Issued_test :
    Returns (Issued ext start request) (setup_request_operation ext request (some 7) start)
setup_request_operation-Issued_test =
    setup_request_operation-Issued ext request (some 7) start start-Inv

-- The service has reached sequence number 100, and others have proved that they have.
abbrev hundred : Checkpoint
hundred = record { sequence = 100; hash = "state" }

abbrev reached : Assoc String String → Replica
reached ps = record start {
  local_unstable_checkpoints = hundred ∷ [];
  unstable_checkpoint_proofs = (hundred, ps) ∷ [];
}

reached-IsMarked :
    (ps : Assoc String String) → Distinct (senders ps) → IsMarked (marks (reached ps))
unfolding marks lookup contains
reached-IsMarked ps d = record {
  low_is = refl;
  high_is = refl;
  local_fits = λ cp e. ground (arith, e);
  later = λ cp qs e l. ground (arith, e);
  once = λ cp qs e. ground (arith, e, d);
}

reached-Inv : (ps : Assoc String String) → Inv ext (reached ps)
reached-Inv ps = record {
  keyed = start-Inv.keyed;
  sound = start-Inv.sound;
  accepted = start-Inv.accepted;
  configured = start-Inv.configured;
  proper = start-Inv.proper;
}

abbrev two_proofs : Assoc String String
two_proofs = ("a", "x") ∷ ("c", "y") ∷ []

abbrev three_proofs : Assoc String String
three_proofs = ("a", "x") ∷ ("c", "y") ∷ ("d", "z") ∷ []

two_proofs-Distinct : Distinct (senders two_proofs)
unfolding senders contains
two_proofs-Distinct = (refl, (refl, tt))

three_proofs-Distinct : Distinct (senders three_proofs)
unfolding senders contains
three_proofs-Distinct = (refl, (refl, (refl, tt)))

abbrev proof_message : PbftMsg
proof_message = record {
  type = PbftMsgType.checkpoint;
  view = 1;
  sequence = 100;
  has_request = false;
  request = request;
  state_hash = "state";
}

-- The third proof makes the checkpoint stable.
handle_checkpoint-Checked_example :
    Returns
      (λ r t.
        IsMarked (marks t)
        × Inv ext t
        × (Unstabilized (reached two_proofs) t
            ⊎ Stabilized hundred
                (proofs_with ext proof_message (from "d") (reached two_proofs))
                (reached two_proofs)
                t))
      (handle_checkpoint ext proof_message (from "d") (reached two_proofs))
handle_checkpoint-Checked_example =
    handle_checkpoint-Checked ext proof_message (from "d") (reached two_proofs)
      (reached-IsMarked two_proofs two_proofs-Distinct) (reached-Inv two_proofs)

maybe_stabilize_checkpoint-Checked_test :
    Returns
      (Checked ext hundred (reached three_proofs))
      (maybe_stabilize_checkpoint hundred (reached three_proofs))
maybe_stabilize_checkpoint-Checked_test =
    maybe_stabilize_checkpoint-Checked ext hundred (reached three_proofs)
      (reached-IsMarked three_proofs three_proofs-Distinct) (reached-Inv three_proofs)

-- Two configurations, of which the second is enabled and not yet the current one.
abbrev configuration : String → Configuration
configuration hash = record { peers = peers; sorted_peers = peers; cached_hash = hash }

abbrev about_to_move : Replica
about_to_move = record start {
  configurations = record {
    configs =
        record { index = 1; config = configuration "one"; enabled = true }
        ∷ record { index = 2; config = configuration "two"; enabled = true }
        ∷ [];
    current_index = 1;
    next_index = 3;
  };
}

about_to_move-IsValid : IsValid about_to_move.configurations
about_to_move-IsValid = record {
  rising = (omega arith, omega arith, (omega arith, omega arith, tt));
  current_below = omega arith;
  fits = omega arith;
}

move_to_new_configuration_lem_example :
    ((move_to_new_configuration "two" about_to_move).0
      ≡ is_enabled "two" about_to_move.configurations)
    × IsValid (move_to_new_configuration "two" about_to_move).1.configurations
    × (current (move_to_new_configuration "two" about_to_move).1.configurations ≡ (
        if is_enabled "two" about_to_move.configurations
        then get "two" about_to_move.configurations
        else current about_to_move.configurations))
move_to_new_configuration_lem_example =
    move_to_new_configuration_lem "two" about_to_move about_to_move-IsValid
