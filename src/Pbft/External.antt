-- ===== src/Pbft/External.antt =====
-- What the replica uses of libraries and of the service behind `pbft_service_base`: protobuf's text form
-- of a request and serialisation of an envelope, jsoncpp's reader and writer of a configuration,
-- std::hash, and the service's hash of its state. The reader gives the entries of the array "peers", or
-- rejects the text if it is no JSON or has no such array, or finds a value of another type than the code reads,
-- where jsoncpp throws. `is_ipv4` tells the hosts that Boost's `address_v4::from_string` takes; it throws on others.
use swarm_db.Base.{ℕ, Bool, String, List}
use swarm_db.Proto.{PbftRequest, Envelope, PeerInfo}
use swarm_db.Pbft.Peers.{PeerAddress}

pub data Parsed : Type 0 where
  rejected mistyped : Parsed
  entries : List PeerInfo → Parsed

pub record External : Type 0 where
  pub short_debug_string : PbftRequest → String
  pub serialize_envelope : Envelope → String
  pub parse_configuration : String → Parsed
  pub is_ipv4 : String → Bool
  pub styled_configuration : List PeerAddress → String
  pub hash_of_text : String → String
  pub service_state_hash : ℕ → String
