-- ===== src/Proto.antt =====
-- The messages of proto/database.proto, proto/pbft.proto, proto/bluzelle.proto and proto/audit.proto, as
-- far as the modelled code reads and writes them. A `oneof` is a data type whose first constructor is
-- the unset case. Enumerations hold the declared values alone.
use swarm_db.Base.{ℕ, Bool, true, false, String, List}

pub record DatabaseHeader : Type 0 where
  pub db_uuid : String
  pub transaction_id : ℕ

-- database_msg::msg; the CRUD over PBFT knows neither `subscribe` nor `unsubscribe`
pub data DatabaseCommand : Type 0 where
  msg_not_set : DatabaseCommand
  create update : String → String → DatabaseCommand
  read delete has : String → DatabaseCommand
  keys size : DatabaseCommand
  subscribe : String → DatabaseCommand
  unsubscribe : String → ℕ → DatabaseCommand

pub record DatabaseMsg : Type 0 where
  pub header : DatabaseHeader
  pub msg : DatabaseCommand

pub data UpdateOperation : Type 0 where
  update_op delete_op : UpdateOperation

-- database_response::response. A redirect has the leader's id, host, two ports and name. An update with no value reads as one with the empty value
pub data ResponseBody : Type 0 where
  response_not_set : ResponseBody
  read_response : String → String → ResponseBody
  keys_response : List String → ResponseBody
  size_response : ℕ → ℕ → ResponseBody
  subscription_update : String → String → UpdateOperation → ResponseBody
  has_response : String → Bool → ResponseBody
  redirect : String → String → ℕ → ℕ → String → ResponseBody
  error_response : String → ResponseBody

pub record DatabaseResponse : Type 0 where
  pub header : DatabaseHeader
  pub response : ResponseBody

pub data RequestType : Type 0 where
  undefined database new_config : RequestType

-- pbft_request::msg
pub data RequestBody : Type 0 where
  body_not_set : RequestBody
  operation : DatabaseMsg → RequestBody
  config : String → RequestBody

pub record PbftRequest : Type 0 where
  pub type : RequestType
  pub msg : RequestBody
  pub timestamp : ℕ
  pub client : String

pub data PbftMsgType : Type 0 where
  undefined preprepare prepare commit checkpoint : PbftMsgType

-- An unset `request` reads as the default one; `has_request` says whether it was set.
pub record PbftMsg : Type 0 where
  pub type : PbftMsgType
  pub view : ℕ
  pub sequence : ℕ
  pub has_request : Bool
  pub request : PbftRequest
  pub state_hash : String

-- bzn_envelope: the sender, and the serialised rest
pub record Envelope : Type 0 where
  pub sender : String
  pub payload : String

pub data MembershipType : Type 0 where
  undefined join leave : MembershipType

-- pbft_peer_info, which is also an entry of a configuration in JSON; the ports are 32 bits wide
pub record PeerInfo : Type 0 where
  pub host : String
  pub port : ℕ
  pub http_port : ℕ
  pub name : String
  pub uuid : String

abbrev pub has_config : PbftRequest → Bool
has_config r = elim r.msg [ config c ↦ true | _ ↦ false ]

-- request.config().configuration(), empty if it is not set
abbrev pub configuration_of : PbftRequest → String
configuration_of r = elim r.msg [ config c ↦ c | _ ↦ "" ]

abbrev pub default_request : PbftRequest
default_request = record {
  type = RequestType.undefined;
  msg = body_not_set;
  timestamp = 0;
  client = "";
}

-- audit_message::msg
pub data AuditMessage : Type 0 where
  raft_commit : ℕ → String → AuditMessage
  leader_status : ℕ → String → ℕ → ℕ → AuditMessage
  pbft_commit : String → ℕ → String → AuditMessage
  primary_status : ℕ → String → AuditMessage
  failure_detected : String → AuditMessage
