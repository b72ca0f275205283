-- ===== src/Raft/State.antt =====
-- raft/raft.hpp, raft/raft_base.hpp and raft/raft.cpp: the state of a Raft daemon, what it sends, and the helpers of
-- its handlers. An action gives the new state, or nothing where the code throws. What is sent stands in
-- `outputs`; the length of timeouts is left out. `is_ipv4` tells the hosts that Boost's
-- `address_v4::from_string` takes; it throws on others.
use swarm_db.Base.{
  ℕ, ◌%◌, ◌^◌, Bool, true, false, not, ◌||◌, Option, none, some, List, [], ◌∷◌, ◌++◌, String,
  find_if, is_some, if◌then◌else◌,
}
use swarm_db.Base.Equality.{◌==◌, string_eq}
use swarm_db.Base.Assoc.{Assoc, lookup, put}
use swarm_db.Proto.{PeerInfo, AuditMessage, leader_status, raft_commit}
use swarm_db.Pbft.Peers.{PeerAddress, same_address, to_peer_address}
use swarm_db.Raft.Log.{
  LogEntryType, single_quorum, EntryMessage, LogEntry, RaftLog, size, last_quorum_entry,
  leader_append_entry,
}
use swarm_db.Raft.Quorum.{peers_of, old_peers, new_peers, or_throw}

pub data RaftState : Type 0 where
  candidate follower leader : RaftState

-- What the one timer waits for.
pub data TimerWait : Type 0 where
  nothing election heartbeat : TimerWait

-- The messages of the protocol; the last two answer the requests of peers to join or to leave.
pub data RaftMessage : Type 0 where
  request_vote : String → ℕ → ℕ → ℕ → RaftMessage
  response_vote : String → ℕ → Bool → RaftMessage
  append_entries : String → ℕ → ℕ → ℕ → ℕ → ℕ → EntryMessage → RaftMessage
  append_entries_reply : String → ℕ → Bool → ℕ → RaftMessage
  error_message : String → RaftMessage
  success_message : String → String → RaftMessage

-- node->send_message, session->send_message, session->close, the commit handler, and messages to auditors
pub data Output : Type 0 where
  sends : PeerAddress → RaftMessage → Output
  answers : RaftMessage → Output
  closes : Output
  commits : EntryMessage → Output
  audits : PeerAddress → AuditMessage → Output

pub record Raft : Type 0 where
  pub current_state : RaftState
  pub current_term : ℕ
  pub yes_votes : List String
  pub no_votes : List String
  pub voted_for : Option String
  pub timer : TimerWait
  pub last_log_term : ℕ
  pub commit_index : ℕ
  pub peer_match_index : Assoc String ℕ
  pub uuid : String
  pub leader : String
  pub raft_log : RaftLog
  pub enable_audit : Bool
  pub enable_peer_validation : Bool
  pub in_a_swarm : Bool
  pub outputs : List Output

abbrev pub u32_mod : ℕ
u32_mod = 2 ^ 32

abbrev pub output : Output → Raft → Raft
output o r = record r { outputs = r.outputs ++ o ∷ [] }

abbrev pub is_leader : Raft → Bool
is_leader r = elim r.current_state [ leader ↦ true | _ ↦ false ]

abbrev pub is_candidate : Raft → Bool
is_candidate r = elim r.current_state [ candidate ↦ true | _ ↦ false ]

unfoldable pub setup_peer_tracking : List PeerInfo → Raft → Raft
setup_peer_tracking [] r = r
setup_peer_tracking (p ∷ ps) r =
    setup_peer_tracking ps (record r { peer_match_index = put p.uuid 1 r.peer_match_index })

unfoldable pub start_election_timer : Raft → Raft
start_election_timer r = record r { timer = election }

unfoldable pub start_heartbeat_timer : Raft → Raft
start_heartbeat_timer r = record r { timer = heartbeat }

unfoldable pub update_raft_state : ℕ → RaftState → Raft → Raft
update_raft_state term candidate r = record r { current_state = candidate; current_term = term }
update_raft_state term follower r = record r { current_state = follower; current_term = term }
update_raft_state term leader r = record r {
  current_state = RaftState.leader;
  current_term = term;
  leader = r.uuid;
}

-- emplace in the set of addresses
unfoldable pub add_address : PeerAddress → List PeerAddress → List PeerAddress
add_address a seen = if is_some (find_if (same_address a) seen) then seen else seen ++ a ∷ []

unfoldable pub add_addresses : List PeerInfo → List PeerAddress → List PeerAddress
add_addresses [] seen = seen
add_addresses (p ∷ ps) seen = add_addresses ps (add_address (to_peer_address p) seen)

-- The last quorum entry is of one of the two types.
unfoldable pub addresses_of : LogEntry → List PeerAddress
addresses_of e = elim e.entry_type [
  | single_quorum ↦ add_addresses (peers_of e.msg) []
  | _ ↦ add_addresses (new_peers e.msg) (add_addresses (old_peers e.msg) [])
]

unfoldable pub get_all_peers : Raft → Option (List PeerAddress)
get_all_peers r = or_throw (last_quorum_entry r.raft_log) (λ e. some (addresses_of e))

-- The loops that send one message to every peer, or to every other one.
unfoldable pub audit_all : (String → Bool) → AuditMessage → List PeerAddress → Raft → Option Raft
audit_all is_ipv4 m [] r = some r
audit_all is_ipv4 m (p ∷ ps) r =
    let rest = audit_all is_ipv4 m ps (output (audits p m) r) in
    if is_ipv4 p.host then rest else none

-- The exception of a host that is no address is caught and logged.
unfoldable pub send_to_others : (String → Bool) → RaftMessage → List PeerAddress → Raft → Raft
send_to_others is_ipv4 m [] r = r
send_to_others is_ipv4 m (p ∷ ps) r =
    send_to_others is_ipv4 m ps
      (if p.uuid == r.uuid || not (is_ipv4 p.host) then r else output (sends p m) r)

unfoldable pub notify_leader_status : (String → Bool) → Raft → Option Raft
notify_leader_status is_ipv4 r =
    if r.enable_audit
    then or_throw (get_all_peers r) (λ peers.
      audit_all is_ipv4 (leader_status r.current_term r.uuid (size r.raft_log) r.commit_index) peers
        r)
    else some r

unfoldable pub notify_commit : (String → Bool) → ℕ → String → Raft → Option Raft
notify_commit is_ipv4 log_index operation r =
    if r.enable_audit
    then or_throw (get_all_peers r)
        (λ peers. audit_all is_ipv4 (raft_commit log_index operation) peers r)
    else some r

-- peer_match_index[uuid] makes a missing entry zero.
unfoldable pub touch : String → Assoc String ℕ → Assoc String ℕ
touch uuid m = if is_some (lookup uuid m) then m else put uuid 0 m

abbrev pub or_zero : Option ℕ → ℕ
or_zero none = 0
or_zero (some n) = n

abbrev pub match_index : Assoc String ℕ → String → ℕ
match_index m uuid = or_zero (lookup uuid m)

module _ (entry_size : LogEntry → ℕ) where
  -- The new state and whether the entry was appended.
  unfoldable pub append_log_unsafe : EntryMessage → LogEntryType → Raft → Raft × Bool
  append_log_unsafe msg entry_type r =
      if is_leader r
      then (
        record r {
          raft_log =
              leader_append_entry entry_size
                (record {
                  entry_type = entry_type;
                  log_index = size r.raft_log % u32_mod;
                  term = r.current_term;
                  msg = msg;
                })
                r.raft_log;
        },
        true,
      )
      else (r, false)

  -- Under a lock of its own.
  abbrev pub append_log : EntryMessage → LogEntryType → Raft → Raft × Bool
  append_log = append_log_unsafe

-- The loop of `get_leader_unsafe`.
unfoldable pub find_leader : String → List PeerAddress → PeerAddress
find_leader u [] = record { host = ""; port = 0; http_port = 0; name = ""; uuid = "" }
find_leader u (p ∷ ps) = let rest = find_leader u ps in if p.uuid == u then p else rest

unfoldable pub get_leader : Raft → Option PeerAddress
get_leader r = or_throw (get_all_peers r) (λ peers. some (find_leader r.leader peers))
