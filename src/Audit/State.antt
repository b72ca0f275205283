-- ===== src/Audit/State.antt =====
-- audit/audit.cpp: the auditor's state, its reports and their trimming, and its timers.
use Prim.Native.String.{◌++◌ as text_append}
use swarm_db.Base.{
  ℕ, ◌+◌, Bool, true, false, List, [], ◌∷◌, ◌++◌, String, ltb, length, add64, if◌then◌else◌,
}
use swarm_db.Base.Equality.{nat_eq, string_eq}
use swarm_db.Base.Assoc.{Assoc}
use swarm_db.Base.Assoc.Ordered.{erase_lowest}

pub record LeaderStatus : Type 0 where
  pub term : ℕ
  pub leader : String
  pub current_log_index : ℕ
  pub current_commit_index : ℕ

-- The handler that a timer waits with.
pub data Waiting : Type 0 where
  idle waits_for_leader waits_for_primary waits_for_progress : Waiting

-- A timer: what waits on it, and how often it was started from the full time.
pub record Timer : Type 0 where
  pub waiting : Waiting
  pub starts : ℕ

pub record Audit : Type 0 where
  pub uuid : String
  pub recorded_errors : List String
  pub leader_dead_count : ℕ
  pub primary_dead_count : ℕ
  pub leader_stuck_count : ℕ
  pub recorded_leaders : Assoc ℕ String
  pub recorded_raft_commits : Assoc ℕ String
  pub recorded_primaries : Assoc ℕ String
  pub recorded_pbft_commits : Assoc ℕ String
  pub started : Bool
  pub leader_alive_timer : Timer
  pub leader_progress_timer : Timer
  pub last_leader : String
  pub last_leader_commit_index : ℕ
  pub leader_has_uncommitted_entries : Bool
  pub forgotten_error_count : ℕ
  pub has_monitor : Bool
  pub sent : List String
  pub mem_size : ℕ
  pub use_pbft : Bool

-- The constructor, of the node's id, whether there is a monitor, the size and the mode.
abbrev pub new_audit : String → Bool → ℕ → Bool → Audit
new_audit uuid has_monitor mem_size use_pbft = record {
  uuid = uuid;
  recorded_errors = [];
  leader_dead_count = 0;
  primary_dead_count = 0;
  leader_stuck_count = 0;
  recorded_leaders = [];
  recorded_raft_commits = [];
  recorded_primaries = [];
  recorded_pbft_commits = [];
  started = false;
  leader_alive_timer = record { waiting = idle; starts = 0 };
  leader_progress_timer = record { waiting = idle; starts = 0 };
  last_leader = "";
  last_leader_commit_index = 0;
  leader_has_uncommitted_entries = false;
  forgotten_error_count = 0;
  has_monitor = has_monitor;
  sent = [];
  mem_size = mem_size;
  use_pbft = use_pbft;
}

abbrev pub error_strings : Audit → List String
error_strings a = a.recorded_errors

unfoldable pub error_count : Audit → ℕ
error_count a = add64 (length a.recorded_errors) a.forgotten_error_count

unfoldable pub current_memory_size : Audit → ℕ
current_memory_size a =
    length a.recorded_raft_commits + length a.recorded_errors + length a.recorded_leaders

-- The pieces of a formatted text.
unfoldable pub format : List String → String
format [] = ""
format (s ∷ ss) = text_append s (format ss)

-- STATSD_COUNTER_FORMAT
abbrev pub counter : String → String
counter metric = text_append metric ":1|c"

unfoldable pub send_to_monitor : String → Audit → Audit
send_to_monitor stat a = if a.has_monitor then record a { sent = a.sent ++ stat ∷ [] } else a

-- The first loop of `trim`: the errors that stay, and how many were forgotten.
unfoldable pub forget_errors : ℕ → List String → ℕ → List String × ℕ
forget_errors n [] forgotten = ([], forgotten)
forget_errors n (e ∷ es) forgotten =
    let rest = forget_errors n es (add64 forgotten 1) in
    if ltb n (length (e ∷ es)) then rest else (e ∷ es, forgotten)

unfoldable pub trim : Audit → Audit
trim a =
    let (errors, forgotten) = forget_errors a.mem_size a.recorded_errors a.forgotten_error_count in
    record a {
      recorded_errors = errors;
      forgotten_error_count = forgotten;
      recorded_leaders = erase_lowest a.mem_size a.recorded_leaders;
      recorded_raft_commits = erase_lowest a.mem_size a.recorded_raft_commits;
    }

unfoldable pub report_error : String → String → Audit → Audit
report_error metric_name description a =
    let metric = format ("com.bluzelle.swarm.singleton.node." ∷ a.uuid ∷ "." ∷ metric_name ∷ []) in
    trim (
      send_to_monitor (counter metric)
        (record a { recorded_errors = a.recorded_errors ++ description ∷ [] }))

-- expires_from_now and async_wait
abbrev pub restart_timer : Waiting → Timer → Timer
restart_timer w t = record { waiting = w; starts = t.starts + 1 }

unfoldable pub reset_primary_alive_timer : Audit → Audit
reset_primary_alive_timer a = record a {
  primary_dead_count = 0;
  leader_alive_timer = restart_timer waits_for_primary a.leader_alive_timer;
}

unfoldable pub reset_leader_alive_timer : Audit → Audit
reset_leader_alive_timer a = record a {
  leader_dead_count = 0;
  leader_alive_timer = restart_timer waits_for_leader a.leader_alive_timer;
}

unfoldable pub reset_leader_progress_timer : Audit → Audit
reset_leader_progress_timer a = record a {
  leader_stuck_count = 0;
  leader_progress_timer = restart_timer waits_for_progress a.leader_progress_timer;
}

unfoldable pub clear_leader_progress_timer : Audit → Audit
clear_leader_progress_timer a = record a {
  leader_stuck_count = 0;
  leader_progress_timer = record a.leader_progress_timer { waiting = idle };
}

-- call_once; the registration with the node is left out
unfoldable pub start : Audit → Audit
start a =
    if a.started
    then a
    else if a.use_pbft
    then reset_primary_alive_timer (record a { started = true })
    else reset_leader_alive_timer (record a { started = true })
