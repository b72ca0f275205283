-- ===== src/Pbft/FailureDetector.antt =====
-- pbft/pbft_failure_detector.cpp: the requests that a replica has seen and waits to be executed. The timer
-- is whether a wait is pending; an expiry ends the wait before `handle_timeout` runs. `failures` counts the
-- calls of the failure handler that were posted.
pub mod Valid
pub mod Alarm
mod Tests
use swarm_db.Base.{
  ℕ, ◌+◌, Bool, true, false, not, ◌&&◌, Option, none, some, List, [], ◌∷◌, ◌++◌, String, length,
  eqb, if◌then◌else◌,
}
use swarm_db.Base.Equality.{◌==◌, string_eq}
use swarm_db.Base.Sets.{contains, insert, without}
use swarm_db.Proto.{PbftRequest}
use swarm_db.Pbft.External.{External}
use swarm_db.Pbft.Operation.{request_hash}

pub record FailureDetector : Type 0 where
  pub timer_pending : Bool
  pub ordered_requests : List PbftRequest
  pub outstanding_requests : List String
  pub completed_requests : List String
  pub failures : ℕ

abbrev pub new_detector : FailureDetector
new_detector = record {
  timer_pending = false;
  ordered_requests = [];
  outstanding_requests = [];
  completed_requests = [];
  failures = 0;
}

unfoldable pub start_timer : FailureDetector → FailureDetector
start_timer d = record d { timer_pending = true }

module _ (ext : External) where
  -- The loop of `handle_timeout`: the completed requests at the front go.
  unfoldable pub drop_completed : List String → List PbftRequest → List PbftRequest
  drop_completed completed [] = []
  drop_completed completed (r ∷ rs) =
      let rest = drop_completed completed rs in
      if contains (request_hash ext r) completed then rest else r ∷ rs

  -- What is left is waited for.
  unfoldable pub restart : List PbftRequest → FailureDetector → FailureDetector
  unfolding start_timer
  restart [] d = record d { ordered_requests = [] }
  restart (q ∷ qs) d = start_timer (record d { ordered_requests = q ∷ qs })

  -- On the ordered requests; with none of them, the code reads the front of an empty list: `none`.
  unfoldable pub check_front : List PbftRequest → FailureDetector → Option FailureDetector
  unfolding start_timer drop_completed restart
  check_front [] d = none
  check_front (r ∷ rs) d =
      if not (contains (request_hash ext r) d.completed_requests)
      then some (record (start_timer d) { failures = d.failures + 1 })
      else some (restart (drop_completed d.completed_requests (r ∷ rs)) d)

  unfoldable pub handle_timeout : FailureDetector → Option FailureDetector
  unfolding check_front
  handle_timeout d = check_front d.ordered_requests d

  unfoldable pub request_seen : PbftRequest → FailureDetector → FailureDetector
  unfolding start_timer
  request_seen req d =
      let req_hash = request_hash ext req in
      let known = record d {
        ordered_requests = d.ordered_requests ++ req ∷ [];
        outstanding_requests = insert req_hash d.outstanding_requests;
      } in
      if not (contains req_hash d.outstanding_requests)
        && not (contains req_hash d.completed_requests)
      then (if eqb (length known.ordered_requests) 1 then start_timer known else known)
      else d

  unfoldable pub request_executed : PbftRequest → FailureDetector → FailureDetector
  request_executed req d =
      let req_hash = request_hash ext req in
      record d {
        outstanding_requests = without req_hash d.outstanding_requests;
        completed_requests = insert req_hash d.completed_requests;
      }

  -- The timer expires: the wait is over.
  unfoldable pub expire : FailureDetector → Option FailureDetector
  unfolding handle_timeout
  expire d = if d.timer_pending then handle_timeout (record d { timer_pending = false }) else some d
