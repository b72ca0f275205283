-- ===== src/Pbft/Operation/Tests.antt =====
-- An operation of pbft/pbft_operation.cpp among four peers, and its theorems there.
use swarm_db.Base.{
  ◌+◌, ◌*◌, ◌<◌, ◌≤◌, ◌≡◌, refl, true, none, some, List, [], ◌∷◌, String, arith, length,
}
use swarm_db.Base.Equality.{string_eq}
use swarm_db.Base.Sets.{contains, insert, Distinct, common}
use swarm_db.Proto.{PbftRequest, RequestType, body_not_set, Envelope}
use swarm_db.Pbft.Peers.{PeerAddress}
use swarm_db.Pbft.Operation.{
  Operation, OperationState, commit, new_operation, record_preprepare, record_prepare,
  faulty_nodes_bound, is_prepared, begin_commit_phase,
}
use swarm_db.Pbft.Operation.Phases.{
  preprepared, prepared_by, begins, Reach, here, next, IsSound, Advances, Reach-IsSound,
  Reach-Advances,
}
use swarm_db.Pbft.Operation.Quorums.{uuids, IsVoteSet, faulty_nodes_bound_lem, prepared_overlap}

abbrev peer : String → PeerAddress
peer uuid = record { host = "h"; port = 1; http_port = 2; name = uuid; uuid = uuid }

abbrev peers : List PeerAddress
peers = peer "a" ∷ peer "b" ∷ peer "c" ∷ peer "d" ∷ []

abbrev request : PbftRequest
request = record { type = RequestType.undefined; msg = body_not_set; timestamp = 0; client = "req" }

abbrev start : Operation
start = new_operation 1 1 request peers

abbrev from : String → Envelope
from sender = record { sender = sender; payload = "" }

-- A preprepare and three prepares.
abbrev prepared : Operation
prepared =
    record_prepare (from "c")
      (record_prepare (from "b") (record_prepare (from "a") (record_preprepare start)))

abbrev in_commit_phase : Operation
in_commit_phase = record prepared { state = commit }

prepared_begins : begin_commit_phase prepared ≡ some in_commit_phase
unfolding begin_commit_phase is_prepared faulty_nodes_bound new_operation record_preprepare
    record_prepare insert contains
prepared_begins = refl

commit_reached : Reach start in_commit_phase
commit_reached =
    next
      (next
        (next
          (next (next here (preprepared start)) (prepared_by (record_preprepare start) (from "a")))
          (prepared_by (record_prepare (from "a") (record_preprepare start)) (from "b")))
        (prepared_by
          (record_prepare (from "b") (record_prepare (from "a") (record_preprepare start)))
          (from "c")))
      (begins prepared in_commit_phase prepared_begins)

Reach-IsSound_example : IsSound in_commit_phase
Reach-IsSound_example = Reach-IsSound 1 1 request peers commit_reached

Reach-Advances_example : Advances start in_commit_phase
Reach-Advances_example = Reach-Advances commit_reached

-- Operations as they stand with three of four votes each.
abbrev with_votes : List String → Operation
with_votes votes = record {
  view = 1;
  sequence = 1;
  request = request;
  peers = peers;
  state = OperationState.prepare;
  preprepare_seen = true;
  prepares_seen = votes;
  commits_seen = [];
  listener_session = none;
}

abbrev first : Operation
first = with_votes ("a" ∷ "b" ∷ "c" ∷ [])

abbrev second : Operation
second = with_votes ("b" ∷ "c" ∷ "d" ∷ [])

first_votes : IsVoteSet first first.prepares_seen
unfolding contains uuids
first_votes = record { once = (refl, (refl, (refl, tt))); by_peers = (refl, (refl, (refl, tt))) }

second_votes : IsVoteSet first second.prepares_seen
unfolding contains uuids
second_votes = record { once = (refl, (refl, (refl, tt))); by_peers = (refl, (refl, (refl, tt))) }

peers-Distinct : Distinct (uuids peers)
unfolding contains uuids
peers-Distinct = (refl, (refl, (refl, (refl, tt))))

one_fault : length first.peers ≡ 3 * faulty_nodes_bound first + 1
unfolding faulty_nodes_bound
one_fault = refl

first_prepared : is_prepared first ≡ true
unfolding is_prepared faulty_nodes_bound
first_prepared = refl

second_prepared : is_prepared second ≡ true
unfolding is_prepared faulty_nodes_bound
second_prepared = refl

faulty_nodes_bound_lem_test :
    (3 * faulty_nodes_bound first + 1 ≤ length first.peers)
    × (length first.peers ≤ 3 * faulty_nodes_bound first + 3)
faulty_nodes_bound_lem_test = faulty_nodes_bound_lem first (omega arith) (omega arith)

prepared_overlap_example :
    faulty_nodes_bound first < length (common first.prepares_seen second.prepares_seen)
prepared_overlap_example =
    prepared_overlap first second refl one_fault peers-Distinct first_votes second_votes
      first_prepared second_prepared
