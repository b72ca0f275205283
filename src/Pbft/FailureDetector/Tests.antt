-- ===== src/Pbft/FailureDetector/Tests.antt =====
-- A failure detector of pbft/pbft_failure_detector.cpp that waits for one request, and its theorems there.
use swarm_db.Base.{subst, ◌<◌, ◌≡◌, refl, true, false, some, [], ◌∷◌, String, arith}
use swarm_db.Base.Equality.{==_iff, string_eq}
use swarm_db.Base.Sets.{contains}
use swarm_db.Proto.{PbftRequest, RequestType, body_not_set}
use swarm_db.Pbft.External.{External, rejected}
use swarm_db.Pbft.Operation.{request_hash}
use swarm_db.Pbft.FailureDetector.{FailureDetector, request_seen, request_executed, expire}
use swarm_db.Pbft.FailureDetector.Valid.{
  IsValid, waits, request_seen-IsValid, request_executed-IsValid,
}
use swarm_db.Pbft.FailureDetector.Alarm.{Expired, expire-Expired, expire-reports}

abbrev ext : External
ext = record {
  short_debug_string = λ r. r.client;
  serialize_envelope = λ e. e.payload;
  parse_configuration = λ s. rejected;
  is_ipv4 = λ h. true;
  styled_configuration = λ ps. "peers";
  hash_of_text = λ s. s;
  service_state_hash = λ n. "state";
}

abbrev request : String → PbftRequest
request name = record {
  type = RequestType.undefined;
  msg = body_not_set;
  timestamp = 0;
  client = name;
}

-- The first request is executed, the second is not.
abbrev detector : FailureDetector
detector = record {
  timer_pending = true;
  ordered_requests = request "one" ∷ request "two" ∷ [];
  outstanding_requests = "two" ∷ [];
  completed_requests = "one" ∷ [];
  failures = 0;
}

detector-IsValid : IsValid ext detector
unfolding waits contains request_hash
detector-IsValid = record {
  pending = refl;
  tracked = λ h e.
      subst
        (λ k.
          (waits ext k detector.ordered_requests ≡ true)
          × (contains k detector.completed_requests ≡ false))
        ((==_iff "two" h).0 (ground (arith, e))) (refl, refl);
}

two_is_outstanding : contains "two" detector.outstanding_requests ≡ true
unfolding contains
two_is_outstanding = refl

request_seen-IsValid_test : IsValid ext (request_seen ext (request "three") detector)
request_seen-IsValid_test = request_seen-IsValid ext (request "three") detector detector-IsValid

request_executed-IsValid_test : IsValid ext (request_executed ext (request "two") detector)
request_executed-IsValid_test =
    request_executed-IsValid ext (request "two") detector detector-IsValid

expire-Expired_example :
    (t : FailureDetector) × (expire ext detector ≡ some t) × Expired ext detector t
expire-Expired_example = expire-Expired ext detector detector-IsValid

expire-reports_example :
    (t : FailureDetector) × (u : FailureDetector) × (expire ext detector ≡ some t)
    × (expire ext t ≡ some u)
    × (detector.failures < u.failures)
expire-reports_example = expire-reports ext detector "two" detector-IsValid two_is_outstanding
