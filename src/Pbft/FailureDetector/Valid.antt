-- ===== src/Pbft/FailureDetector/Valid.antt =====
-- What the failure detector of pbft/pbft_failure_detector.cpp keeps true of its lists and of its timer.
use swarm_db.Base.{
  ◌≡◌, refl, Bool, true, false, not, ◌||◌, List, [], ◌∷◌, ◌++◌, String, length, eqb, arith,
  if◌then◌else◌,
}
use swarm_db.Base.Equality.{◌==◌, ==_iff, string_eq}
use swarm_db.Base.Sets.{contains, contains-insert, contains-without}
use swarm_db.Proto.{PbftRequest}
use swarm_db.Pbft.External.{External}
use swarm_db.Pbft.Operation.{request_hash}
use swarm_db.Pbft.FailureDetector.{
  FailureDetector, new_detector, start_timer, drop_completed, request_seen, request_executed,
}

abbrev pub is_empty : List PbftRequest → Bool
is_empty [] = true
is_empty (r ∷ rs) = false

module _ (ext : External) where
  -- The request with this hash is among those.
  unfoldable pub waits : String → List PbftRequest → Bool
  waits h [] = false
  waits h (r ∷ rs) = let rest = waits h rs in if request_hash ext r == h then true else rest

  -- A wait is pending exactly while there are ordered requests; an outstanding request is among them and
  -- is not completed.
  pub record IsValid (d : FailureDetector) : Type 0 where
    pub pending : d.timer_pending ≡ not (is_empty d.ordered_requests)
    pub tracked :
        (h : String)
        → contains h d.outstanding_requests ≡ true
        → (waits h d.ordered_requests ≡ true) × (contains h d.completed_requests ≡ false)

  waits-append :
      (h : String) (rs qs : List PbftRequest) → waits h (rs ++ qs) ≡ (waits h rs || waits h qs)
  unfolding waits
  waits-append h [] qs = refl
  waits-append h (r ∷ rs) qs = ground (arith, waits-append h rs qs)

  -- What is not completed stays, and then an uncompleted request is at the front.
  pub waits-drop_completed :
      (h : String) (completed : List String) (rs : List PbftRequest)
      → contains h completed ≡ false
      → waits h (drop_completed ext completed rs) ≡ waits h rs
  unfolding waits drop_completed
  waits-drop_completed h completed [] n = refl
  waits-drop_completed h completed (r ∷ rs) n =
      ground (arith, waits-drop_completed h completed rs, ==_iff (request_hash ext r) h)

  abbrev pub front_is_open : List String → List PbftRequest → Bool
  front_is_open completed [] = true
  front_is_open completed (r ∷ rs) = not (contains (request_hash ext r) completed)

  pub drop_completed_open :
      (completed : List String) (rs : List PbftRequest)
      → front_is_open completed (drop_completed ext completed rs) ≡ true
  unfolding drop_completed
  drop_completed_open completed [] = refl
  drop_completed_open completed (r ∷ rs) = ground (arith, drop_completed_open completed rs)

  new_detector-IsValid : IsValid new_detector
  unfolding contains
  new_detector-IsValid = record { pending = refl; tracked = λ h e. ground (arith, e) }

  starts_with_first :
      (req : PbftRequest) (rs : List PbftRequest) (b : Bool)
      → b ≡ not (is_empty rs)
      → (is_empty (rs ++ req ∷ []) ≡ false)
        × ((if eqb (length (rs ++ req ∷ [])) 1 then true else b) ≡ true)
  starts_with_first req [] b h = (refl, refl)
  starts_with_first req (r ∷ rs) b h = ground arith

  -- Seeing a request keeps the detector valid: the timer is started with the first request alone.
  pub request_seen-IsValid :
      (req : PbftRequest) (d : FailureDetector) → IsValid d → IsValid (request_seen ext req d)
  unfolding request_seen start_timer waits
  request_seen-IsValid req d v = record {
    pending =
        ground
          (arith, v.pending, starts_with_first req d.ordered_requests d.timer_pending v.pending);
    tracked = λ h e. ground (
      arith,
      v.tracked h,
      e,
      waits-append h d.ordered_requests (req ∷ []),
      contains-insert (request_hash ext req) h d.outstanding_requests,
      ==_iff (request_hash ext req) h,
    );
  }

  -- Executing a request keeps the detector valid.
  pub request_executed-IsValid :
      (req : PbftRequest) (d : FailureDetector) → IsValid d → IsValid (request_executed ext req d)
  unfolding request_executed
  request_executed-IsValid req d v = record {
    pending = v.pending;
    tracked = λ h e. ground (
      arith,
      v.tracked h,
      e,
      contains-without (request_hash ext req) h d.outstanding_requests,
      contains-insert (request_hash ext req) h d.completed_requests,
      ==_iff (request_hash ext req) h,
    );
  }
