-- ===== src/Pbft/FailureDetector/Alarm.antt =====
-- The failure detector of pbft/pbft_failure_detector.cpp never reads an empty list, and it reports a request
-- that is not executed.
use swarm_db.Base.{
  ◌+◌, ◌<◌, ◌≡◌, ◌⊎◌, inl, inr, refl, Bool-cases, ◌∙◌, ◌&&◌, if◌then◌else◌, true, false, some, List,
  [], ◌∷◌, String, arith,
}
use swarm_db.Base.Equality.{string_eq}
use swarm_db.Base.Sets.{contains}
use swarm_db.Proto.{PbftRequest}
use swarm_db.Pbft.External.{External}
use swarm_db.Pbft.FailureDetector.{
  FailureDetector, start_timer, drop_completed, restart, check_front, handle_timeout, expire,
}
use swarm_db.Pbft.FailureDetector.Valid.{
  is_empty, IsValid, waits, front_is_open, waits-drop_completed, drop_completed_open,
}

module _ (ext : External) where
  check_front_open :
      (rs : List PbftRequest) (d : FailureDetector)
      → is_empty rs ≡ false
      → front_is_open ext d.completed_requests rs ≡ true
      → check_front ext rs d ≡ some (record (start_timer d) { failures = d.failures + 1 })
  unfolding check_front
  check_front_open [] d e o = ground arith
  check_front_open (r ∷ rs) d e o = ground arith

  check_front_closed :
      (rs : List PbftRequest) (d : FailureDetector)
      → front_is_open ext d.completed_requests rs ≡ false
      → check_front ext rs d ≡ some (restart ext (drop_completed ext d.completed_requests rs) d)
  unfolding check_front
  check_front_closed [] d o = ground arith
  check_front_closed (r ∷ rs) d o = ground arith

  -- The detector after an expiry: it is valid, what is outstanding or completed is the same, and one more
  -- failure was reported exactly if the timer was running and the oldest request was not completed; else the
  -- oldest of the requests that are left is not completed.
  pub record Expired (d t : FailureDetector) : Type 0 where
    pub valid : IsValid ext t
    pub same_outstanding : t.outstanding_requests ≡ d.outstanding_requests
    pub same_completed : t.completed_requests ≡ d.completed_requests
    pub reported : t.failures ≡ (
        if d.timer_pending && front_is_open ext d.completed_requests d.ordered_requests
        then d.failures + 1
        else d.failures)
    pub reports :
        (t.failures ≡ d.failures + 1)
        ⊎ ((t.failures ≡ d.failures)
            × (front_is_open ext t.completed_requests t.ordered_requests ≡ true))

  restart-IsValid :
      (rs : List PbftRequest) (d : FailureDetector)
      → d.timer_pending ≡ false
      → ((h : String)
          → contains h d.outstanding_requests ≡ true
          → (waits ext h rs ≡ true) × (contains h d.completed_requests ≡ false))
      → IsValid ext (restart ext rs d)
  unfolding restart start_timer
  restart-IsValid [] d p k = record { pending = p; tracked = k }
  restart-IsValid (r ∷ rs) d p k = record { pending = refl; tracked = k }

  restart_lem :
      (rs : List PbftRequest) (d : FailureDetector)
      → ((restart ext rs d).ordered_requests ≡ rs)
        × ((restart ext rs d).outstanding_requests ≡ d.outstanding_requests)
        × ((restart ext rs d).completed_requests ≡ d.completed_requests)
        × ((restart ext rs d).failures ≡ d.failures)
  unfolding restart start_timer
  restart_lem [] d = (refl, refl, refl, refl)
  restart_lem (r ∷ rs) d = (refl, refl, refl, refl)

  waits_nonempty :
      (h : String) (rs : List PbftRequest) → waits ext h rs ≡ true → is_empty rs ≡ false
  unfolding waits
  waits_nonempty h [] e = ground arith
  waits_nonempty h (r ∷ rs) e = refl

  expire_open :
      (d : FailureDetector)
      → d.timer_pending ≡ true
      → is_empty d.ordered_requests ≡ false
      → front_is_open ext d.completed_requests d.ordered_requests ≡ true
      → expire ext d ≡ some (record d { timer_pending = true; failures = d.failures + 1 })
  unfolding expire handle_timeout start_timer
  expire_open d p e o =
      rw (p, expire) (check_front_open d.ordered_requests (record d { timer_pending = false }) e o)

  expire_closed :
      (d : FailureDetector)
      → d.timer_pending ≡ true
      → front_is_open ext d.completed_requests d.ordered_requests ≡ false
      → expire ext d
        ≡ some (
            restart ext
              (drop_completed ext d.completed_requests d.ordered_requests)
              (record d { timer_pending = false }))
  unfolding expire handle_timeout
  expire_closed d p o =
      rw (p, expire) (check_front_closed d.ordered_requests (record d { timer_pending = false }) o)

  expire_idle : (d : FailureDetector) → d.timer_pending ≡ false → expire ext d ≡ some d
  unfolding expire
  expire_idle d p = rw (p, expire) refl

  restart-Expired :
      (d : FailureDetector)
      → IsValid ext d
      → front_is_open ext d.completed_requests d.ordered_requests ≡ false
      → Expired d (
          restart ext
            (drop_completed ext d.completed_requests d.ordered_requests)
            (record d { timer_pending = false }))
  restart-Expired d v closed =
      let rest = drop_completed ext d.completed_requests d.ordered_requests in
      let z = record d { timer_pending = false } in
      let l = restart_lem rest z in
      record {
        valid = restart-IsValid rest z refl (λ h e.
            let k = v.tracked h e in
            (waits-drop_completed ext h d.completed_requests d.ordered_requests k.1 ∙ k.0, k.1));
        same_outstanding = l.1;
        same_completed = l.2;
        reported = ground (arith, l.3, closed);
        reports =
            inr (
              l.3,
              rw (l.0, l.2) (drop_completed_open ext d.completed_requests d.ordered_requests),
            );
      }

  -- An expiry of the timer of a valid detector never reads the front of an empty list; it leaves a valid
  -- detector with the same outstanding requests. It reports one failure exactly if the timer was running and
  -- the oldest request is not completed; else none, and then the request in front is not completed, if any is
  -- left.
  pub expire-Expired :
      (d : FailureDetector)
      → IsValid ext d
      → (t : FailureDetector) × (expire ext d ≡ some t) × Expired d t
  expire-Expired d v = elim (Bool-cases d.timer_pending) [
    | inr p ↦ (
      d,
      expire_idle d p,
      record {
        valid = v;
        same_outstanding = refl;
        same_completed = refl;
        reported = ground (arith, p);
        reports = inr (refl, idle_front d.ordered_requests (ground (arith, p, v.pending)));
      },
    )
    | inl p ↦ elim (Bool-cases (front_is_open ext d.completed_requests d.ordered_requests)) [
      | inr o ↦ (_, expire_closed d p o, restart-Expired d v o)
      | inl o ↦ (
        _,
        expire_open d p (ground (arith, p, v.pending)) o,
        record {
          valid = record { pending = ground (arith, p, v.pending); tracked = v.tracked };
          same_outstanding = refl;
          same_completed = refl;
          reported = ground (arith, p, o);
          reports = inl refl;
        },
      )
    ]
  ]
    where
      idle_front :
          (rs : List PbftRequest)
          → is_empty rs ≡ true
          → front_is_open ext d.completed_requests rs ≡ true
      idle_front [] e = refl
      idle_front (r ∷ rs) e = ground arith

  -- While a request is outstanding in a valid detector, of two expiries of the timer in a row at least one
  -- reports a failure.
  pub expire-reports :
      (d : FailureDetector) (h : String)
      → IsValid ext d
      → contains h d.outstanding_requests ≡ true
      → (t : FailureDetector) × (u : FailureDetector) × (expire ext d ≡ some t)
        × (expire ext t ≡ some u)
        × (d.failures < u.failures)
  expire-reports d h v o =
      let (t, e, x) = expire-Expired d v in
      let (u, f, y) = expire-Expired t x.valid in (t, u, e, f, second t u x y f)
    where
      second :
          (t u : FailureDetector)
          → Expired d t
          → Expired t u
          → expire ext t ≡ some u
          → d.failures < u.failures
      second t u x y f = elim x.reports [
        | inl more ↦ ground (arith, more, y.reports)
        | inr (same, open_front) ↦
            let k = x.valid.tracked h (rw x.same_outstanding o) in
            let n = waits_nonempty h t.ordered_requests k.0 in
            let g = expire_open t (ground (arith, x.valid.pending, n)) n open_front in
            ground (arith, g, f, same)
      ]
