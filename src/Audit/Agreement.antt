-- ===== src/Audit/Agreement.antt =====
-- audit/audit.cpp: messages that agree with one another are never counted as errors.
use swarm_db.Base.{
  ℕ, ◌≡◌, refl, sym, subst, ◌++◌, ◌∙◌, ap, Bool, true, false, Option, none, some, List, [], ◌∷◌,
  String, arith, if◌then◌else◌, add64, All,
}
use swarm_db.Base.Equality.{◌==◌, nat_eq, string_eq}
use swarm_db.Base.Assoc.{lookup-nil}
use swarm_db.Base.Assoc.Ordered.{IsOrdered, put_ordered-IsOrdered}
use swarm_db.Proto.{
  AuditMessage, raft_commit, leader_status, pbft_commit, primary_status, failure_detected,
}
use swarm_db.Audit.State.{
  Audit, new_audit, error_count, report_error, send_to_monitor, reset_primary_alive_timer,
  reset_leader_alive_timer,
}
use swarm_db.Audit.Handlers.{
  note_primary, handle_primary_status, note_leader, handle_leader_status, note_raft_commit,
  handle_raft_commit, note_pbft_commit, handle_pbft_commit, handle,
}
use swarm_db.Audit.Events.{Event, hears, handle_event, run}
use swarm_db.Audit.Memory.{
  memory, memory-send_to_monitor, memory-handle_leader_data, memory-handle_failure_detected,
}
use swarm_db.Audit.Bounds.{IsBounded, new_audit-IsBounded, handle_event-IsBounded}
use swarm_db.Audit.Counts.{counted, error_count-handle}
use swarm_db.Audit.Recorded.{
  World, Tells, Agrees, put_ordered-Recorded, trim-Agrees, Agrees-same, no_conflict,
}

Agrees-if :
    {w : World} (b : Bool) (x y : Audit)
    → Agrees w (memory x)
    → Agrees w (memory y)
    → Agrees w (memory (if b then x else y))
Agrees-if true x y p q = p
Agrees-if false x y p q = q

report_error-Agrees :
    {w : World} {n : ℕ} (metric description : String) (a : Audit)
    → IsBounded n (memory a)
    → Agrees w (memory a)
    → Agrees w (memory (report_error metric description a))
unfolding report_error
report_error-Agrees {w} {n} metric description a b h =
    let pushed : Audit = record a { recorded_errors = a.recorded_errors ++ description ∷ [] } in
    let e = memory-send_to_monitor _ pushed in
    trim-Agrees _ (subst (λ m. IsOrdered m.leaders) (sym e) b.leaders_ordered)
      (subst (λ m. IsOrdered m.raft_commits) (sym e) b.raft_commits_ordered)
      (Agrees-same _ (memory pushed) e (record {
        leaders = h.leaders;
        raft_commits = h.raft_commits;
        primaries = h.primaries;
        pbft_commits = h.pbft_commits;
      }))

sent-IsBounded :
    {n : ℕ} (stat : String) (a : Audit)
    → IsBounded n (memory a)
    → IsBounded n (memory (send_to_monitor stat a))
sent-IsBounded {n} stat a b = subst (IsBounded n) (sym (memory-send_to_monitor stat a)) b

sent-Agrees :
    {w : World} (stat : String) (a : Audit)
    → Agrees w (memory a)
    → Agrees w (memory (send_to_monitor stat a))
sent-Agrees stat a h = Agrees-same _ (memory a) (memory-send_to_monitor stat a) h

module _ (decimal : ℕ → String) {w : World} {n : ℕ} where
  note_primary-Agrees :
      (o : Option String) (view : ℕ) (primary : String) (a : Audit)
      → IsBounded n (memory a)
      → Agrees w (memory a)
      → primary ≡ w.primary_of view
      → Agrees w (memory (note_primary decimal o view primary a))
  unfolding note_primary
  note_primary-Agrees none view primary a b h t =
      let e = memory-send_to_monitor _ a in
      let k : Agrees w (memory (send_to_monitor _ a)) = Agrees-same _ (memory a) e h in
      trim-Agrees _ (subst (λ m. IsOrdered m.leaders) (sym e) b.leaders_ordered)
        (subst (λ m. IsOrdered m.raft_commits) (sym e) b.raft_commits_ordered)
        (record {
          leaders = k.leaders;
          raft_commits = k.raft_commits;
          primaries = put_ordered-Recorded w.primary_of view primary _ t k.primaries;
          pbft_commits = k.pbft_commits;
        })
  note_primary-Agrees (some old) view primary a b h t =
      Agrees-if (old == primary) a _ h (report_error-Agrees _ _ a b h)

  note_leader-Agrees :
      (o : Option String) (term : ℕ) (leader : String) (a : Audit)
      → IsBounded n (memory a)
      → Agrees w (memory a)
      → leader ≡ w.leader_of term
      → Agrees w (memory (note_leader decimal o term leader a))
  unfolding note_leader
  note_leader-Agrees none term leader a b h t =
      let e = memory-send_to_monitor _ a in
      let k : Agrees w (memory (send_to_monitor _ a)) = Agrees-same _ (memory a) e h in
      trim-Agrees _
        (put_ordered-IsOrdered term leader _
          (subst (λ m. IsOrdered m.leaders) (sym e) b.leaders_ordered))
        (subst (λ m. IsOrdered m.raft_commits) (sym e) b.raft_commits_ordered)
        (record {
          leaders = put_ordered-Recorded w.leader_of term leader _ t k.leaders;
          raft_commits = k.raft_commits;
          primaries = k.primaries;
          pbft_commits = k.pbft_commits;
        })
  note_leader-Agrees (some old) term leader a b h t =
      Agrees-if (old == leader) a _ h (report_error-Agrees _ _ a b h)

  note_raft_commit-Agrees :
      (o : Option String) (index : ℕ) (operation : String) (a : Audit)
      → IsBounded n (memory a)
      → Agrees w (memory a)
      → operation ≡ w.commit_at index
      → Agrees w (memory (note_raft_commit decimal o index operation a))
  unfolding note_raft_commit
  note_raft_commit-Agrees none index operation a b h t =
      trim-Agrees _ b.leaders_ordered
        (put_ordered-IsOrdered index operation _ b.raft_commits_ordered)
        (record {
          leaders = h.leaders;
          raft_commits = put_ordered-Recorded w.commit_at index operation _ t h.raft_commits;
          primaries = h.primaries;
          pbft_commits = h.pbft_commits;
        })
  note_raft_commit-Agrees (some old) index operation a b h t =
      Agrees-if (old == operation) a _ h (report_error-Agrees _ _ a b h)

  note_pbft_commit-Agrees :
      (o : Option String) (sequence : ℕ) (operation : String) (a : Audit)
      → IsBounded n (memory a)
      → Agrees w (memory a)
      → operation ≡ w.operation_at sequence
      → Agrees w (memory (note_pbft_commit decimal o sequence operation a))
  unfolding note_pbft_commit
  note_pbft_commit-Agrees none sequence operation a b h t =
      trim-Agrees _ b.leaders_ordered b.raft_commits_ordered (record {
        leaders = h.leaders;
        raft_commits = h.raft_commits;
        primaries = h.primaries;
        pbft_commits = put_ordered-Recorded w.operation_at sequence operation _ t h.pbft_commits;
      })
  note_pbft_commit-Agrees (some old) sequence operation a b h t =
      Agrees-if (old == operation) a _ h (report_error-Agrees _ _ a b h)

  handle-Agrees :
      (m : Option AuditMessage) (a : Audit)
      → IsBounded n (memory a)
      → Agrees w (memory a)
      → Tells w m
      → Agrees w (memory (handle decimal m a))
  unfolding handle handle_raft_commit handle_leader_status handle_pbft_commit handle_primary_status
      reset_primary_alive_timer reset_leader_alive_timer
  handle-Agrees none a b h t = h
  handle-Agrees (some (raft_commit index operation)) a b h t =
      Agrees-if a.use_pbft a _ h
        (note_raft_commit-Agrees _ index operation _ (sent-IsBounded _ a b) (sent-Agrees _ a h) t)
  handle-Agrees (some (leader_status term leader log_index commit_index)) a b h t =
      Agrees-if a.use_pbft a _ h
        (Agrees-same _ _ (memory-handle_leader_data _ _) (note_leader-Agrees _ term leader a b h t))
  handle-Agrees (some (pbft_commit sender sequence operation)) a b h t =
      Agrees-if a.use_pbft _ a
        (note_pbft_commit-Agrees _ sequence operation _ (sent-IsBounded _ a b) (sent-Agrees _ a h)
          t)
        h
  handle-Agrees (some (primary_status view primary)) a b h t =
      Agrees-if a.use_pbft _ a (note_primary-Agrees _ view primary a b h t) h
  handle-Agrees (some (failure_detected sender)) a b h t =
      Agrees-same _ _ (memory-handle_failure_detected a) h

abbrev pub heard : List (Option AuditMessage) → List Event
heard [] = []
heard (m ∷ ms) = hears m ∷ heard ms

run_quiet :
    (decimal : ℕ → String) {w : World} {n : ℕ} (ms : List (Option AuditMessage)) (a : Audit)
    → IsBounded n (memory a)
    → Agrees w (memory a)
    → All (Tells w) ms
    → error_count (run decimal (heard ms) a) ≡ error_count a
unfolding run handle_event
run_quiet decimal [] a b h t = refl
run_quiet decimal {w} {n} (m ∷ ms) a b h t =
    run_quiet decimal {w = w} {n = n} ms (handle decimal m a)
      (handle_event-IsBounded decimal (hears m) a b) (handle-Agrees decimal m a b h t.0) t.1
    ∙ (error_count-handle decimal m a ∙ ap (λ c. counted c (error_count a)) (no_conflict m a h t.0))

-- An auditor of either mode that hears only messages which are true of one and the same course of events,
-- in any order and however often, reports no error.
pub error_count-run_quiet :
    (decimal : ℕ → String) (w : World) (uuid : String) (has_monitor use_pbft : Bool) (mem_size : ℕ)
    (ms : List (Option AuditMessage))
    → All (Tells w) ms
    → error_count (run decimal (heard ms) (new_audit uuid has_monitor mem_size use_pbft)) ≡ 0
unfolding error_count add64
error_count-run_quiet decimal w uuid has_monitor use_pbft mem_size ms t =
    run_quiet decimal {w = w} ms (new_audit uuid has_monitor mem_size use_pbft)
      (new_audit-IsBounded uuid has_monitor mem_size use_pbft)
      (record {
        leaders = λ k v found. absurd (ground (arith, lookup-nil {K = ℕ} {V = String} k));
        raft_commits = λ k v found. absurd (ground (arith, lookup-nil {K = ℕ} {V = String} k));
        primaries = λ k v found. absurd (ground (arith, lookup-nil {K = ℕ} {V = String} k));
        pbft_commits = λ k v found. absurd (ground (arith, lookup-nil {K = ℕ} {V = String} k));
      })
      t
