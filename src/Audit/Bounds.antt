-- ===== src/Audit/Bounds.antt =====
-- audit/audit.cpp: the memory that `trim` looks at stays within the size, whatever the auditor hears.
use swarm_db.Base.{
  ℕ, ◌*◌, ◌≤◌, ◌≡◌, refl, sym, subst, Bool, true, false, Option, none, some, List, [], ◌∷◌, ◌++◌,
  String, length, arith, if◌then◌else◌, add64,
}
use swarm_db.Base.Equality.{◌==◌, nat_eq, string_eq}
use swarm_db.Base.Assoc.Ordered.{
  IsOrdered, put_ordered-IsOrdered, erase_lowest-IsOrdered, length-erase_lowest,
}
use swarm_db.Proto.{
  AuditMessage, raft_commit, leader_status, pbft_commit, primary_status, failure_detected,
}
use swarm_db.Audit.State.{
  Audit, new_audit, current_memory_size, forget_errors, trim, report_error, send_to_monitor,
  reset_primary_alive_timer, reset_leader_alive_timer, clear_leader_progress_timer,
}
use swarm_db.Audit.Handlers.{
  handle_leader_alive_timeout, handle_primary_alive_timeout, handle_leader_progress_timeout,
  note_primary, handle_primary_status, note_leader, handle_leader_status, note_raft_commit,
  handle_raft_commit, note_pbft_commit, handle_pbft_commit, handle,
}
use swarm_db.Audit.Events.{
  Event, starts, hears, leader_timeout, primary_timeout, progress_timeout, handle_event, run,
}
use swarm_db.Audit.Memory.{
  Memory, memory, memory-send_to_monitor, memory-handle_leader_data, memory-start,
  memory-handle_failure_detected,
}

-- The size is this one, the maps are in their order, and the three lists that `trim` looks at are no longer than the size.
pub record IsBounded (n : ℕ) (m : Memory) : Type 0 where
  pub size : m.mem_size ≡ n
  pub errors : length m.errors ≤ m.mem_size
  pub leaders : length m.leaders ≤ m.mem_size
  pub raft_commits : length m.raft_commits ≤ m.mem_size
  pub leaders_ordered : IsOrdered m.leaders
  pub raft_commits_ordered : IsOrdered m.raft_commits
  pub primaries_ordered : IsOrdered m.primaries
  pub pbft_commits_ordered : IsOrdered m.pbft_commits

length-forget_errors :
    (n : ℕ) (es : List String) (forgotten : ℕ) → length (forget_errors n es forgotten).0 ≤ n
unfolding forget_errors
length-forget_errors n [] forgotten = omega arith
length-forget_errors n (e ∷ es) forgotten =
    ground (arith, length-forget_errors n es (add64 forgotten 1))

-- `trim` makes the bounds true, of whatever lengths.
trim-IsBounded :
    {n : ℕ} (a : Audit)
    → a.mem_size ≡ n
    → IsOrdered a.recorded_leaders
    → IsOrdered a.recorded_raft_commits
    → IsOrdered a.recorded_primaries
    → IsOrdered a.recorded_pbft_commits
    → IsBounded n (memory (trim a))
unfolding trim
trim-IsBounded a e l c p q = record {
  size = e;
  errors = length-forget_errors a.mem_size a.recorded_errors a.forgotten_error_count;
  leaders = omega (arith, length-erase_lowest a.mem_size a.recorded_leaders);
  raft_commits = omega (arith, length-erase_lowest a.mem_size a.recorded_raft_commits);
  leaders_ordered = erase_lowest-IsOrdered a.mem_size a.recorded_leaders l;
  raft_commits_ordered = erase_lowest-IsOrdered a.mem_size a.recorded_raft_commits c;
  primaries_ordered = p;
  pbft_commits_ordered = q;
}

-- Bounds are a matter of the memory.
IsBounded-same : {n : ℕ} (m m' : Memory) → m ≡ m' → IsBounded n m' → IsBounded n m
IsBounded-same m m' e h = rw e h

sent-IsBounded :
    {n : ℕ} (stat : String) (a : Audit)
    → IsBounded n (memory a)
    → IsBounded n (memory (send_to_monitor stat a))
sent-IsBounded stat a h = IsBounded-same _ (memory a) (memory-send_to_monitor stat a) h

report_error-IsBounded :
    {n : ℕ} (metric description : String) (a : Audit)
    → IsBounded n (memory a)
    → IsBounded n (memory (report_error metric description a))
unfolding report_error
report_error-IsBounded {n} metric description a h =
    let b : Audit = record a { recorded_errors = a.recorded_errors ++ description ∷ [] } in
    let e = memory-send_to_monitor _ b in
    trim-IsBounded _ (subst (λ m. m.mem_size ≡ n) (sym e) h.size)
      (subst (λ m. IsOrdered m.leaders) (sym e) h.leaders_ordered)
      (subst (λ m. IsOrdered m.raft_commits) (sym e) h.raft_commits_ordered)
      (subst (λ m. IsOrdered m.primaries) (sym e) h.primaries_ordered)
      (subst (λ m. IsOrdered m.pbft_commits) (sym e) h.pbft_commits_ordered)

IsBounded-if :
    {n : ℕ} (b : Bool) (x y : Audit)
    → IsBounded n (memory x)
    → IsBounded n (memory y)
    → IsBounded n (memory (if b then x else y))
IsBounded-if true x y p q = p
IsBounded-if false x y p q = q

module _ (decimal : ℕ → String) {n : ℕ} where
  note_primary-IsBounded :
      (o : Option String) (view : ℕ) (primary : String) (a : Audit)
      → IsBounded n (memory a)
      → IsBounded n (memory (note_primary decimal o view primary a))
  unfolding note_primary
  note_primary-IsBounded none view primary a h =
      let k = sent-IsBounded _ a h in
      trim-IsBounded _ k.size k.leaders_ordered k.raft_commits_ordered
        (put_ordered-IsOrdered view primary _ k.primaries_ordered) k.pbft_commits_ordered
  note_primary-IsBounded (some old) view primary a h =
      IsBounded-if (old == primary) a _ h (report_error-IsBounded _ _ a h)

  note_leader-IsBounded :
      (o : Option String) (term : ℕ) (leader : String) (a : Audit)
      → IsBounded n (memory a)
      → IsBounded n (memory (note_leader decimal o term leader a))
  unfolding note_leader
  note_leader-IsBounded none term leader a h =
      let k = sent-IsBounded _ a h in
      trim-IsBounded _ k.size (put_ordered-IsOrdered term leader _ k.leaders_ordered)
        k.raft_commits_ordered k.primaries_ordered k.pbft_commits_ordered
  note_leader-IsBounded (some old) term leader a h =
      IsBounded-if (old == leader) a _ h (report_error-IsBounded _ _ a h)

  note_raft_commit-IsBounded :
      (o : Option String) (index : ℕ) (operation : String) (a : Audit)
      → IsBounded n (memory a)
      → IsBounded n (memory (note_raft_commit decimal o index operation a))
  unfolding note_raft_commit
  note_raft_commit-IsBounded none index operation a h =
      trim-IsBounded _ h.size h.leaders_ordered
        (put_ordered-IsOrdered index operation _ h.raft_commits_ordered) h.primaries_ordered
        h.pbft_commits_ordered
  note_raft_commit-IsBounded (some old) index operation a h =
      IsBounded-if (old == operation) a _ h (report_error-IsBounded _ _ a h)

  note_pbft_commit-IsBounded :
      (o : Option String) (sequence : ℕ) (operation : String) (a : Audit)
      → IsBounded n (memory a)
      → IsBounded n (memory (note_pbft_commit decimal o sequence operation a))
  unfolding note_pbft_commit
  note_pbft_commit-IsBounded none sequence operation a h =
      trim-IsBounded _ h.size h.leaders_ordered h.raft_commits_ordered h.primaries_ordered
        (put_ordered-IsOrdered sequence operation _ h.pbft_commits_ordered)
  note_pbft_commit-IsBounded (some old) sequence operation a h =
      IsBounded-if (old == operation) a _ h (report_error-IsBounded _ _ a h)

  handle-IsBounded :
      (m : Option AuditMessage) (a : Audit)
      → IsBounded n (memory a)
      → IsBounded n (memory (handle decimal m a))
  unfolding handle handle_raft_commit handle_leader_status handle_pbft_commit handle_primary_status
      reset_primary_alive_timer reset_leader_alive_timer
  handle-IsBounded none a h = h
  handle-IsBounded (some (raft_commit index operation)) a h =
      IsBounded-if a.use_pbft a _ h
        (note_raft_commit-IsBounded _ index operation _ (sent-IsBounded _ a h))
  handle-IsBounded (some (leader_status term leader log_index commit_index)) a h =
      IsBounded-if a.use_pbft a _ h (
        IsBounded-same _ _ (memory-handle_leader_data _ _)
          (note_leader-IsBounded _ term leader a h))
  handle-IsBounded (some (pbft_commit sender sequence operation)) a h =
      IsBounded-if a.use_pbft _ a
        (note_pbft_commit-IsBounded _ sequence operation _ (sent-IsBounded _ a h)) h
  handle-IsBounded (some (primary_status view primary)) a h =
      IsBounded-if a.use_pbft _ a (note_primary-IsBounded _ view primary a h) h
  handle-IsBounded (some (failure_detected sender)) a h =
      IsBounded-same _ _ (memory-handle_failure_detected a) h

  -- Every start, message and timeout keeps the size, the maps in their order and the errors, leaders and commits
  -- of Raft within the size.
  pub handle_event-IsBounded :
      (e : Event) (a : Audit)
      → IsBounded n (memory a)
      → IsBounded n (memory (handle_event decimal e a))
  unfolding handle_event handle_leader_alive_timeout handle_primary_alive_timeout
      handle_leader_progress_timeout clear_leader_progress_timer
  handle_event-IsBounded starts a h = IsBounded-same _ _ (memory-start a) h
  handle_event-IsBounded (hears m) a h = handle-IsBounded m a h
  handle_event-IsBounded (leader_timeout true) a h = h
  handle_event-IsBounded (leader_timeout false) a h = report_error-IsBounded _ _ _ h
  handle_event-IsBounded (primary_timeout true) a h = h
  handle_event-IsBounded (primary_timeout false) a h = report_error-IsBounded _ _ _ h
  handle_event-IsBounded (progress_timeout true) a h = h
  handle_event-IsBounded (progress_timeout false) a h = report_error-IsBounded _ _ _ h

  run-IsBounded :
      (es : List Event) (a : Audit)
      → IsBounded n (memory a)
      → IsBounded n (memory (run decimal es a))
  unfolding run
  run-IsBounded [] a h = h
  run-IsBounded (e ∷ es) a h =
      run-IsBounded es (handle_event decimal e a) (handle_event-IsBounded e a h)

pub new_audit-IsBounded :
    (uuid : String) (has_monitor : Bool) (mem_size : ℕ) (use_pbft : Bool)
    → IsBounded mem_size (memory (new_audit uuid has_monitor mem_size use_pbft))
new_audit-IsBounded uuid has_monitor mem_size use_pbft = record {
  size = refl;
  errors = omega arith;
  leaders = omega arith;
  raft_commits = omega arith;
  leaders_ordered = tt;
  raft_commits_ordered = tt;
  primaries_ordered = tt;
  pbft_commits_ordered = tt;
}

-- Whatever happens to a new auditor, it holds at most three times its size of errors, leaders and commits
-- of Raft.
pub current_memory_size-run :
    (decimal : ℕ → String) (uuid : String) (has_monitor use_pbft : Bool) (mem_size : ℕ)
    (es : List Event)
    → current_memory_size (run decimal es (new_audit uuid has_monitor mem_size use_pbft))
      ≤ 3 * mem_size
unfolding current_memory_size
current_memory_size-run decimal uuid has_monitor use_pbft mem_size es =
    let b : IsBounded mem_size
        (memory (run decimal es (new_audit uuid has_monitor mem_size use_pbft))) =
      run-IsBounded decimal es (new_audit uuid has_monitor mem_size use_pbft)
        (new_audit-IsBounded uuid has_monitor mem_size use_pbft) in
    omega (arith, b.size, b.errors, b.leaders, b.raft_commits)
