-- ===== src/Audit/Counts.antt =====
-- audit/audit.cpp: which messages are counted as errors.
use swarm_db.Base.{
  ℕ, ◌≡◌, refl, ◌∙◌, ap, Bool, true, false, not, ◌&&◌, Option, none, some, List, [], ◌∷◌, ◌++◌,
  String, length, arith, if◌then◌else◌, add64, length-append,
}
use swarm_db.Base.Equality.{◌==◌, nat_eq, string_eq}
use swarm_db.Base.Assoc.{lookup}
use swarm_db.Proto.{
  AuditMessage, raft_commit, leader_status, pbft_commit, primary_status, failure_detected,
}
use swarm_db.Audit.State.{
  Audit, error_count, forget_errors, trim, report_error, send_to_monitor, reset_primary_alive_timer,
  reset_leader_alive_timer,
}
use swarm_db.Audit.Handlers.{
  note_primary, handle_primary_status, note_leader, handle_leader_status, note_raft_commit,
  handle_raft_commit, note_pbft_commit, handle_pbft_commit, handle,
}
use swarm_db.Audit.Memory.{
  Memory, memory, memory-send_to_monitor, memory-handle_leader_data, memory-handle_failure_detected,
}

-- A record of the key, if there is one, that says something else.
abbrev pub differs : Option String → String → Bool
differs none s = false
differs (some old) s = not (old == s)

-- A message that contradicts what was recorded; those of the other mode are ignored.
abbrev pub is_conflict : Option AuditMessage → Audit → Bool
is_conflict none a = false
is_conflict (some (raft_commit index operation)) a =
    not a.use_pbft && differs (lookup index a.recorded_raft_commits) operation
is_conflict (some (leader_status term leader log_index commit_index)) a =
    not a.use_pbft && differs (lookup term a.recorded_leaders) leader
is_conflict (some (pbft_commit sender sequence operation)) a =
    a.use_pbft && differs (lookup sequence a.recorded_pbft_commits) operation
is_conflict (some (primary_status view primary)) a =
    a.use_pbft && differs (lookup view a.recorded_primaries) primary
is_conflict (some (failure_detected sender)) a = false

-- The number of errors is a matter of the memory.
abbrev errors_of : Memory → ℕ
errors_of m = add64 (length m.errors) m.forgotten

error_count-forget_errors :
    (n : ℕ) (es : List String) (forgotten : ℕ)
    → add64 (length (forget_errors n es forgotten).0) (forget_errors n es forgotten).1
      ≡ add64 (length es) forgotten
unfolding forget_errors add64
error_count-forget_errors n [] forgotten = refl
error_count-forget_errors n (e ∷ es) forgotten =
    ground (arith, error_count-forget_errors n es (add64 forgotten 1))

-- Trimming forgets texts of errors and not their number.
pub error_count-trim : (a : Audit) → error_count (trim a) ≡ error_count a
unfolding error_count trim
error_count-trim a = error_count-forget_errors a.mem_size a.recorded_errors a.forgotten_error_count

error_count_same : (a b : Audit) → memory a ≡ memory b → error_count a ≡ error_count b
unfolding error_count
error_count_same a b e = ap errors_of e

-- The count reads two fields alone.
error_count_fields :
    (a b : Audit)
    → a.recorded_errors ≡ b.recorded_errors
    → a.forgotten_error_count ≡ b.forgotten_error_count
    → error_count a ≡ error_count b
unfolding error_count
error_count_fields a b e f = rw (e, f) refl

error_count-push :
    (description : String) (a : Audit)
    → error_count (record a { recorded_errors = a.recorded_errors ++ description ∷ [] })
      ≡ add64 (error_count a) 1
unfolding error_count add64
error_count-push description a = omega (arith, length-append a.recorded_errors (description ∷ []))

error_count-report_error :
    (metric description : String) (a : Audit)
    → error_count (report_error metric description a) ≡ add64 (error_count a) 1
unfolding report_error
error_count-report_error metric description a =
    error_count-trim _
    ∙ (error_count_same _ _ (memory-send_to_monitor _ _) ∙ error_count-push description a)

-- One more error, if the test holds.
abbrev pub counted : Bool → ℕ → ℕ
counted conflict n = if conflict then add64 n 1 else n

error_count-if :
    (b : Bool) (a c : Audit)
    → error_count c ≡ add64 (error_count a) 1
    → error_count (if b then a else c) ≡ counted (not b) (error_count a)
error_count-if true a c h = refl
error_count-if false a c h = h

error_count-sent :
    (stat : String) (a : Audit) → error_count (send_to_monitor stat a) ≡ error_count a
error_count-sent stat a = error_count_same _ a (memory-send_to_monitor stat a)

error_count-unless :
    (b conflict : Bool) (a c : Audit)
    → error_count c ≡ counted conflict (error_count a)
    → error_count (if b then a else c) ≡ counted (not b && conflict) (error_count a)
error_count-unless true conflict a c h = refl
error_count-unless false conflict a c h = h

error_count-when :
    (b conflict : Bool) (a c : Audit)
    → error_count c ≡ counted conflict (error_count a)
    → error_count (if b then c else a) ≡ counted (b && conflict) (error_count a)
error_count-when true conflict a c h = h
error_count-when false conflict a c h = refl

module _ (decimal : ℕ → String) where
  error_count-note_primary :
      (o : Option String) (view : ℕ) (primary : String) (a : Audit)
      → error_count (note_primary decimal o view primary a)
        ≡ counted (differs o primary) (error_count a)
  unfolding note_primary
  error_count-note_primary none view primary a =
      error_count-trim _ ∙ (error_count_fields _ _ refl refl ∙ error_count-sent _ a)
  error_count-note_primary (some old) view primary a =
      error_count-if (old == primary) a _ (error_count-report_error _ _ a)

  error_count-note_leader :
      (o : Option String) (term : ℕ) (leader : String) (a : Audit)
      → error_count (note_leader decimal o term leader a)
        ≡ counted (differs o leader) (error_count a)
  unfolding note_leader
  error_count-note_leader none term leader a =
      error_count-trim _ ∙ (error_count_fields _ _ refl refl ∙ error_count-sent _ a)
  error_count-note_leader (some old) term leader a =
      error_count-if (old == leader) a _ (error_count-report_error _ _ a)

  error_count-note_raft_commit :
      (o : Option String) (index : ℕ) (operation : String) (a : Audit)
      → error_count (note_raft_commit decimal o index operation a)
        ≡ counted (differs o operation) (error_count a)
  unfolding note_raft_commit
  error_count-note_raft_commit none index operation a =
      error_count-trim _ ∙ error_count_fields _ _ refl refl
  error_count-note_raft_commit (some old) index operation a =
      error_count-if (old == operation) a _ (error_count-report_error _ _ a)

  error_count-note_pbft_commit :
      (o : Option String) (sequence : ℕ) (operation : String) (a : Audit)
      → error_count (note_pbft_commit decimal o sequence operation a)
        ≡ counted (differs o operation) (error_count a)
  unfolding note_pbft_commit
  error_count-note_pbft_commit none sequence operation a =
      error_count-trim _ ∙ error_count_fields _ _ refl refl
  error_count-note_pbft_commit (some old) sequence operation a =
      error_count-if (old == operation) a _ (error_count-report_error _ _ a)

  -- A message counts one more error exactly if it contradicts what was recorded of the same term, index,
  -- sequence number or view, in the auditor's own mode; otherwise the number of errors stays.
  pub error_count-handle :
      (m : Option AuditMessage) (a : Audit)
      → error_count (handle decimal m a) ≡ counted (is_conflict m a) (error_count a)
  unfolding handle handle_raft_commit handle_leader_status handle_pbft_commit handle_primary_status
      reset_primary_alive_timer reset_leader_alive_timer
  error_count-handle none a = refl
  error_count-handle (some (raft_commit index operation)) a =
      let o = lookup index a.recorded_raft_commits in
      error_count-unless a.use_pbft (differs o operation) a _ (
        error_count-note_raft_commit o index operation _
        ∙ ap (counted (differs o operation)) (error_count-sent _ a))
  error_count-handle (some (leader_status term leader log_index commit_index)) a =
      let o = lookup term a.recorded_leaders in
      error_count-unless a.use_pbft (differs o leader) a _ (
        error_count_same _ (reset_leader_alive_timer (note_leader decimal o term leader a))
          (memory-handle_leader_data _ _)
        ∙ (error_count_fields _ _ refl refl ∙ error_count-note_leader o term leader a))
  error_count-handle (some (pbft_commit sender sequence operation)) a =
      let o = lookup sequence a.recorded_pbft_commits in
      error_count-when a.use_pbft (differs o operation) a _ (
        error_count-note_pbft_commit o sequence operation _
        ∙ ap (counted (differs o operation)) (error_count-sent _ a))
  error_count-handle (some (primary_status view primary)) a =
      let o = lookup view a.recorded_primaries in
      error_count-when a.use_pbft (differs o primary) a _
        (error_count_fields _ _ refl refl ∙ error_count-note_primary o view primary a)
  error_count-handle (some (failure_detected sender)) a =
      error_count_same _ a (memory-handle_failure_detected a)
