-- ===== src/Audit/Recorded.antt =====
-- audit/audit.cpp: what is recorded is what messages told, and a message that agrees with it is no
-- conflict.
use swarm_db.Base.{ℕ, ◌≡◌, refl, false, Option, none, some, String, arith, Option-cases, inl, inr}
use swarm_db.Base.Equality.{nat_eq, string_eq, ==_refl}
use swarm_db.Base.Assoc.{Assoc, lookup}
use swarm_db.Base.Assoc.Ordered.{
  IsOrdered, put_ordered, erase_lowest, lookup-put_ordered, lookup-erase_lowest,
}
use swarm_db.Proto.{
  AuditMessage, raft_commit, leader_status, pbft_commit, primary_status, failure_detected,
}
use swarm_db.Audit.State.{Audit, trim}
use swarm_db.Audit.Memory.{Memory, memory}
use swarm_db.Audit.Counts.{differs, is_conflict}

-- What is the case: who leads each term, what is committed at each index and sequence number, and which
-- peer is the primary of each view.
pub record World : Type 0 where
  pub leader_of : ℕ → String
  pub commit_at : ℕ → String
  pub operation_at : ℕ → String
  pub primary_of : ℕ → String

-- A message tells of it.
abbrev pub Tells : World → Option AuditMessage → Type 0
Tells w none = Unit {0}
Tells w (some (raft_commit index operation)) = operation ≡ w.commit_at index
Tells w (some (leader_status term leader log_index commit_index)) = leader ≡ w.leader_of term
Tells w (some (pbft_commit sender sequence operation)) = operation ≡ w.operation_at sequence
Tells w (some (primary_status view primary)) = primary ≡ w.primary_of view
Tells w (some (failure_detected sender)) = Unit

-- What is recorded is the case.
abbrev pub Recorded : (ℕ → String) → Assoc ℕ String → Type 0
Recorded f m = (k : ℕ) (v : String) → lookup k m ≡ some v → v ≡ f k

pub record Agrees (w : World) (m : Memory) : Type 0 where
  pub leaders : Recorded w.leader_of m.leaders
  pub raft_commits : Recorded w.commit_at m.raft_commits
  pub primaries : Recorded w.primary_of m.primaries
  pub pbft_commits : Recorded w.operation_at m.pbft_commits

pub put_ordered-Recorded :
    (f : ℕ → String) (k : ℕ) (v : String) (m : Assoc ℕ String)
    → v ≡ f k
    → Recorded f m
    → Recorded f (put_ordered k v m)
put_ordered-Recorded f k v m e h j u found =
    ground (arith, lookup-put_ordered k j v m, found, h j u)

erase_lowest-Recorded :
    (f : ℕ → String) (n : ℕ) (m : Assoc ℕ String)
    → IsOrdered m
    → Recorded f m
    → Recorded f (erase_lowest n m)
erase_lowest-Recorded f n m o h k v found = h k v (lookup-erase_lowest n k v m o found)

pub trim-Agrees :
    {w : World} (a : Audit)
    → IsOrdered a.recorded_leaders
    → IsOrdered a.recorded_raft_commits
    → Agrees w (memory a)
    → Agrees w (memory (trim a))
unfolding trim
trim-Agrees {w} a l c h = record {
  leaders = erase_lowest-Recorded w.leader_of a.mem_size a.recorded_leaders l h.leaders;
  raft_commits =
      erase_lowest-Recorded w.commit_at a.mem_size a.recorded_raft_commits c h.raft_commits;
  primaries = h.primaries;
  pbft_commits = h.pbft_commits;
}

pub Agrees-same : {w : World} (m m' : Memory) → m ≡ m' → Agrees w m' → Agrees w m
Agrees-same m m' e h = rw e h

-- What is recorded does not differ from what is told.
Recorded-same :
    (f : ℕ → String) (k : ℕ) (v : String) (m : Assoc ℕ String)
    → Recorded f m
    → v ≡ f k
    → differs (lookup k m) v ≡ false
Recorded-same f k v m h e = elim (Option-cases (lookup k m)) [
  | inl n ↦ rw n refl
  | inr (old, o) ↦ rw (o, h k old o, e, ==_refl (f k)) refl
]

pub no_conflict :
    {w : World} (m : Option AuditMessage) (a : Audit)
    → Agrees w (memory a)
    → Tells w m
    → is_conflict m a ≡ false
no_conflict none a h t = refl
no_conflict {w} (some (raft_commit index operation)) a h t =
    ground
      (arith, Recorded-same w.commit_at index operation a.recorded_raft_commits h.raft_commits t)
no_conflict {w} (some (leader_status term leader log_index commit_index)) a h t =
    ground (arith, Recorded-same w.leader_of term leader a.recorded_leaders h.leaders t)
no_conflict {w} (some (pbft_commit sender sequence operation)) a h t = ground (
  arith,
  Recorded-same w.operation_at sequence operation a.recorded_pbft_commits h.pbft_commits t,
)
no_conflict {w} (some (primary_status view primary)) a h t =
    ground (arith, Recorded-same w.primary_of view primary a.recorded_primaries h.primaries t)
no_conflict (some (failure_detected sender)) a h t = refl
