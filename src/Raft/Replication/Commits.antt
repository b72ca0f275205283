-- ===== src/Raft/Replication/Commits.antt =====
-- raft/raft.cpp: the loop by which a leader commits what a majority has.
use swarm_db.Base.{
  ℕ, zero, suc, ◌+◌, ◌%◌, ◌≤◌, ◌<◌, ◌≡◌, refl, sym, subst, ◌∙◌, ap, Bool, true, ◌&&◌, All,
  All-append, some, List, [], ◌∷◌, ◌++◌, String, length, length-append, is_some, arith, Bool-cases,
  inl, inr,
}
use mathlib.Core.List.{append-nil, append_assoc}
use swarm_db.Raft.Log.{
  LogEntryType, EntryMessage, LogEntry, RaftLog, size, find_last, last_quorum_entry,
  append_log_disk, leader_append_entry,
}
use swarm_db.Raft.Quorum.{create_single_quorum_from_joint_quorum}
use swarm_db.Raft.State.{commits, Raft, u32_mod, output, is_leader, append_log_unsafe}
use swarm_db.Raft.Replication.{is_joint, complete_change, perform_commit, commit_while}
use swarm_db.Raft.Replication.Handed.{
  Addressed, get_elem?-All, committed, messages_from, committed-append, HasQuorum,
  notify_commit-Quiet, get_elem?_below, messages_from_step, messages_from-append, find_last_some,
}

module _ (entry_size : LogEntry → ℕ) (is_ipv4 : String → Bool) where
  -- What the completion of a change of the peers leaves.
  record Completed (r r' : Raft) : Type 0 where
    index : r'.commit_index ≡ r.commit_index
    outputs : r'.outputs ≡ r.outputs
    more : List LogEntry
    extended : r'.raft_log.log_entries ≡ r.raft_log.log_entries ++ more
    addressed : All (Addressed is_ipv4) more

  same-Completed : (r : Raft) → Completed r r
  same-Completed r = record {
    index = refl;
    outputs = refl;
    more = [];
    extended = sym (append-nil r.raft_log.log_entries);
    addressed = tt;
  }

  append_log_disk_kept :
      (e : LogEntry) (log : RaftLog)
      → (append_log_disk entry_size e log).log_entries ≡ log.log_entries
  unfolding append_log_disk
  append_log_disk_kept e log = ground arith

  append_log_unsafe-Completed :
      (m : EntryMessage) (t : LogEntryType) (r : Raft)
      → ((e : LogEntry) → e.msg ≡ m → Addressed is_ipv4 e)
      → Completed r (append_log_unsafe entry_size m t r).0
  unfolding append_log_unsafe leader_append_entry
  append_log_unsafe-Completed m t r a =
      let e : LogEntry = record {
        entry_type = t;
        log_index = size r.raft_log % u32_mod;
        term = r.current_term;
        msg = m;
      } in
      elim (Bool-cases (is_leader r)) [
        | inr other ↦ rw other (same-Completed r)
        | inl leads ↦ rw leads (record {
          index = refl;
          outputs = refl;
          more = e ∷ [];
          extended = append_log_disk_kept e _;
          addressed = (a e refl, tt);
        })
      ]

  completed-Addressed :
      (e f : LogEntry)
      → Addressed is_ipv4 e
      → f.msg ≡ create_single_quorum_from_joint_quorum e.msg
      → Addressed is_ipv4 f
  unfolding create_single_quorum_from_joint_quorum
  completed-Addressed e f a same = record {
    single = rw same a.new;
    old = rw same tt;
    new = rw same tt;
  }

  complete_change-Completed :
      (e : LogEntry) (r : Raft) → Addressed is_ipv4 e → Completed r (complete_change entry_size e r)
  unfolding complete_change
  complete_change-Completed e r a = elim (Bool-cases (is_leader r && is_joint e.entry_type)) [
    | inr no_change ↦ rw no_change (same-Completed r)
    | inl change ↦
        rw change (append_log_unsafe-Completed _ _ r λ f same. completed-Addressed e f a same)
  ]

module _ (entry_size : LogEntry → ℕ) (to_text : EntryMessage → String)
    (is_ipv4 : String → Bool) where
  -- What one commit leaves.
  record Committed (e : LogEntry) (r r' : Raft) : Type 0 where
    done : perform_commit entry_size to_text is_ipv4 e r ≡ some r'
    index : r'.commit_index ≡ r.commit_index + 1
    handed : committed r'.outputs ≡ committed r.outputs ++ e.msg ∷ []
    more : List LogEntry
    extended : r'.raft_log.log_entries ≡ r.raft_log.log_entries ++ more
    quorum : HasQuorum r'.raft_log
    addressed : All (Addressed is_ipv4) r'.raft_log.log_entries

  perform_commit_lem :
      (e : LogEntry) (r : Raft)
      → HasQuorum r.raft_log
      → All (Addressed is_ipv4) r.raft_log.log_entries
      → Addressed is_ipv4 e
      → r.commit_index + 1 < u32_mod
      → (r' : Raft) × Committed e r r'
  unfolding perform_commit last_quorum_entry
  perform_commit_lem e r h a own small =
      let (s, told, q) = notify_commit-Quiet is_ipv4 r.commit_index (to_text e.msg) r h a in
      let t : Raft = record (output (commits e.msg) s) {
        commit_index = (s.commit_index + 1) % u32_mod;
      } in
      let c = complete_change-Completed entry_size is_ipv4 e t own in
      let longer : (complete_change entry_size e t).raft_log.log_entries
          ≡ r.raft_log.log_entries ++ c.more =
        c.extended ∙ ap (λ l. l.log_entries ++ c.more) q.log in
      (
        complete_change entry_size e t,
        record {
          done = rw told refl;
          index = c.index ∙ omega (arith, q.index);
          handed =
              ap committed c.outputs
              ∙ (committed-append s.outputs (commits e.msg ∷ [])
                  ∙ ap (λ ms. ms ++ e.msg ∷ []) q.handed);
          more = c.more;
          extended = longer;
          quorum =
              subst (λ es. is_some (find_last es) ≡ true) (sym longer)
                (find_last_some r.raft_log.log_entries c.more h);
          addressed =
              subst (All (Addressed is_ipv4)) (sym longer)
                (All-append (Addressed is_ipv4) r.raft_log.log_entries c.more a c.addressed);
        },
      )

  -- A leader whose log names a quorum, gives IPv4 addresses as the hosts of all peers and has all entries below the index commits, from its commit index
  -- on, every entry below the index, each once and in the order of the log, and ends with the index as
  -- its commit index; no entry of its log is changed or lost. The rounds are enough, and nothing is
  -- thrown.
  pub commit_while_lem :
      (n last : ℕ) (r : Raft)
      → HasQuorum r.raft_log
      → All (Addressed is_ipv4) r.raft_log.log_entries
      → r.commit_index + n ≡ last
      → last ≤ size r.raft_log
      → last < u32_mod
      → (r' : Raft) × (commit_while entry_size to_text is_ipv4 n last r ≡ some r')
        × (r'.commit_index ≡ last)
        × (committed r'.outputs
            ≡ committed r.outputs ++ messages_from r.commit_index n r.raft_log.log_entries)
        × ((more : List LogEntry) × (r'.raft_log.log_entries ≡ r.raft_log.log_entries ++ more))
  unfolding commit_while
  commit_while_lem zero last r h a at_end le small = (
    r,
    refl,
    omega (arith, at_end),
    sym (append-nil (committed r.outputs)),
    ([], sym (append-nil r.raft_log.log_entries)),
  )
  commit_while_lem (suc n) last r h a at_end le small =
      let (e, found) =
        get_elem?_below r.raft_log.log_entries r.commit_index (omega (arith, at_end)) in
      let own = get_elem?-All (Addressed is_ipv4) r.raft_log.log_entries r.commit_index e found a in
      let (s, c) = perform_commit_lem e r h a own (omega (arith, at_end)) in
      let longer : size s.raft_log ≡ size r.raft_log + length c.more =
        ap length c.extended ∙ length-append r.raft_log.log_entries c.more in
      let (r', ran, index, handed, (rest, extended)) =
        commit_while_lem n last s c.quorum c.addressed (omega (arith, c.index, at_end))
          (omega (arith, longer, le)) small in
      let next : s.commit_index ≡ suc r.commit_index = omega (arith, c.index) in
      let tail : messages_from s.commit_index n s.raft_log.log_entries
          ≡ messages_from (suc r.commit_index) n r.raft_log.log_entries =
        ap (λ k. messages_from k n s.raft_log.log_entries) next
        ∙ (ap (λ es. messages_from (suc r.commit_index) n es) c.extended
            ∙ messages_from-append (suc r.commit_index) n r.raft_log.log_entries c.more
                (omega (arith, at_end, le))) in
      (
        r',
        ground (arith, found, c.done, ran, at_end),
        index,
        handed
            ∙ rw
                (
                  c.handed,
                  tail,
                  messages_from_step r.commit_index n r.raft_log.log_entries e found,
                  append_assoc,
                )
                refl,
        (
          c.more ++ rest,
          extended
              ∙ (ap (λ es. es ++ rest) c.extended
                  ∙ append_assoc r.raft_log.log_entries c.more rest),
        ),
      )
