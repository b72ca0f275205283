-- ===== src/Raft/Log/Sync.antt =====
-- raft/raft_log.cpp: when the file holds the entries in memory, and what a follower's log accepts.
use swarm_db.Base.{
  ℕ, zero, suc, ◌+◌, ◌<◌, ◌≡◌, ◌≢◌, refl, true, none, some, List, [], ◌∷◌, ◌++◌, length,
  length-append, get_elem?, u64_mod, arith, Option-cases, inl, inr,
}
use swarm_db.Raft.Log.{
  LogEntry, closed, attached, detached, RaftLog, entry_at, size, entry_accepted, bytes_of,
  new_raft_log, append_log_disk, leader_append_entry, append_all, remove_file, rewrite_log,
  entries_before, follower_insert_entry,
}

module _ (entry_size : LogEntry → ℕ) where
  -- The file holds the entries, there is one at least, the stream does not write elsewhere, and the
  -- memory is counted.
  pub record IsInSync (log : RaftLog) : Type 0 where
    pub nonempty : 0 < size log
    pub same : log.file ≡ some log.log_entries
    pub here : log.log_entry_out_stream ≢ detached
    pub used : log.total_memory_used ≡ bytes_of entry_size log.log_entries

  bytes_of-append :
      (es : List LogEntry) (e : LogEntry)
      → bytes_of entry_size (es ++ e ∷ []) ≡ bytes_of entry_size es + entry_size e
  unfolding bytes_of
  bytes_of-append [] e = omega arith
  bytes_of-append (f ∷ es) e = omega (arith, bytes_of-append es e)

  -- One more entry, in memory and in the file.
  append-IsInSync :
      (e : LogEntry) (log : RaftLog)
      → IsInSync log
      → IsInSync
          (append_log_disk entry_size e (record log { log_entries = log.log_entries ++ e ∷ [] }))
  unfolding append_log_disk
  append-IsInSync e log h = record {
    nonempty = ground (arith, length-append log.log_entries (e ∷ []));
    same = ground (arith, h.same, h.here);
    here = ground (arith, h.here);
    used = ground (arith, h.same, h.here, h.used, bytes_of-append log.log_entries e);
  }

  new_raft_log-some :
      (es : List LogEntry) (maximum_storage : ℕ)
      → 0 < length es
      → new_raft_log entry_size (some es) maximum_storage
        ≡ some (record {
          log_entries = es;
          total_memory_used = bytes_of entry_size es;
          maximum_storage = maximum_storage;
          log_entry_out_stream = closed;
          file = some es;
        })
  unfolding new_raft_log
  new_raft_log-some [] maximum_storage h = absurd (omega arith)
  new_raft_log-some (e ∷ es) maximum_storage h = refl

  leader_append_entry-IsInSync :
      (e : LogEntry) (log : RaftLog)
      → IsInSync log
      → IsInSync (leader_append_entry entry_size e log)
  unfolding leader_append_entry
  leader_append_entry-IsInSync e log h = append-IsInSync e log h

  append_log_disk_entries :
      (e : LogEntry) (log : RaftLog)
      → (append_log_disk entry_size e log).log_entries ≡ log.log_entries
  unfolding append_log_disk
  append_log_disk_entries e log = ground arith

  leader_append_entry_entries :
      (e : LogEntry) (log : RaftLog)
      → (leader_append_entry entry_size e log).log_entries ≡ log.log_entries ++ e ∷ []
  unfolding leader_append_entry
  leader_append_entry_entries e log = append_log_disk_entries e _

  get_elem?-lt :
      (es : List LogEntry) (i : ℕ) (e : LogEntry) → get_elem? es i ≡ some e → i < length es
  get_elem?-lt [] i e h = absurd (ground arith)
  get_elem?-lt (f ∷ es) zero e h = omega arith
  get_elem?-lt (f ∷ es) (suc i) e h = omega (arith, get_elem?-lt es i e h)

  -- What is accepted names the last entry and its term.
  pub entry_accepted_last :
      (i t : ℕ) (log : RaftLog)
      → 0 < size log
      → size log < u64_mod
      → entry_accepted i t log ≡ some true
      → (i + 1 ≡ size log) × ((e : LogEntry) → entry_at log i ≡ some e → e.term ≡ t)
  unfolding entry_accepted
  entry_accepted_last i t log pos small accepted = elim (Option-cases (entry_at log i)) [
    | inl n ↦ absurd (ground (arith, n, accepted))
    | inr (e, found) ↦
        let lt = get_elem?-lt log.log_entries i e found in
        (ground (arith, lt, found, accepted), λ f g. ground (arith, g, found, accepted))
  ]

  append_all_detached :
      (es : List LogEntry) (log : RaftLog)
      → log.log_entry_out_stream ≡ detached
      → ((append_all entry_size es log).log_entry_out_stream ≡ detached)
        × ((append_all entry_size es log).file ≡ log.file)
        × ((append_all entry_size es log).log_entries ≡ log.log_entries)
  unfolding append_all append_log_disk
  append_all_detached [] log d = (d, refl, refl)
  append_all_detached (e ∷ es) log d =
      let n = append_log_disk entry_size e log in ground (arith, append_all_detached es n, d)

  -- A follower whose stream is open and whose entry at the index has another term takes the new entry
  -- into memory in place of that one and of all behind it, and is left with no file of its log.
  pub follower_insert_entry-conflict :
      (index : ℕ) (e old : LogEntry) (log : RaftLog)
      → log.log_entry_out_stream ≡ attached
      → entry_at log index ≡ some old
      → e.term ≢ old.term
      → (log' : RaftLog) × (follower_insert_entry entry_size index e log ≡ some log')
        × (log'.log_entries ≡ entries_before index log.log_entries ++ e ∷ [])
        × (log'.file ≡ none)
  unfolding follower_insert_entry rewrite_log remove_file append_log_disk
  follower_insert_entry-conflict index e old log a found differ =
      let kept = record log { log_entries = entries_before index log.log_entries ++ e ∷ [] } in
      let gone = remove_file kept in
      let all = append_all_detached kept.log_entries gone (ground (arith, a)) in
      (
        append_log_disk entry_size e (rewrite_log entry_size kept),
        ground (arith, found, differ),
        ground (arith, all.0, all.2),
        ground (arith, all.0, all.1),
      )
