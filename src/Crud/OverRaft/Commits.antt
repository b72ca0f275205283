-- ===== src/Crud/OverRaft/Commits.antt =====
-- What the commits of crud/raft_crud.cpp leave, against the storage that raft/raft.cpp rebuilds from its log.
use swarm_db.Base.{ℕ, ◌≡◌, refl, Bool, some, List, [], ◌∷◌, String, All}
use swarm_db.Proto.{DatabaseMsg, DatabaseCommand}
use swarm_db.Storage.{
  StorageResult, ok, not_found, exists, not_saved, value_too_large, key_too_large, MemStorage,
  create, update, remove,
}
use swarm_db.Raft.Log.{LogEntry, EntryMessage, no_message, command, single_peers, joint_peers}
use swarm_db.Raft.Quorum.{deduce_type_from_message}
use swarm_db.Raft.Recovery.{
  Decoded, not_parsed, other_case, db, store_command, store_decoded, store_entry,
  initialize_storage_from_log,
}
use swarm_db.Crud.Subscriptions.{Session}
use swarm_db.Crud.OverRaft.{
  RaftCrud, is_ok, commit_create, commit_update, commit_delete, commit_command, commit_decoded,
  handle_commit, commit_all,
}

-- An entry has the type that its message shows.
abbrev pub Typed : LogEntry → Type 0
Typed e = e.entry_type ≡ deduce_type_from_message e.msg

abbrev pub messages : List LogEntry → List EntryMessage
messages [] = []
messages (e ∷ es) = e.msg ∷ messages es

is_ok-storage : (r : StorageResult × MemStorage) → (is_ok r).1 ≡ r.1
is_ok-storage (ok, s) = refl
is_ok-storage (not_found, s) = refl
is_ok-storage (exists, s) = refl
is_ok-storage (not_saved, s) = refl
is_ok-storage (value_too_large, s) = refl
is_ok-storage (key_too_large, s) = refl

commit_command-storage :
    (m : DatabaseMsg) (s : MemStorage) → (commit_command m s).1 ≡ store_command m s
unfolding commit_command commit_create commit_update commit_delete store_command
commit_command-storage m s =
    elim m.msg
      as (λ x.
        (commit_command (record { header = m.header; msg = x }) s).1
        ≡ store_command (record { header = m.header; msg = x }) s) [
          | DatabaseCommand.create key value ↦ is_ok-storage (create s m.header.db_uuid key value)
          | DatabaseCommand.update key value ↦ is_ok-storage (update s m.header.db_uuid key value)
          | DatabaseCommand.delete key ↦ is_ok-storage (remove s m.header.db_uuid key)
          | _ ↦ refl
        ]

module _ (alive : Session → Bool) (decode : String → Decoded) where
  commit_decoded-storage :
      (d : Decoded) (c : RaftCrud)
      → (commit_decoded alive decode d c).0.storage ≡ store_decoded d c.storage
  unfolding commit_decoded store_decoded
  commit_decoded-storage not_parsed c = refl
  commit_decoded-storage other_case c = refl
  commit_decoded-storage (db m) c = commit_command-storage m c.storage

  store_message :
      (m : EntryMessage) (i t : ℕ) (c : RaftCrud)
      → store_entry decode
          (record { entry_type = deduce_type_from_message m; log_index = i; term = t; msg = m })
          c.storage
        ≡ some (handle_commit alive decode m c).0.storage
  unfolding store_entry handle_commit deduce_type_from_message
  store_message no_message i t c = refl
  store_message (command text) i t c = rw (commit_decoded-storage (decode text) c) refl
  store_message (single_peers []) i t c = refl
  store_message (single_peers (p ∷ ps)) i t c = refl
  store_message (joint_peers old []) i t c = refl
  store_message (joint_peers old (p ∷ ps)) i t c = refl

  store_entry_lem :
      (e : LogEntry) (c : RaftCrud)
      → Typed e
      → store_entry decode e c.storage ≡ some (handle_commit alive decode e.msg c).0.storage
  store_entry_lem e c typed = rw typed (store_message e.msg e.log_index e.term c)

  -- Where each entry of a log has the type that its message shows, the storage that is rebuilt from the
  -- log is the one that the commits of all its entries, in their order, make of the same storage.
  pub initialize_storage_from_log-commits :
      (es : List LogEntry) (c : RaftCrud)
      → All Typed es
      → initialize_storage_from_log decode es c.storage
        ≡ some (commit_all alive decode (messages es) c).storage
  unfolding initialize_storage_from_log commit_all
  initialize_storage_from_log-commits [] c typed = refl
  initialize_storage_from_log-commits (e ∷ es) c (t, ts) =
      rw (store_entry_lem e c t)
        (initialize_storage_from_log-commits es (handle_commit alive decode e.msg c).0 ts)
