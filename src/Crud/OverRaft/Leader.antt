-- ===== src/Crud/OverRaft/Leader.antt =====
-- What a leader of crud/raft_crud.cpp answers, against the view of the storage and the answers of crud/crud.cpp.
use swarm_db.Base.{
  ℕ, ◌≡◌, refl, Bool, true, false, Option, some, none, String, if◌then◌else◌, arith, ◌&&◌,
}
use swarm_db.Proto.{DatabaseMsg, DatabaseHeader, DatabaseCommand, ResponseBody, response_not_set}
use swarm_db.Storage.{
  StorageResult, ok, not_found, exists, not_saved, value_too_large, key_too_large, MemStorage,
  create, update, remove,
}
use swarm_db.Storage.View.{
  View, view, write, create-refines, update-refines, remove-refines, has-eq-read,
}
use swarm_db.Raft.Log.{LogEntry, command}
use swarm_db.Raft.State.{RaftState, candidate, follower, leader, is_leader}
use swarm_db.Raft.Recovery.{Decoded, db}
use swarm_db.Crud.Answers.{answer}
use swarm_db.Crud.Subscriptions.{Session}
use swarm_db.Crud.OverRaft.{
  RaftCrud, append_request, handle_create, handle_read, handle_update, handle_delete,
  handle_get_keys, handle_size, do_leader_tasks, route, do_raft_task_routing, handle_decoded,
  handle_ws_crud_messages, is_ok, commit_create, commit_update, commit_delete, commit_command,
}

abbrev pub is_write : DatabaseCommand → Bool
is_write (DatabaseCommand.create key value) = true
is_write (DatabaseCommand.update key value) = true
is_write (DatabaseCommand.delete key) = true
is_write _ = false

-- The subscriptions are no matter of the storage.
abbrev pub is_answered : DatabaseCommand → Bool
is_answered (DatabaseCommand.has key) = false
is_answered (DatabaseCommand.subscribe key) = false
is_answered (DatabaseCommand.unsubscribe key t) = false
is_answered _ = true

-- `has` has an answer of its own kind.
abbrev pub is_has : DatabaseCommand → Bool
is_has (DatabaseCommand.has key) = true
is_has _ = false

abbrev pub is_unset : ResponseBody → Bool
is_unset response_not_set = true
is_unset _ = false

-- A command that is not known gets a response with nothing set.
abbrev pub or_unset : Option ResponseBody → ResponseBody
or_unset none = response_not_set
or_unset (some body) = body

abbrev pub answer_of : RaftCrud → DatabaseMsg → ResponseBody
answer_of c request = or_unset (answer c.storage request.header.db_uuid request.msg)

leads : (c : RaftCrud) → c.raft.current_state ≡ leader → is_leader c.raft ≡ true
leads c l = ground (arith, l)

module _ (entry_size : LogEntry → ℕ) (text : String) where
  -- A write that is answered with no error is logged.
  abbrev pub logged : DatabaseCommand → ResponseBody → RaftCrud → RaftCrud
  logged m body c =
      if is_write m && is_unset body then append_request entry_size (command text) c else c

  create_lem :
      (h : DatabaseHeader) (key value : String) (c : RaftCrud)
      → is_leader c.raft ≡ true
      → let m = DatabaseCommand.create key value in
        let body = answer_of c (record { header = h; msg = m }) in
        handle_create entry_size (command text) h.db_uuid key value c ≡ some (logged m body c, body)
  unfolding handle_create
  create_lem h key value c l = rw (l, has-eq-read c.storage h.db_uuid key) (ground arith)

  update_lem :
      (h : DatabaseHeader) (key value : String) (c : RaftCrud)
      → is_leader c.raft ≡ true
      → let m = DatabaseCommand.update key value in
        let body = answer_of c (record { header = h; msg = m }) in
        handle_update entry_size (command text) h.db_uuid key value c ≡ some (logged m body c, body)
  unfolding handle_update
  update_lem h key value c l = rw (l, has-eq-read c.storage h.db_uuid key) (ground arith)

  delete_lem :
      (h : DatabaseHeader) (key : String) (c : RaftCrud)
      → is_leader c.raft ≡ true
      → let m = DatabaseCommand.delete key in
        let body = answer_of c (record { header = h; msg = m }) in
        handle_delete entry_size (command text) h.db_uuid key c ≡ some (logged m body c, body)
  unfolding handle_delete
  delete_lem h key c l = rw (l, has-eq-read c.storage h.db_uuid key) (ground arith)

  read_lem :
      (h : DatabaseHeader) (key : String) (c : RaftCrud)
      → is_leader c.raft ≡ true
      → handle_read h.db_uuid key c
        ≡ some (c, answer_of c (record { header = h; msg = DatabaseCommand.read key }))
  unfolding handle_read
  read_lem h key c l = ground (arith, l)

  do_leader_tasks-answers :
      (h : DatabaseHeader) (m : DatabaseCommand) (c : RaftCrud)
      → is_leader c.raft ≡ true
      → is_has m ≡ false
      → let body = answer_of c (record { header = h; msg = m }) in
        do_leader_tasks entry_size (command text) (record { header = h; msg = m }) c
        ≡ some (logged m body c, body)
  unfolding do_leader_tasks handle_get_keys handle_size
  do_leader_tasks-answers h (DatabaseCommand.create key value) c l n = create_lem h key value c l
  do_leader_tasks-answers h (DatabaseCommand.update key value) c l n = update_lem h key value c l
  do_leader_tasks-answers h (DatabaseCommand.delete key) c l n = delete_lem h key c l
  do_leader_tasks-answers h (DatabaseCommand.read key) c l n = read_lem h key c l
  do_leader_tasks-answers h DatabaseCommand.keys c l n = refl
  do_leader_tasks-answers h DatabaseCommand.size c l n = refl
  do_leader_tasks-answers h (DatabaseCommand.has key) c l n = ground arith
  do_leader_tasks-answers h (DatabaseCommand.subscribe key) c l n = refl
  do_leader_tasks-answers h (DatabaseCommand.unsubscribe key t) c l n = refl
  do_leader_tasks-answers h DatabaseCommand.msg_not_set c l n = refl

  route_lem :
      (state : RaftState) (h : DatabaseHeader) (m : DatabaseCommand) (c : RaftCrud)
      → state ≡ leader
      → is_leader c.raft ≡ true
      → is_has m ≡ false
      → let body = answer_of c (record { header = h; msg = m }) in
        route entry_size state (command text) (record { header = h; msg = m }) c
        ≡ some (logged m body c, body)
  unfolding route
  route_lem leader h m c e l n = do_leader_tasks-answers h m c l n
  route_lem candidate h m c e l n = ground arith
  route_lem follower h m c e l n = ground arith

  routing_lem :
      (h : DatabaseHeader) (m : DatabaseCommand) (session : Session) (c : RaftCrud)
      → c.raft.current_state ≡ leader
      → is_answered m ≡ true
      → let body = answer_of c (record { header = h; msg = m }) in
        do_raft_task_routing entry_size (command text) (record { header = h; msg = m }) session c
        ≡ some (logged m body c, body)
  unfolding do_raft_task_routing
  routing_lem h (DatabaseCommand.create key value) session c l n =
      route_lem c.raft.current_state h (DatabaseCommand.create key value) c l (leads c l) refl
  routing_lem h (DatabaseCommand.update key value) session c l n =
      route_lem c.raft.current_state h (DatabaseCommand.update key value) c l (leads c l) refl
  routing_lem h (DatabaseCommand.delete key) session c l n =
      route_lem c.raft.current_state h (DatabaseCommand.delete key) c l (leads c l) refl
  routing_lem h (DatabaseCommand.read key) session c l n =
      route_lem c.raft.current_state h (DatabaseCommand.read key) c l (leads c l) refl
  routing_lem h DatabaseCommand.keys session c l n =
      route_lem c.raft.current_state h DatabaseCommand.keys c l (leads c l) refl
  routing_lem h DatabaseCommand.size session c l n =
      route_lem c.raft.current_state h DatabaseCommand.size c l (leads c l) refl
  routing_lem h DatabaseCommand.msg_not_set session c l n =
      route_lem c.raft.current_state h DatabaseCommand.msg_not_set c l (leads c l) refl
  routing_lem h (DatabaseCommand.has key) session c l n = ground arith
  routing_lem h (DatabaseCommand.subscribe key) session c l n = ground arith
  routing_lem h (DatabaseCommand.unsubscribe key t) session c l n = ground arith

  -- A leader answers every request but `has` and those for subscriptions as the handler of requests over PBFT
  -- would from the same storage, and with nothing where that one knows no answer; it appends the request to
  -- its log exactly if it is a write that is answered with no error, and changes nothing else.
  pub handle_ws_crud_messages-answers :
      (decode : String → Decoded) (request : DatabaseMsg) (session : Session) (c : RaftCrud)
      → decode text ≡ db request
      → c.raft.current_state ≡ leader
      → is_answered request.msg ≡ true
      → let body = answer_of c request in
        handle_ws_crud_messages entry_size decode (some text) session c
        ≡ some (
          logged request.msg body c,
          record {
            response = record { header = request.header; response = body };
            end_session = false;
          },
        )
  unfolding handle_ws_crud_messages handle_decoded
  handle_ws_crud_messages-answers decode request session c d l n =
      rw (d, routing_lem request.header request.msg session c l n) refl

is_ok_lem : (r : StorageResult × MemStorage) → r.0 ≡ ok → is_ok r ≡ (true, r.1)
is_ok_lem (ok, s) e = refl
is_ok_lem (not_found, s) e = ground arith
is_ok_lem (exists, s) e = ground arith
is_ok_lem (not_saved, s) e = ground arith
is_ok_lem (value_too_large, s) e = ground arith
is_ok_lem (key_too_large, s) e = ground arith

-- What a write puts under its key in the view.
abbrev pub written : DatabaseCommand → String → View → View
written (DatabaseCommand.create key value) uuid f = write f uuid key (some value)
written (DatabaseCommand.update key value) uuid f = write f uuid key (some value)
written (DatabaseCommand.delete key) uuid f = write f uuid key none
written _ uuid f = f

-- A method of the storage that succeeds and leaves such a view makes a commit that does.
done_lem :
    (r : StorageResult × MemStorage) (f : View)
    → r.0 ≡ ok
    → ((u k : String) → view r.1 u k ≡ f u k)
    → ((is_ok r).0 ≡ true) × ((u k : String) → view (is_ok r).1 u k ≡ f u k)
done_lem r f e g = rw (is_ok_lem r e) (refl, g)

-- A write that is answered with no error from some storage is done by the commit to this storage: the commit
-- succeeds, the key has the value that was written, or none after a deletion, and no other entry changes.
pub commit_command-accepted :
    (h : DatabaseHeader) (m : DatabaseCommand) (s : MemStorage)
    → is_write m ≡ true
    → answer s h.db_uuid m ≡ some response_not_set
    → ((commit_command (record { header = h; msg = m }) s).0 ≡ true)
      × ((u k : String)
          → view (commit_command (record { header = h; msg = m }) s).1 u k
            ≡ written m h.db_uuid (view s) u k)
unfolding commit_command commit_create commit_update commit_delete
commit_command-accepted h (DatabaseCommand.create key value) s w a =
    let p = create-refines s h.db_uuid key value in
    let e : (create s h.db_uuid key value).0 ≡ ok = ground (arith, p.0) in
    done_lem _ _ e (λ u k. ground (arith, p.1 u k, e))
commit_command-accepted h (DatabaseCommand.update key value) s w a =
    let p = update-refines s h.db_uuid key value in
    let e : (update s h.db_uuid key value).0 ≡ ok = ground (arith, p.0) in
    done_lem _ _ e (λ u k. ground (arith, p.1 u k, e))
commit_command-accepted h (DatabaseCommand.delete key) s w a =
    let p = remove-refines s h.db_uuid key in
    let e : (remove s h.db_uuid key).0 ≡ ok = ground (arith, p.0) in
    done_lem _ _ e (λ u k. ground (arith, p.1 u k, e))
commit_command-accepted h (DatabaseCommand.read key) s w a = ground arith
commit_command-accepted h (DatabaseCommand.has key) s w a = ground arith
commit_command-accepted h DatabaseCommand.keys s w a = ground arith
commit_command-accepted h DatabaseCommand.size s w a = ground arith
commit_command-accepted h (DatabaseCommand.subscribe key) s w a = ground arith
commit_command-accepted h (DatabaseCommand.unsubscribe key t) s w a = ground arith
commit_command-accepted h DatabaseCommand.msg_not_set s w a = ground arith
