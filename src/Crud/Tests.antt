-- ===== src/Crud/Tests.antt =====
-- The handlers of crud/crud.cpp and the subscriptions of crud/subscription_manager.cpp at small inputs, and
-- their theorems there.
use swarm_db.Base.{
  ℕ, ◌+◌, ◌≡◌, refl, Bool, true, false, none, some, List, [], ◌∷◌, String, arith, is_some,
  if◌then◌else◌, ltb, All, Among,
}
use swarm_db.Base.Equality.{nat_eq, string_eq}
use swarm_db.Base.Assoc.{lookup, put}
use swarm_db.Base.Assoc.Keys.{and_then}
use swarm_db.Proto.{
  DatabaseHeader, DatabaseCommand, RequestType, operation, PbftRequest, response_not_set,
  read_response,
}
use swarm_db.Storage.{ok, MemStorage, empty, create, insert_record}
use swarm_db.Storage.View.{view, create-refines}
use swarm_db.Storage.Size.{IsWellFormed}
use swarm_db.Pbft.Service.{Execution}
use swarm_db.Crud.{handle_request}
use swarm_db.Crud.Answers.{
  answer, sent_to, next_view, handle_request-refines, handle_request-IsWellFormed,
}
use swarm_db.Crud.Replay.{replay, replay-deterministic, replay-IsWellFormed, read-create}
use swarm_db.Crud.Subscriptions.{
  Session, Subscribers, SubscriptionManager, subscribe, unsubscribe, notify_sessions, notice,
  purge_closed_sessions,
}
use swarm_db.Crud.Subscriptions.Laws.{
  subscriber, is_same, unsubscribe_error, subscribe-refines, unsubscribe-refines,
}
use swarm_db.Crud.Subscriptions.Valid.{
  IsSubscribers, subscribe-IsSubscribers, unsubscribe-IsSubscribers,
}
use swarm_db.Crud.Subscriptions.Purge.{keep_if, AllFull, purge_closed_sessions_lem}
use swarm_db.Crud.Subscriptions.Notices.{datagram, notify_sessions_exact}

abbrev header : DatabaseHeader
header = record { db_uuid = "db"; transaction_id = 7 }

abbrev creation : DatabaseCommand
creation = DatabaseCommand.create "k" "v"

abbrev filled : MemStorage
filled = record { kv_store = ("db", ("k", "v") ∷ []) ∷ [] }

created : (handle_request (record { header = header; msg = creation }) none empty).0 ≡ filled
unfolding handle_request create insert_record lookup put
created = refl

handle_request-refines_example :
    view (handle_request (record { header = header; msg = creation }) none empty).0 "db" "k"
    ≡ next_view creation "db" (view empty) "db" "k"
handle_request-refines_example = handle_request-refines header creation none empty "db" "k"

empty-IsWellFormed : IsWellFormed empty
unfolding lookup
empty-IsWellFormed = record { distinct = λ u db h. absurd (ground (arith, h)) }

handle_request-IsWellFormed_test :
    IsWellFormed (handle_request (record { header = header; msg = creation }) none empty).0
handle_request-IsWellFormed_test =
    handle_request-IsWellFormed header creation none empty empty-IsWellFormed

abbrev request : PbftRequest
request = record {
  type = RequestType.database;
  msg = operation (record { header = header; msg = creation });
  timestamp = 1;
  client = "c";
}

abbrev with_session : List Execution
with_session = (record { sequence = 1; request = request; session = some 3 }) ∷ []

abbrev without_session : List Execution
without_session = (record { sequence = 1; request = request; session = none }) ∷ []

replay-deterministic_example : (replay with_session empty).0 ≡ (replay without_session empty).0
replay-deterministic_example = replay-deterministic with_session without_session empty refl

replay-IsWellFormed_test : IsWellFormed (replay with_session empty).0
replay-IsWellFormed_test = replay-IsWellFormed with_session empty empty-IsWellFormed

create_ok : (create empty "db" "k" "v").0 ≡ ok
unfolding create insert_record lookup
create_ok = refl

accepted : answer empty "db" creation ≡ some response_not_set
accepted = ground (arith, (create-refines empty "db" "k" "v").0, create_ok)

read-create_example :
    (handle_request
      (record { header = header; msg = DatabaseCommand.read "k" })
      (some 4)
      (handle_request (record { header = header; msg = creation }) (some 3) empty).0).1
    ≡ sent_to 4 header (some (read_response "k" "v"))
read-create_example = read-create header header "k" "v" 3 4 empty refl accepted

abbrev alice : Session
alice = record { session_id = 1; address = 10 }

abbrev bob : Session
bob = record { session_id = 2; address = 20 }

abbrev subscribed : Subscribers
subscribed = ("db", ("k", (1, (5, alice) ∷ []) ∷ []) ∷ []) ∷ []

subscribed_lem : subscribe "db" "k" 5 alice [] ≡ (none, subscribed)
unfolding subscribe lookup put
subscribed_lem = refl

subscribed-IsSubscribers : IsSubscribers subscribed
unfolding subscribe lookup put
subscribed-IsSubscribers = subscribe-IsSubscribers "db" "k" 5 alice [] (tt, tt)

found : subscriber "db" "k" 1 5 subscribed ≡ some alice
unfolding lookup
found = refl

-- A session that is alive is found by its address.
abbrev alive : Session → Bool
alive session = ltb 0 session.address

subscribe-refines_example :
    ((subscribe "db" "k" 5 bob subscribed).0
      ≡ (if is_some (subscriber "db" "k" 2 5 subscribed) then some "DUPLICATE_SUB" else none))
    × ((u k : String) (i t : ℕ)
        → subscriber u k i t (subscribe "db" "k" 5 bob subscribed).1 ≡ (
            if is_some (subscriber "db" "k" 2 5 subscribed)
            then subscriber u k i t subscribed
            else if is_same "db" "k" 2 5 u k i t
            then some bob
            else subscriber u k i t subscribed))
subscribe-refines_example = subscribe-refines "db" "k" 5 bob subscribed

unsubscribe-refines_example :
    ((unsubscribe "db" "k" 5 bob subscribed).0 ≡ unsubscribe_error "db" "k" 5 bob subscribed)
    × ((u k : String) (i t : ℕ)
        → subscriber u k i t (unsubscribe "db" "k" 5 bob subscribed).1
          ≡ (if is_same "db" "k" 2 5 u k i t then none else subscriber u k i t subscribed))
unsubscribe-refines_example = unsubscribe-refines "db" "k" 5 bob subscribed

subscribe-IsSubscribers_test : IsSubscribers (subscribe "db" "k" 5 bob subscribed).1
subscribe-IsSubscribers_test =
    subscribe-IsSubscribers "db" "k" 5 bob subscribed subscribed-IsSubscribers

unsubscribed-IsSubscribers : IsSubscribers (unsubscribe "db" "k" 5 alice subscribed).1
unsubscribed-IsSubscribers =
    unsubscribe-IsSubscribers "db" "k" 5 alice subscribed subscribed-IsSubscribers

abbrev manager : SubscriptionManager
manager = record { subscribers = subscribed; started = true; waits = 1 }

purge_closed_sessions_lem_example :
    ((u k : String) (i t : ℕ)
      → subscriber u k i t (purge_closed_sessions alive false manager).subscribers
        ≡ and_then (subscriber u k i t subscribed) (keep_if alive))
    × AllFull
        (AllFull (AllFull (λ ts. Unit {0})))
        (purge_closed_sessions alive false manager).subscribers
    × ((purge_closed_sessions alive false manager).waits ≡ manager.waits + 1)
purge_closed_sessions_lem_example = purge_closed_sessions_lem alive manager subscribed-IsSubscribers

notify_sessions_exact_example :
    ((i t : ℕ) (session : Session)
      → subscriber "db" "k" i t subscribed ≡ some session
      → alive session ≡ true
      → Among
          (datagram (notice "db" true "k" "v") t session)
          (notify_sessions alive "db" true "k" "v" subscribed))
    × All
        (λ d.
          (alive d.session ≡ true)
          × ((i : ℕ) × (t : ℕ) × (subscriber "db" "k" i t subscribed ≡ some d.session)
              × (d.response ≡ notice "db" true "k" "v" t)))
        (notify_sessions alive "db" true "k" "v" subscribed)
notify_sessions_exact_example =
    notify_sessions_exact alive "db" true "k" "v" subscribed subscribed-IsSubscribers
