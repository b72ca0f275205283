-- ===== src/Crud/Subscriptions.antt =====
-- crud/subscription_manager.cpp and crud/subscription_manager_base.hpp: who is told of the writes to a key.
-- A subscriber is known by database, key, session and transaction; the maps hold a weak pointer to the
-- session, here the session with a test `alive` of the moment at which the pointers are locked. The lock
-- makes each method atomic.
pub mod Laws
pub mod Valid
pub mod Purge
pub mod Notices
use swarm_db.Base.{
  ℕ, ◌+◌, Bool, true, false, Option, none, some, List, [], ◌∷◌, ◌++◌, String, if◌then◌else◌,
  is_some,
}
use swarm_db.Base.Equality.{nat_eq, string_eq}
use swarm_db.Base.Assoc.{Assoc, lookup, put, erase}
use swarm_db.Base.Assoc.Keys.{change_values, and_then}
use swarm_db.Proto.{
  DatabaseHeader, DatabaseMsg, DatabaseCommand, UpdateOperation, update_op, delete_op,
  subscription_update, DatabaseResponse,
}

abbrev pub msg_invalid_uuid : String
msg_invalid_uuid = "INVALID_UUID"

abbrev pub msg_invalid_key : String
msg_invalid_key = "INVALID_KEY"

abbrev pub msg_invalid_sub : String
msg_invalid_sub = "INVALID_SUB"

abbrev pub msg_duplicate_sub : String
msg_duplicate_sub = "DUPLICATE_SUB"

-- A session: its id, which the maps use, and the object that a pointer names.
pub record Session : Type 0 where
  pub session_id : ℕ
  pub address : ℕ

-- From a transaction to the pointer, from a session's id, from a key and from a database.
abbrev pub Transactions : Type 0
Transactions = Assoc ℕ Session

abbrev pub Sessions : Type 0
Sessions = Assoc ℕ Transactions

abbrev pub Keys : Type 0
Keys = Assoc String Sessions

abbrev pub Subscribers : Type 0
Subscribers = Assoc String Keys

-- `waits` counts the calls of async_wait on the timer.
pub record SubscriptionManager : Type 0 where
  pub subscribers : Subscribers
  pub started : Bool
  pub waits : ℕ

abbrev pub new_manager : SubscriptionManager
new_manager = record { subscribers = []; started = false; waits = 0 }

unfoldable pub start : SubscriptionManager → SubscriptionManager
start m = if m.started then m else record m { started = true; waits = m.waits + 1 }

-- A missing map is made empty by operator[].
abbrev pub or_new {ℓ} : {A : Type ℓ} → Option (List A) → List A
or_new none = []
or_new (some xs) = xs

-- sessions[id][transaction] = session
unfoldable pub add_transaction : ℕ → Session → Sessions → Sessions
add_transaction transaction session sessions =
    put session.session_id (put transaction session (or_new (lookup session.session_id sessions)))
      sessions

-- subscribers[uuid][key][id][transaction] = session
unfoldable pub add_subscriber : String → String → ℕ → Session → Subscribers → Subscribers
unfolding add_transaction
add_subscriber uuid key transaction session subscribers =
    let keys = or_new (lookup uuid subscribers) in
    let sessions = or_new (lookup key keys) in
    put uuid (put key (add_transaction transaction session sessions) keys) subscribers

-- The methods give the error that they set in the response, if any, and the new maps.
unfoldable pub subscribe : String → String → ℕ → Session → Subscribers → Option String × Subscribers
unfolding add_subscriber
subscribe uuid key transaction session subscribers =
    let added : Option String × Subscribers =
      (none, add_subscriber uuid key transaction session subscribers) in
    let duplicate : Option String × Subscribers = (some msg_duplicate_sub, subscribers) in
    elim (lookup uuid subscribers) [
      | none ↦ added
      | some keys ↦ elim (lookup key keys) [
        | none ↦ added
        | some sessions ↦ elim (lookup session.session_id sessions) [
          | none ↦ added
          | some transactions ↦
              if is_some (lookup transaction transactions) then duplicate else added
        ]
      ]
    ]

-- The session's map without the transaction; it stays, even if it is empty now.
unfoldable pub remove_transaction :
    String → String → ℕ → ℕ → Transactions → Sessions → Keys → Subscribers → Subscribers
remove_transaction uuid key id transaction transactions sessions keys subscribers =
    put uuid (put key (put id (erase transaction transactions) sessions) keys) subscribers

unfoldable pub unsubscribe :
    String → String → ℕ → Session → Subscribers → Option String × Subscribers
unfolding remove_transaction
unsubscribe uuid key transaction session subscribers = elim (lookup uuid subscribers) [
  | none ↦ (some msg_invalid_uuid, subscribers)
  | some keys ↦ elim (lookup key keys) [
    | none ↦ (some msg_invalid_key, subscribers)
    | some sessions ↦ elim (lookup session.session_id sessions) [
      | none ↦ (some msg_invalid_sub, subscribers)
      | some transactions ↦
          if is_some (lookup transaction transactions)
          then (
            none,
            remove_transaction uuid key session.session_id transaction transactions sessions keys
                subscribers,
          )
          else (some msg_invalid_sub, subscribers)
    ]
  ]
]

-- session->send_datagram
pub record Datagram : Type 0 where
  pub session : Session
  pub response : DatabaseResponse

abbrev pub notice : String → Bool → String → String → ℕ → DatabaseResponse
notice uuid update key value transaction = record {
  header = record { db_uuid = uuid; transaction_id = transaction };
  response = subscription_update key value (if update then update_op else delete_op);
}

-- A map that became empty is erased from the one that holds it.
abbrev pub unless_empty {ℓ} : {A : Type ℓ} → List A → Option (List A)
unless_empty [] = none
unless_empty (x ∷ xs) = some (x ∷ xs)

module _ (alive : Session → Bool) where
  -- The inner loop of the notification, over the transactions of one session.
  unfoldable pub notify_transactions : (ℕ → DatabaseResponse) → Transactions → List Datagram
  notify_transactions notice [] = []
  notify_transactions notice ((transaction, session) ∷ ts) =
      let rest = notify_transactions notice ts in
      if alive session
      then (record { session = session; response = notice transaction }) ∷ rest
      else rest

  unfoldable pub notify_all : (ℕ → DatabaseResponse) → Sessions → List Datagram
  unfolding notify_transactions
  notify_all notice [] = []
  notify_all notice ((id, ts) ∷ sessions) =
      notify_transactions notice ts ++ notify_all notice sessions

  unfoldable pub notify_sessions : String → Bool → String → String → Subscribers → List Datagram
  unfolding notify_all
  notify_sessions uuid update key value subscribers = elim (lookup uuid subscribers) [
    | none ↦ []
    | some keys ↦ elim (lookup key keys) [
      | none ↦ []
      | some sessions ↦ notify_all (notice uuid update key value) sessions
    ]
  ]

  unfoldable pub inspect_commit : DatabaseMsg → Subscribers → List Datagram
  unfolding notify_sessions
  inspect_commit msg subscribers = elim msg.msg [
    | DatabaseCommand.create key value ↦
        notify_sessions msg.header.db_uuid true key value subscribers
    | DatabaseCommand.update key value ↦
        notify_sessions msg.header.db_uuid true key value subscribers
    | DatabaseCommand.delete key ↦ notify_sessions msg.header.db_uuid false key "" subscribers
    | _ ↦ []
  ]

  unfoldable pub purge_transactions : Transactions → Transactions
  purge_transactions = change_values (λ session. if alive session then some session else none)

  unfoldable pub purge_sessions : Sessions → Sessions
  purge_sessions = change_values (λ ts. unless_empty (purge_transactions ts))

  unfoldable pub purge_keys : Keys → Keys
  purge_keys = change_values (λ sessions. unless_empty (purge_sessions sessions))

  unfoldable pub purge : Subscribers → Subscribers
  purge = change_values (λ keys. unless_empty (purge_keys keys))

  -- The first argument says whether the timer reports an error.
  unfoldable pub purge_closed_sessions : Bool → SubscriptionManager → SubscriptionManager
  unfolding purge purge_keys purge_sessions purge_transactions
  purge_closed_sessions true m = m
  purge_closed_sessions false m = record m {
    subscribers = purge m.subscribers;
    waits = m.waits + 1;
  }
