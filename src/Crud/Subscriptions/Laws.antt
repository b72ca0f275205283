-- ===== src/Crud/Subscriptions/Laws.antt =====
-- crud/subscription_manager.cpp: `subscribe` and `unsubscribe` on the subscribers as a partial function from
-- database, key, session and transaction.
use swarm_db.Base.{ℕ, ◌≡◌, ◌&&◌, Bool, Option, none, some, String, if◌then◌else◌, is_some, arith}
use swarm_db.Base.Equality.{◌==◌, ==_iff, nat_eq, string_eq}
use swarm_db.Base.Assoc.{lookup, put, erase, lookup-nil, lookup-put, lookup-erase}
use swarm_db.Base.Assoc.Keys.{and_then}
use swarm_db.Crud.Subscriptions.{
  Session, Transactions, Sessions, Keys, Subscribers, or_new, add_transaction, add_subscriber,
  subscribe, unsubscribe,
}

abbrev pub in_session : ℕ → ℕ → Sessions → Option Session
in_session i t sessions = and_then (lookup i sessions) (lookup t)

abbrev pub in_key : String → ℕ → ℕ → Keys → Option Session
in_key k i t keys = and_then (lookup k keys) (in_session i t)

-- The session that is subscribed to a key of a database, under its id and a transaction.
abbrev pub subscriber : String → String → ℕ → ℕ → Subscribers → Option Session
subscriber u k i t subscribers = and_then (lookup u subscribers) (in_key k i t)

abbrev pub is_same : String → String → ℕ → ℕ → String → String → ℕ → ℕ → Bool
is_same uuid key id transaction u k i t = uuid == u && (key == k && (id == i && transaction == t))

in_session-add :
    (transaction : ℕ) (session : Session) (sessions : Sessions) (i t : ℕ)
    → in_session i t (add_transaction transaction session sessions) ≡ (
        if session.session_id == i && transaction == t
        then some session
        else in_session i t sessions)
unfolding add_transaction
in_session-add transaction session sessions i t =
    let ts = or_new (lookup session.session_id sessions) in
    ground (
      arith,
      lookup-put session.session_id i (put transaction session ts) sessions,
      lookup-put transaction t session ts,
      lookup-nil {K = ℕ} {V = Session} t,
      ==_iff session.session_id i,
    )

subscriber-add :
    (uuid key : String) (transaction : ℕ) (session : Session) (s : Subscribers) (u k : String)
    (i t : ℕ)
    → subscriber u k i t (add_subscriber uuid key transaction session s) ≡ (
        if is_same uuid key session.session_id transaction u k i t
        then some session
        else subscriber u k i t s)
unfolding add_subscriber
subscriber-add uuid key transaction session s u k i t =
    let keys = or_new (lookup uuid s) in
    let sessions = or_new (lookup key keys) in
    ground (
      arith,
      lookup-put uuid u (put key (add_transaction transaction session sessions) keys) s,
      lookup-put key k (add_transaction transaction session sessions) keys,
      in_session-add transaction session sessions i t,
      lookup-nil {K = String} {V = Sessions} k,
      lookup-nil {K = ℕ} {V = Transactions} i,
      ==_iff uuid u,
      ==_iff key k,
    )

module _ (uuid key : String) (transaction : ℕ) (session : Session) (s : Subscribers) where
  abbrev pub before : Option Session
  before = subscriber uuid key session.session_id transaction s

  -- `subscribe` refuses a duplicate, and only that.
  subscribe-error :
      (subscribe uuid key transaction session s).0
      ≡ (if is_some before then some "DUPLICATE_SUB" else none)
  unfolding subscribe
  subscribe-error = ground arith

  subscribe_maps :
      (subscribe uuid key transaction session s).1
      ≡ (if is_some before then s else add_subscriber uuid key transaction session s)
  unfolding subscribe
  subscribe_maps = ground arith

  -- `subscribe` reports a duplicate exactly if the session is already subscribed to the key under this
  -- transaction, and then no subscription changes; else this one is entered and no other changes.
  pub subscribe-refines :
      ((subscribe uuid key transaction session s).0
        ≡ (if is_some before then some "DUPLICATE_SUB" else none))
      × ((u k : String) (i t : ℕ)
          → subscriber u k i t (subscribe uuid key transaction session s).1 ≡ (
              if is_some before
              then subscriber u k i t s
              else if is_same uuid key session.session_id transaction u k i t
              then some session
              else subscriber u k i t s))
  subscribe-refines = (
    subscribe-error,
    λ u k i t.
        ground (arith, subscribe_maps, subscriber-add uuid key transaction session s u k i t),
  )

  -- What `unsubscribe` reports: the first level of the maps at which the subscription is missing.
  abbrev pub unsubscribe_error : Option String
  unsubscribe_error =
      if is_some before
      then none
      else if is_some (and_then (lookup uuid s) (lookup key))
      then some "INVALID_SUB"
      else if is_some (lookup uuid s)
      then some "INVALID_KEY"
      else some "INVALID_UUID"

  -- `unsubscribe` removes the subscription if it is there and changes no other; if it is not, it changes
  -- nothing and reports an unknown database, else an unknown key, else an unknown subscription.
  pub unsubscribe-refines :
      ((unsubscribe uuid key transaction session s).0 ≡ unsubscribe_error)
      × ((u k : String) (i t : ℕ)
          → subscriber u k i t (unsubscribe uuid key transaction session s).1 ≡ (
              if is_same uuid key session.session_id transaction u k i t
              then none
              else subscriber u k i t s))
  unfolding unsubscribe
  unsubscribe-refines = (
    ground arith,
    λ u k i t.
        let keys = or_new (lookup uuid s) in
        let sessions = or_new (lookup key keys) in
        let ts = or_new (lookup session.session_id sessions) in
        let left = put session.session_id (erase transaction ts) sessions in
        ground (
          arith,
          lookup-put uuid u (put key left keys) s,
          lookup-put key k left keys,
          lookup-put session.session_id i (erase transaction ts) sessions,
          lookup-erase transaction t ts,
          ==_iff uuid u,
          ==_iff key k,
          ==_iff session.session_id i,
          ==_iff transaction t,
        ),
  )
