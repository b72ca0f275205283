-- ===== src/Crud/Subscriptions/Valid.antt =====
-- crud/subscription_manager.cpp: each map has its keys once, and `subscribe` and `unsubscribe` keep it so.
use swarm_db.Base.{
  ℕ, ◌≡◌, some, List, [], String, if◌then◌else◌, Bool-cases, is_some, arith, Option-cases, inl, inr,
  All,
}
use swarm_db.Base.Equality.{Eq, nat_eq, string_eq}
use swarm_db.Base.Assoc.{Assoc, lookup, put, All-lookup, All-put}
use swarm_db.Base.Assoc.Keys.{KeysOnce, put-KeysOnce, erase-KeysOnce}
use swarm_db.Crud.Subscriptions.{
  Session, Transactions, Sessions, Keys, Subscribers, or_new, add_transaction, add_subscriber,
  subscribe, remove_transaction, unsubscribe,
}
use swarm_db.Crud.Subscriptions.Laws.{subscriber}

-- A map with its keys once, whose values have a property.
abbrev pub Level {ℓ} : {K V : Type 0} ⦃e : Eq K⦄ → (V → Type ℓ) → Assoc K V → Type ℓ
Level P m = KeysOnce m × All (λ e. P e.1) m

-- Every map, on every level, has its keys once.
abbrev pub IsSessions : Sessions → Type 0
IsSessions = Level KeysOnce

abbrev pub IsKeys : Keys → Type 0
IsKeys = Level IsSessions

abbrev pub IsSubscribers : Subscribers → Type 0
IsSubscribers = Level IsKeys

module _ {K V : Type 0} ⦃e : Eq K⦄ where
  put-Level :
      (P : V → Type 0) (k : K) (v : V) (m : Assoc K V) → P v → Level P m → Level P (put k v m)
  put-Level P k v m p h = (put-KeysOnce k v m h.0, All-put (λ x. P x.1) k v m p h.1)

  pub lookup-Level :
      (P : V → Type 0) (k : K) (v : V) (m : Assoc K V) → Level P m → lookup k m ≡ some v → P v
  lookup-Level P k v m h found = All-lookup (λ x. P x.1) k v m h.1 found

or_new-Level :
    {K A : Type 0} ⦃e : Eq K⦄ (P : List A → Type 0) (k : K) (m : Assoc K (List A))
    → P []
    → Level P m
    → P (or_new (lookup k m))
or_new-Level P k m p h = elim (Option-cases (lookup k m)) [
  | inl e ↦ rw e p
  | inr (v, e) ↦ rw e (lookup-Level P k v m h e)
]

add_transaction-IsSessions :
    (t : ℕ) (session : Session) (sessions : Sessions)
    → IsSessions sessions
    → IsSessions (add_transaction t session sessions)
unfolding add_transaction
add_transaction-IsSessions t session sessions h =
    put-Level KeysOnce session.session_id _ sessions
      (put-KeysOnce t session _ (or_new-Level KeysOnce session.session_id sessions tt h)) h

add_subscriber-IsSubscribers :
    (uuid key : String) (t : ℕ) (session : Session) (s : Subscribers)
    → IsSubscribers s
    → IsSubscribers (add_subscriber uuid key t session s)
unfolding add_subscriber
add_subscriber-IsSubscribers uuid key t session s h =
    let keys = or_new (lookup uuid s) in
    let k : IsKeys keys = or_new-Level IsKeys uuid s (tt, tt) h in
    put-Level IsKeys uuid _ s
      (put-Level IsSessions key _ keys
        (add_transaction-IsSessions t session (or_new (lookup key keys))
          (or_new-Level IsSessions key keys (tt, tt) k))
        k)
      h

module _ (uuid key : String) (t : ℕ) (session : Session) (s : Subscribers) where
  keys : Keys
  keys = or_new (lookup uuid s)

  sessions : Sessions
  sessions = or_new (lookup key keys)

  transactions : Transactions
  transactions = or_new (lookup session.session_id sessions)

  unsubscribe_maps : (unsubscribe uuid key t session s).1 ≡ (
      if is_some (subscriber uuid key session.session_id t s)
      then remove_transaction uuid key session.session_id t transactions sessions keys s
      else s)
  unfolding unsubscribe transactions sessions keys
  unsubscribe_maps = ground arith

  remove_transaction-IsSubscribers :
      IsSubscribers s
      → IsSubscribers
          (remove_transaction uuid key session.session_id t transactions sessions keys s)
  unfolding remove_transaction transactions sessions keys
  remove_transaction-IsSubscribers h =
      let k : IsKeys keys = or_new-Level IsKeys uuid s (tt, tt) h in
      let l : IsSessions sessions = or_new-Level IsSessions key keys (tt, tt) k in
      put-Level IsKeys uuid _ s
        (put-Level IsSessions key _ keys
          (put-Level KeysOnce session.session_id _ sessions
            (erase-KeysOnce t transactions (or_new-Level KeysOnce session.session_id sessions tt l))
            l)
          k)
        h

  -- A subscription keeps the keys of every map distinct, on all four levels.
  pub subscribe-IsSubscribers : IsSubscribers s → IsSubscribers (subscribe uuid key t session s).1
  unfolding subscribe
  subscribe-IsSubscribers h = ground (arith, add_subscriber-IsSubscribers uuid key t session s h)

  -- So does the end of a subscription, also where it is refused.
  pub unsubscribe-IsSubscribers :
      IsSubscribers s → IsSubscribers (unsubscribe uuid key t session s).1
  unsubscribe-IsSubscribers h =
      elim (Bool-cases (is_some (subscriber uuid key session.session_id t s))) [
        | inl e ↦ rw (unsubscribe_maps, e) (remove_transaction-IsSubscribers h)
        | inr e ↦ rw (unsubscribe_maps, e) h
      ]
