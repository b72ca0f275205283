-- ===== src/Crud/Subscriptions/Purge.antt =====
-- crud/subscription_manager.cpp: `purge_closed_sessions` removes the
-- subscriptions of dead sessions and the maps that become empty.
use swarm_db.Base.{
  ℕ, ◌+◌, ◌≡◌, ◌≢◌, refl, sym, ◌∙◌, Bool, false, Option, none, some, List, [], ◌∷◌, String,
  if◌then◌else◌, Option-cases, inl, inr, All,
}
use swarm_db.Base.Equality.{Eq, nat_eq, string_eq}
use swarm_db.Base.Assoc.{Assoc, lookup, lookup-nil}
use swarm_db.Base.Assoc.Keys.{
  and_then, KeysOnce, change_values, entry_or_none, lookup-change_values,
}
use swarm_db.Crud.Subscriptions.{
  Session, Transactions, Sessions, Keys, Subscribers, unless_empty, purge_transactions,
  purge_sessions, purge_keys, purge, SubscriptionManager, purge_closed_sessions,
}
use swarm_db.Crud.Subscriptions.Valid.{IsSessions, IsKeys, IsSubscribers, lookup-Level}
use swarm_db.Crud.Subscriptions.Laws.{in_session, in_key, subscriber}

abbrev pub keep_if : (Session → Bool) → Session → Option Session
keep_if alive session = if alive session then some session else none

look-unless_empty :
    {A B : Type 0} (q : List A → Option B)
    → q [] ≡ none
    → (xs : List A) → and_then (unless_empty xs) q ≡ q xs
look-unless_empty q n [] = sym n
look-unless_empty q n (x ∷ xs) = refl

-- One level of the purge: maps that are purged by `g` and erased if they become empty, seen by a look
-- `q` into them.
module _ {A B K : Type 0} ⦃e : Eq K⦄ (g : List A → List A) (q : List A → Option B)
    (r : B → Option B) (none_inside : q [] ≡ none) where
  level-purge :
      (k : K) (m : Assoc K (List A))
      → KeysOnce m
      → ((v : List A) → lookup k m ≡ some v → q (g v) ≡ and_then (q v) r)
      → and_then (lookup k (change_values (λ v. unless_empty (g v)) m)) q
        ≡ and_then (and_then (lookup k m) q) r
  level-purge k m once inner =
      rw (lookup-change_values (λ v. unless_empty (g v)) k m once)
        (elim (Option-cases (lookup k m)) [
          | inl e ↦ rw e refl
          | inr (v, e) ↦ rw e (look-unless_empty q none_inside (g v) ∙ inner v e)
        ])

-- No map that is held is empty, and each has a property.
abbrev pub AllFull : {K A : Type 0} → (List A → Type 0) → Assoc K (List A) → Type 0
AllFull P m = All (λ x. (x.1 ≢ []) × P x.1) m

module _ {K A : Type 0} (P : List A → Type 0) where
  entry-AllFull :
      (k : K) (xs : List A) (rest : Assoc K (List A))
      → P xs
      → AllFull P rest
      → AllFull P (entry_or_none k (unless_empty xs) rest)
  unfolding entry_or_none
  entry-AllFull k [] rest p h = h
  entry-AllFull k (x ∷ xs) rest p h = ((λ e. cc, p), h)

  change_values-AllFull :
      (g : List A → List A) (m : Assoc K (List A))
      → ((v : List A) → P (g v))
      → AllFull P (change_values (λ v. unless_empty (g v)) m)
  unfolding change_values
  change_values-AllFull g [] h = tt
  change_values-AllFull g ((k, v) ∷ m) h =
      entry-AllFull k (g v) _ (h v) (change_values-AllFull g m h)

module _ (alive : Session → Bool) where
  transactions-purge :
      (t : ℕ) (ts : Transactions)
      → KeysOnce ts
      → lookup t (purge_transactions alive ts) ≡ and_then (lookup t ts) (keep_if alive)
  unfolding purge_transactions
  transactions-purge t ts h = lookup-change_values (keep_if alive) t ts h

  in_session-purge :
      (i t : ℕ) (sessions : Sessions)
      → IsSessions sessions
      → in_session i t (purge_sessions alive sessions)
        ≡ and_then (in_session i t sessions) (keep_if alive)
  unfolding purge_sessions
  in_session-purge i t sessions h =
      level-purge (purge_transactions alive) (lookup t) (keep_if alive) (lookup-nil t) i sessions
        h.0 (λ ts found. transactions-purge t ts (lookup-Level KeysOnce i ts sessions h found))

  in_key-purge :
      (k : String) (i t : ℕ) (keys : Keys)
      → IsKeys keys
      → in_key k i t (purge_keys alive keys) ≡ and_then (in_key k i t keys) (keep_if alive)
  unfolding purge_keys
  in_key-purge k i t keys h =
      level-purge (purge_sessions alive) (in_session i t) (keep_if alive)
        (rw (lookup-nil {K = ℕ} {V = Transactions} i) refl) k keys h.0
        (λ v found. in_session-purge i t v (lookup-Level IsSessions k v keys h found))

  subscriber-purge :
      (u k : String) (i t : ℕ) (s : Subscribers)
      → IsSubscribers s
      → subscriber u k i t (purge alive s) ≡ and_then (subscriber u k i t s) (keep_if alive)
  unfolding purge
  subscriber-purge u k i t s h =
      level-purge (purge_keys alive) (in_key k i t) (keep_if alive)
        (rw (lookup-nil {K = String} {V = Sessions} k) refl) u s h.0
        (λ v found. in_key-purge k i t v (lookup-Level IsKeys u v s h found))

  purge_sessions-AllFull :
      (sessions : Sessions) → AllFull (λ ts. Unit {0}) (purge_sessions alive sessions)
  unfolding purge_sessions
  purge_sessions-AllFull sessions =
      change_values-AllFull (λ ts. Unit) (purge_transactions alive) sessions (λ v. tt)

  purge_keys-AllFull : (keys : Keys) → AllFull (AllFull (λ ts. Unit {0})) (purge_keys alive keys)
  unfolding purge_keys
  purge_keys-AllFull keys =
      change_values-AllFull (AllFull (λ ts. Unit)) (purge_sessions alive) keys
        purge_sessions-AllFull

  purge-AllFull : (s : Subscribers) → AllFull (AllFull (AllFull (λ ts. Unit {0}))) (purge alive s)
  unfolding purge
  purge-AllFull s =
      change_values-AllFull (AllFull (AllFull (λ ts. Unit))) (purge_keys alive) s purge_keys-AllFull

  -- After the timer went off without an error, exactly the subscriptions of sessions that are still
  -- alive are left, no map on any level is empty, and the timer waits again.
  pub purge_closed_sessions_lem :
      (m : SubscriptionManager)
      → IsSubscribers m.subscribers
      → ((u k : String) (i t : ℕ)
          → subscriber u k i t (purge_closed_sessions alive false m).subscribers
            ≡ and_then (subscriber u k i t m.subscribers) (keep_if alive))
        × AllFull
            (AllFull (AllFull (λ ts. Unit {0})))
            (purge_closed_sessions alive false m).subscribers
        × ((purge_closed_sessions alive false m).waits ≡ m.waits + 1)
  unfolding purge_closed_sessions
  purge_closed_sessions_lem m h =
      (λ u k i t. subscriber-purge u k i t m.subscribers h, purge-AllFull m.subscribers, refl)
