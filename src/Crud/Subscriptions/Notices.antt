-- ===== src/Crud/Subscriptions/Notices.antt =====
-- crud/subscription_manager.cpp: `notify_sessions` tells every live subscriber of a write, and nobody else.
use swarm_db.Base.{
  ℕ, ◌≡◌, ◌≢◌, refl, ◌∙◌, sym, Bool, true, none, some, [], ◌∷◌, String, Bool-cases, arith,
  Option-cases, inl, inr, All, All-append, Among, Among-append_left, Among-append_right,
}
use swarm_db.Base.Equality.{nat_eq, string_eq}
use swarm_db.Base.Assoc.{lookup, lookup-nil}
use swarm_db.Base.Assoc.Keys.{and_then, KeysOnce, lookup-behind, lookup-first, lookup_cases}
use swarm_db.Proto.{DatabaseResponse}
use swarm_db.Crud.Subscriptions.{
  Session, Transactions, Sessions, Subscribers, Datagram, notify_transactions, notify_all, notice,
  notify_sessions,
}
use swarm_db.Crud.Subscriptions.Laws.{in_session, subscriber}
use swarm_db.Crud.Subscriptions.Valid.{IsSessions, IsKeys, IsSubscribers, lookup-Level}

abbrev pub datagram : (ℕ → DatabaseResponse) → ℕ → Session → Datagram
datagram response t session = record { session = session; response = response t }

module _ (alive : Session → Bool) (response : ℕ → DatabaseResponse) where
  notify_transactions_complete :
      (t : ℕ) (session : Session) (ts : Transactions)
      → lookup t ts ≡ some session
      → alive session ≡ true
      → Among (datagram response t session) (notify_transactions alive response ts)
  unfolding notify_transactions
  notify_transactions_complete t session [] found live =
      absurd (ground (arith, lookup-nil {K = ℕ} {V = Session} t))
  notify_transactions_complete t session ((j, s) ∷ ts) found live =
      let rest = notify_transactions_complete t session ts in
      elim (lookup_cases j t s ts) [
        | inl (same, first) ↦
            let here : datagram response j s ≡ datagram response t session = cc in
            let up : alive s ≡ true = cc in rw up (inl here)
        | inr behind ↦
            let there : Among (datagram response t session)
                (notify_transactions alive response ts) =
              rest (sym behind ∙ found) live in
            elim (Bool-cases (alive s)) [ inl up ↦ rw up (inr there) | inr down ↦ rw down there ]
      ]

  notify_transactions_sound :
      (P : Datagram → Type 0) (ts : Transactions)
      → KeysOnce ts
      → ((t : ℕ) (s : Session) → lookup t ts ≡ some s → alive s ≡ true → P (datagram response t s))
      → All P (notify_transactions alive response ts)
  unfolding notify_transactions
  notify_transactions_sound P [] h p = tt
  notify_transactions_sound P ((t, s) ∷ ts) h p =
      let rest : All P (notify_transactions alive response ts) =
        notify_transactions_sound P ts h.1
          (λ j r found. p j r (lookup-behind t j s r ts h.0 found)) in
      elim (Bool-cases (alive s)) [
        | inl live ↦ rw live (p t s (lookup-first t s ts) live, rest)
        | inr dead ↦ rw dead rest
      ]

  notify_all_sound :
      (P : Datagram → Type 0) (sessions : Sessions)
      → IsSessions sessions
      → ((i t : ℕ) (s : Session)
          → in_session i t sessions ≡ some s
          → alive s ≡ true
          → P (datagram response t s))
      → All P (notify_all alive response sessions)
  unfolding notify_all
  notify_all_sound P [] h p = tt
  notify_all_sound P ((i, ts) ∷ sessions) h p =
      All-append P (notify_transactions alive response ts) (notify_all alive response sessions)
        (notify_transactions_sound P ts h.1.0
          (λ t s found. p i t s (rw (lookup-first i ts sessions) found)))
        (notify_all_sound P sessions (h.0.1, h.1.1)
          (λ j t s found. p j t s (in_session-behind j t s found)))
    where
      in_session-behind :
          (j t : ℕ) (s : Session)
          → in_session j t sessions ≡ some s
          → in_session j t ((i, ts) ∷ sessions) ≡ some s
      in_session-behind j t s found = elim (Option-cases (lookup j sessions)) [
        | inl e ↦ absurd (ground (arith, e))
        | inr (us, e) ↦ rw (lookup-behind i j ts us sessions h.0.0 e) (ground (arith, e))
      ]

  notify_all_complete :
      (i t : ℕ) (session : Session) (sessions : Sessions)
      → in_session i t sessions ≡ some session
      → alive session ≡ true
      → Among (datagram response t session) (notify_all alive response sessions)
  unfolding notify_all
  notify_all_complete i t session [] found live =
      absurd (ground (arith, lookup-nil {K = ℕ} {V = Transactions} i))
  notify_all_complete i t session ((j, ts) ∷ sessions) found live =
      let rest = notify_all_complete i t session sessions in
      elim (lookup_cases j i ts sessions) [
        | inl (same, first) ↦
            Among-append_left _ (notify_transactions alive response ts) _
              (notify_transactions_complete t session ts (rw first at found) live)
        | inr behind ↦
            Among-append_right _ (notify_transactions alive response ts) _
              (rest (rw behind at found) live)
      ]

module _ (alive : Session → Bool) (uuid : String) (update : Bool) (key value : String)
    (s : Subscribers) where
  -- Without subscriptions to the key there is nothing to send.
  notify_sessions-none :
      and_then (lookup uuid s) (lookup key) ≡ none
      → notify_sessions alive uuid update key value s ≡ []
  unfolding notify_sessions
  notify_sessions-none h = ground arith

  notify_sessions-some :
      (sessions : Sessions)
      → and_then (lookup uuid s) (lookup key) ≡ some sessions
      → notify_sessions alive uuid update key value s
        ≡ notify_all alive (notice uuid update key value) sessions
  unfolding notify_sessions
  notify_sessions-some sessions h = ground arith

  subscriber-none :
      (i t : ℕ) (session : Session)
      → and_then (lookup uuid s) (lookup key) ≡ none
      → subscriber uuid key i t s ≢ some session
  subscriber-none i t session h = ground arith

  subscriber-some :
      (sessions : Sessions) (i t : ℕ)
      → and_then (lookup uuid s) (lookup key) ≡ some sessions
      → subscriber uuid key i t s ≡ in_session i t sessions
  subscriber-some sessions i t h = ground arith

  notify_sessions_complete :
      (i t : ℕ) (session : Session)
      → subscriber uuid key i t s ≡ some session
      → alive session ≡ true
      → Among
          (datagram (notice uuid update key value) t session)
          (notify_sessions alive uuid update key value s)
  notify_sessions_complete i t session found live =
      elim (Option-cases (and_then (lookup uuid s) (lookup key))) [
        | inl e ↦ absurd (subscriber-none i t session e found)
        | inr (sessions, e) ↦ rw (notify_sessions-some sessions e) (
            notify_all_complete alive (notice uuid update key value) i t session sessions
              (sym (subscriber-some sessions i t e) ∙ found) live)
      ]

  notify_sessions_sound :
      IsSubscribers s
      → All
          (λ d.
            (alive d.session ≡ true)
            × ((i : ℕ) × (t : ℕ) × (subscriber uuid key i t s ≡ some d.session)
                × (d.response ≡ notice uuid update key value t)))
          (notify_sessions alive uuid update key value s)
  notify_sessions_sound h = elim (Option-cases (and_then (lookup uuid s) (lookup key))) [
    | inl e ↦ rw (notify_sessions-none e) tt
    | inr (sessions, e) ↦ rw (notify_sessions-some sessions e) (
        notify_all_sound alive (notice uuid update key value) _ sessions (inside sessions e)
          (λ i t session found live. (live, (i, t, subscriber-some sessions i t e ∙ found, refl))))
  ]
    where
      inside :
          (sessions : Sessions)
          → and_then (lookup uuid s) (lookup key) ≡ some sessions
          → IsSessions sessions
      inside sessions e = elim (Option-cases (lookup uuid s)) [
        | inl f ↦ absurd (ground (arith, e, f))
        | inr (keys, f) ↦
            lookup-Level IsSessions key sessions keys (lookup-Level IsKeys uuid keys s h f)
              (ground (arith, e, f))
      ]

  -- A write to a key of a database sends its notice to every live session that is subscribed to the
  -- key, for each of its transactions, and every datagram that it sends is such a notice.
  pub notify_sessions_exact :
      IsSubscribers s
      → ((i t : ℕ) (session : Session)
          → subscriber uuid key i t s ≡ some session
          → alive session ≡ true
          → Among
              (datagram (notice uuid update key value) t session)
              (notify_sessions alive uuid update key value s))
        × All
            (λ d.
              (alive d.session ≡ true)
              × ((i : ℕ) × (t : ℕ) × (subscriber uuid key i t s ≡ some d.session)
                  × (d.response ≡ notice uuid update key value t)))
            (notify_sessions alive uuid update key value s)
  notify_sessions_exact h = (notify_sessions_complete, notify_sessions_sound h)
