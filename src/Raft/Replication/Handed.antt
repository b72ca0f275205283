-- ===== src/Raft/Replication/Handed.antt =====
-- raft/raft.cpp: what is handed to the commit handler, and the notifications of auditors, which leave it.
use swarm_db.Base.{
  ℕ, zero, suc, ◌+◌, ◌≤◌, ◌<◌, ◌≡◌, refl, subst, ◌∙◌, ap, true, some, List, [], ◌∷◌, ◌++◌, String,
  length, get_elem?, is_some, Bool, All, All-append, find_if, arith, Bool-cases, Option-cases, inl,
  inr,
}
use mathlib.Core.List.{append-nil}
use swarm_db.Proto.{PeerInfo, AuditMessage, raft_commit}
use swarm_db.Pbft.Peers.{PeerAddress, same_address, to_peer_address}
use swarm_db.Raft.Quorum.{peers_of, old_peers, new_peers}
use swarm_db.Raft.Log.{single_quorum, EntryMessage, LogEntry, RaftLog, find_last, last_quorum_entry}
use swarm_db.Raft.State.{
  Output, commits, audits, sends, answers, closes, Raft, output, get_all_peers, add_address,
  add_addresses, addresses_of, audit_all, notify_commit,
}

-- What was handed to the commit handler, in order.
abbrev pub committed : List Output → List EntryMessage
committed [] = []
committed (commits m ∷ os) = m ∷ committed os
committed (_ ∷ os) = committed os

-- The messages of so many entries from an index on.
abbrev pub messages_from : ℕ → ℕ → List LogEntry → List EntryMessage
messages_from i zero es = []
messages_from zero (suc n) [] = []
messages_from zero (suc n) (e ∷ es) = e.msg ∷ messages_from zero n es
messages_from (suc i) (suc n) [] = []
messages_from (suc i) (suc n) (e ∷ es) = messages_from i (suc n) es

pub committed-append : (os ps : List Output) → committed (os ++ ps) ≡ committed os ++ committed ps
committed-append [] ps = refl
committed-append (commits m ∷ os) ps = ap (λ ms. m ∷ ms) (committed-append os ps)
committed-append (sends a m ∷ os) ps = committed-append os ps
committed-append (answers m ∷ os) ps = committed-append os ps
committed-append (closes ∷ os) ps = committed-append os ps
committed-append (audits a m ∷ os) ps = committed-append os ps

-- What a notification of the auditors leaves.
pub record Quiet (r r' : Raft) : Type 0 where
  pub state : r'.current_state ≡ r.current_state
  pub index : r'.commit_index ≡ r.commit_index
  pub log : r'.raft_log ≡ r.raft_log
  pub handed : committed r'.outputs ≡ committed r.outputs

-- Every host of the peers is an address.
abbrev pub HostsFit : (String → Bool) → List PeerInfo → Type 0
HostsFit is_ipv4 = All (λ p. is_ipv4 p.host ≡ true)

-- So are those of the peers that an entry names.
pub record Addressed (is_ipv4 : String → Bool) (e : LogEntry) : Type 0 where
  pub single : HostsFit is_ipv4 (peers_of e.msg)
  pub old : HostsFit is_ipv4 (old_peers e.msg)
  pub new : HostsFit is_ipv4 (new_peers e.msg)

module _ (is_ipv4 : String → Bool) where
  abbrev Reachable : List PeerAddress → Type 0
  Reachable = All (λ p. is_ipv4 p.host ≡ true)

  add_address-Reachable :
      (a : PeerAddress) (seen : List PeerAddress)
      → is_ipv4 a.host ≡ true
      → Reachable seen
      → Reachable (add_address a seen)
  unfolding add_address
  add_address-Reachable a seen h hs = elim (Bool-cases (is_some (find_if (same_address a) seen))) [
    | inl there ↦ rw there hs
    | inr new ↦ rw new (All-append (λ p. is_ipv4 p.host ≡ true) seen (a ∷ []) hs (h, tt))
  ]

  add_addresses-Reachable :
      (ps : List PeerInfo) (seen : List PeerAddress)
      → HostsFit is_ipv4 ps
      → Reachable seen
      → Reachable (add_addresses ps seen)
  unfolding add_addresses to_peer_address
  add_addresses-Reachable [] seen h hs = hs
  add_addresses-Reachable (p ∷ ps) seen h hs =
      add_addresses-Reachable ps (add_address (to_peer_address p) seen) h.1
        (add_address-Reachable (to_peer_address p) seen h.0 hs)

  addresses_of-Reachable : (e : LogEntry) → Addressed is_ipv4 e → Reachable (addresses_of e)
  unfolding addresses_of
  addresses_of-Reachable e a =
      elim e.entry_type as (λ t. Reachable (addresses_of (record e { entry_type = t }))) [
        | single_quorum ↦ add_addresses-Reachable (peers_of e.msg) [] a.single tt
        | _ ↦
            add_addresses-Reachable (new_peers e.msg) _ a.new
              (add_addresses-Reachable (old_peers e.msg) [] a.old tt)
      ]

  audit_all-Quiet :
      (m : AuditMessage) (ps : List PeerAddress) (r : Raft)
      → Reachable ps
      → (r' : Raft) × (audit_all is_ipv4 m ps r ≡ some r') × Quiet r r'
  unfolding audit_all
  audit_all-Quiet m [] r h =
      (r, refl, record { state = refl; index = refl; log = refl; handed = refl })
  audit_all-Quiet m (p ∷ ps) r h =
      let (r', told, q) = audit_all-Quiet m ps (output (audits p m) r) h.1 in
      (
        r',
        rw (h.0, told) refl,
        record {
          state = q.state;
          index = q.index;
          log = q.log;
          handed =
              q.handed
              ∙ (committed-append r.outputs (audits p m ∷ []) ∙ append-nil (committed r.outputs));
        },
      )

-- The log names a quorum.
abbrev pub HasQuorum : RaftLog → Type 0
HasQuorum log = is_some (last_quorum_entry log) ≡ true

find_last-All :
    (P : LogEntry → Type 0) (es : List LogEntry) (e : LogEntry)
    → find_last es ≡ some e
    → All P es
    → P e
unfolding find_last
find_last-All P [] e h a = absurd (ground arith)
find_last-All P (f ∷ es) e h a = elim (Option-cases (find_last es)) [
  | inr (g, found) ↦ find_last-All P es e (ground (arith, h, found)) a.1
  | inl nothing ↦ subst P (ground (arith, h, nothing)) a.0
]

last_quorum_entry-All :
    (P : LogEntry → Type 0) (log : RaftLog) (e : LogEntry)
    → last_quorum_entry log ≡ some e
    → All P log.log_entries
    → P e
unfolding last_quorum_entry
last_quorum_entry-All P log e h a = find_last-All P log.log_entries e h a

pub notify_commit-Quiet :
    (is_ipv4 : String → Bool) (i : ℕ) (text : String) (r : Raft)
    → HasQuorum r.raft_log
    → All (Addressed is_ipv4) r.raft_log.log_entries
    → (r' : Raft) × (notify_commit is_ipv4 i text r ≡ some r') × Quiet r r'
unfolding notify_commit get_all_peers
notify_commit-Quiet is_ipv4 i text r h a = elim (Bool-cases r.enable_audit) [
  | inr off ↦ (r, rw off refl, record { state = refl; index = refl; log = refl; handed = refl })
  | inl on ↦ elim (Option-cases (last_quorum_entry r.raft_log)) [
    | inl e ↦ absurd (ground (arith, e, h))
    | inr (e, found) ↦
        let (r', told, q) = audit_all-Quiet is_ipv4 (raft_commit i text) (addresses_of e) r (
          addresses_of-Reachable is_ipv4 e
            (last_quorum_entry-All (Addressed is_ipv4) r.raft_log e found a)) in
        (r', ground (arith, on, found, told), q)
  ]
]

pub get_elem?_below :
    (es : List LogEntry) (i : ℕ) → i < length es → (e : LogEntry) × (get_elem? es i ≡ some e)
get_elem?_below [] i h = absurd (omega arith)
get_elem?_below (e ∷ es) zero h = (e, refl)
get_elem?_below (e ∷ es) (suc i) h = get_elem?_below es i (omega arith)

pub get_elem?-All :
    (P : LogEntry → Type 0) (es : List LogEntry) (i : ℕ) (e : LogEntry)
    → get_elem? es i ≡ some e
    → All P es
    → P e
get_elem?-All P [] i e h a = absurd (ground arith)
get_elem?-All P (f ∷ es) zero e h a = subst P (ground (arith, h)) a.0
get_elem?-All P (f ∷ es) (suc i) e h a = get_elem?-All P es i e h a.1

pub messages_from_step :
    (i n : ℕ) (es : List LogEntry) (e : LogEntry)
    → get_elem? es i ≡ some e
    → messages_from i (suc n) es ≡ e.msg ∷ messages_from (suc i) n es
messages_from_step i n [] e h = absurd (ground arith)
messages_from_step zero zero (f ∷ es) e h = ground arith
messages_from_step zero (suc n) (f ∷ es) e h = ground arith
messages_from_step (suc i) zero (f ∷ es) e h = messages_from_step i zero es e h
messages_from_step (suc i) (suc n) (f ∷ es) e h = messages_from_step i (suc n) es e h

pub messages_from-append :
    (i n : ℕ) (es more : List LogEntry)
    → i + n ≤ length es
    → messages_from i n (es ++ more) ≡ messages_from i n es
messages_from-append i zero es more h = refl
messages_from-append zero (suc n) [] more h = absurd (omega arith)
messages_from-append zero (suc n) (e ∷ es) more h =
    ap (λ ms. e.msg ∷ ms) (messages_from-append zero n es more (omega arith))
messages_from-append (suc i) (suc n) [] more h = absurd (omega arith)
messages_from-append (suc i) (suc n) (e ∷ es) more h =
    messages_from-append i (suc n) es more (omega arith)

pub find_last_some :
    (es more : List LogEntry)
    → is_some (find_last es) ≡ true
    → is_some (find_last (es ++ more)) ≡ true
unfolding find_last
find_last_some [] more h = absurd (ground arith)
find_last_some (e ∷ es) more h = ground (arith, find_last_some es more, h)
