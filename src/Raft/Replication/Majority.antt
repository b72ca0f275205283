-- ===== src/Raft/Replication/Majority.antt =====
-- raft/raft.cpp: the index that `last_majority_replicated_log_index` gives was reached by enough peers.
use swarm_db.Base.{
  ℕ, zero, suc, ◌+◌, ◌-◌, ◌*◌, ◌/◌, ◌≤◌, ◌<◌, ◌≡◌, refl, min, some, List, [], ◌∷◌, String, leb,
  length, get_elem?, keep, arith, if◌then◌else◌, All, Option-cases, inl, inr,
}
use swarm_db.Base.Assoc.{Assoc}
use swarm_db.Raft.Quorum.{get_active_quorum}
use swarm_db.Raft.State.{Raft, u32_mod, match_index}
use swarm_db.Raft.Replication.{
  insert_index, sort_indices, match_indices, median, least_median, touch_all,
  last_majority_replicated_log_index,
}

-- How many of the numbers are at least this one.
count_from : ℕ → List ℕ → ℕ
count_from n [] = 0
count_from n (m ∷ ms) = let rest = count_from n ms in if leb n m then suc rest else rest

abbrev IsSorted : List ℕ → Type 0
IsSorted [] = Unit {0}
IsSorted (n ∷ ns) = All (λ m. n ≤ m) ns × IsSorted ns

count_from-insert_index :
    (k n : ℕ) (ms : List ℕ) → count_from k (insert_index n ms) ≡ count_from k (n ∷ ms)
unfolding count_from insert_index
count_from-insert_index k n [] = refl
count_from-insert_index k n (m ∷ ms) = ground (arith, count_from-insert_index k n ms)

count_from-sort_indices : (k : ℕ) (ns : List ℕ) → count_from k (sort_indices ns) ≡ count_from k ns
unfolding count_from sort_indices
count_from-sort_indices k [] = refl
count_from-sort_indices k (n ∷ ns) =
    ground (arith, count_from-insert_index k n (sort_indices ns), count_from-sort_indices k ns)

length-insert_index : (n : ℕ) (ms : List ℕ) → length (insert_index n ms) ≡ suc (length ms)
unfolding insert_index
length-insert_index n [] = refl
length-insert_index n (m ∷ ms) = ground (arith, length-insert_index n ms)

length-sort_indices : (ns : List ℕ) → length (sort_indices ns) ≡ length ns
unfolding sort_indices
length-sort_indices [] = refl
length-sort_indices (n ∷ ns) =
    omega (arith, length-insert_index n (sort_indices ns), length-sort_indices ns)

All-insert_index :
    (k n : ℕ) (ms : List ℕ) → k ≤ n → All (λ m. k ≤ m) ms → All (λ m. k ≤ m) (insert_index n ms)
unfolding insert_index
All-insert_index k n [] h a = (h, tt)
All-insert_index k n (m ∷ ms) h a = ground (arith, All-insert_index k n ms h a.1, a.0, a.1)

All-below : (k n : ℕ) (ms : List ℕ) → k ≤ n → All (λ m. n ≤ m) ms → All (λ m. k ≤ m) ms
All-below k n [] h a = tt
All-below k n (m ∷ ms) h a = (omega (arith, a.0), All-below k n ms h a.1)

insert_index-IsSorted : (n : ℕ) (ms : List ℕ) → IsSorted ms → IsSorted (insert_index n ms)
unfolding insert_index
insert_index-IsSorted n [] h = (tt, tt)
insert_index-IsSorted n (m ∷ ms) h =
    ground
      (arith, insert_index-IsSorted n ms h.1, All-insert_index m n ms, All-below n m ms, h.0, h.1)

sort_indices-IsSorted : (ns : List ℕ) → IsSorted (sort_indices ns)
unfolding sort_indices
sort_indices-IsSorted [] = tt
sort_indices-IsSorted (n ∷ ns) =
    insert_index-IsSorted n (sort_indices ns) (sort_indices-IsSorted ns)

count_from-All : (n : ℕ) (ms : List ℕ) → All (λ m. n ≤ m) ms → count_from n ms ≡ length ms
unfolding count_from
count_from-All n [] a = refl
count_from-All n (m ∷ ms) a = ground (arith, count_from-All n ms a.1, a.0)

-- Behind a place in a sorted list all is at least as large.
count_from_sorted :
    (ns : List ℕ) (i v : ℕ)
    → IsSorted ns
    → get_elem? ns i ≡ some v
    → length ns ≤ i + count_from v ns
unfolding count_from
count_from_sorted [] i v h e = omega arith
count_from_sorted (n ∷ ns) zero v h e = ground (arith, count_from-All n ns h.0)
count_from_sorted (n ∷ ns) (suc i) v h e = ground (arith, count_from_sorted ns i v h.1 e)

count_from-median :
    (ns : List ℕ) (v : ℕ) → median ns ≡ some v → length ns ≤ (length ns + 1) / 2 + count_from v ns
unfolding median
count_from-median ns v e = omega (
  arith,
  count_from_sorted (sort_indices ns) ((length ns + 1) / 2) v (sort_indices-IsSorted ns) e,
  count_from-sort_indices v ns,
  length-sort_indices ns,
)

-- The peers of a set whose known index is at least this one.
abbrev pub reached : Assoc String ℕ → ℕ → List String → List String
reached m n s = keep (λ u. leb n (match_index m u)) s

length-reached :
    (m : Assoc String ℕ) (n v : ℕ) (s : List String)
    → n ≤ v
    → count_from v (match_indices m s) ≤ length (reached m n s)
unfolding count_from match_indices keep
length-reached m n v [] h = omega arith
length-reached m n v (u ∷ s) h = ground (arith, length-reached m n v s h)

length-match_indices :
    (m : Assoc String ℕ) (s : List String) → length (match_indices m s) ≡ length s
unfolding match_indices
length-match_indices m [] = refl
length-match_indices m (u ∷ s) = omega (arith, length-match_indices m s)

median-reached :
    (m : Assoc String ℕ) (s : List String) (n v : ℕ)
    → median (match_indices m s) ≡ some v
    → n ≤ v
    → length s < (length (reached m n s) + 1) * 2
median-reached m s n v e h = omega (
  arith,
  count_from-median (match_indices m s) v e,
  length-match_indices m s,
  length-reached m n v s h,
)

least_median-reached :
    (m : Assoc String ℕ) (ss : List (List String)) (result n : ℕ)
    → least_median m ss result ≡ some n
    → (n ≤ result) × All (λ s. length s < (length (reached m n s) + 1) * 2) ss
unfolding least_median
least_median-reached m [] result n h = ground arith
least_median-reached m (s ∷ ss) result n h = elim (Option-cases (median (match_indices m s))) [
  | inl e ↦ absurd (ground (arith, e, h))
  | inr (v, e) ↦
      let rest = least_median-reached m ss (min result v) n (rw e at h) in
      (omega (arith, rest.0), (median-reached m s n v e (omega (arith, rest.0)), rest.1))
]

-- The peers of each set of the active quorum whose known index is at least the result are, with one peer
-- more, the leader that has the whole log, more than half of the set; nothing changes in the state but
-- that unknown peers have index zero.
pub last_majority_replicated_log_index-reached :
    (r r' : Raft) (n : ℕ) (sets : List (List String))
    → get_active_quorum r.raft_log ≡ some sets
    → last_majority_replicated_log_index r ≡ some (n, r')
    → All (λ s. length s < (length (reached r'.peer_match_index n s) + 1) * 2) sets
      × (r' ≡ record r { peer_match_index = touch_all sets r.peer_match_index })
unfolding last_majority_replicated_log_index
last_majority_replicated_log_index-reached r r' n sets q h =
    let touched = touch_all sets r.peer_match_index in
    elim (Option-cases (least_median touched sets (u32_mod - 1))) [
      | inl e ↦ absurd (ground (arith, q, e, h))
      | inr (v, e) ↦
          let at_n : v ≡ n = ground (arith, q, e, h) in
          let state : r' ≡ record r { peer_match_index = touched } = ground (arith, q, e, h) in
          (rw (state, ← at_n) ((least_median-reached touched sets (u32_mod - 1) v e).1), state)
    ]
