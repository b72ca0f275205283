-- ===== src/Pbft/Configuration/Canonical.antt =====
-- The sorted peers of pbft/pbft_configuration.cpp, and so the text and the hash of a configuration, do
-- not depend on the order in which the unordered set is iterated; and a text reads back.
use mathlib.Core.List.{Permᴰ}
use mathlib.Core.List.Permᴰ
use swarm_db.Base.{
  ◌≡◌, ◌≢◌, refl, ◌∙◌, ap, inl, inr, Bool-cases, true, false, List, [], ◌∷◌, String, arith,
}
use swarm_db.Base.Equality.{==_iff, ==_refl, string_eq, nat_eq}
use swarm_db.Base.TextOrder.{text_lt, text_lt_irrefl, text_lt_trans, text_lt_connected}
use swarm_db.Pbft.Peers.{PeerAddress}
use swarm_db.Pbft.External.{External}
use swarm_db.Pbft.Configuration.{
  Configuration, conflicts, conflicting_peer_exists, insert_sorted, sort_peers, to_string,
  cache_sorted_peers,
}
use swarm_db.Pbft.Configuration.Valid.{NoConflict}

text_lt_asymm : (s t : String) → text_lt s t ≡ true → text_lt t s ≡ false
text_lt_asymm s t h = ground (arith, text_lt_trans s t s h, text_lt_irrefl s)

-- Insertions of peers with different identities commute.
insert_sorted_comm :
    (p q : PeerAddress) (l : List PeerAddress)
    → p.uuid ≢ q.uuid
    → insert_sorted p (insert_sorted q l) ≡ insert_sorted q (insert_sorted p l)
unfolding insert_sorted
insert_sorted_comm p q [] n =
    ground (arith, text_lt_asymm p.uuid q.uuid, text_lt_connected p.uuid q.uuid)
insert_sorted_comm p q (r ∷ l) n = ground (
  arith,
  insert_sorted_comm p q l n,
  text_lt_asymm p.uuid q.uuid,
  text_lt_connected p.uuid q.uuid,
  text_lt_trans p.uuid q.uuid r.uuid,
  text_lt_trans q.uuid p.uuid r.uuid,
)

conflicts_symm : (p q : PeerAddress) → conflicts p q ≡ conflicts q p
unfolding conflicts
conflicts_symm p q = ground (
  arith,
  ==_iff p.uuid q.uuid,
  ==_iff q.uuid p.uuid,
  ==_iff p.name q.name,
  ==_iff q.name p.name,
  ==_iff p.host q.host,
  ==_iff q.host p.host,
)

conflicts_self : (p : PeerAddress) → conflicts p p ≡ true
unfolding conflicts
conflicts_self p = ground (arith, ==_refl p.uuid)

conflict-perm :
    (p : PeerAddress) {xs ys : List PeerAddress}
    → Permᴰ xs ys
    → conflicting_peer_exists p xs ≡ conflicting_peer_exists p ys
unfolding conflicting_peer_exists
conflict-perm p Permᴰ.nil = refl
conflict-perm p (Permᴰ.cons e d) = ground (arith, conflict-perm p d)
conflict-perm p (Permᴰ.swap e f) = ground arith
conflict-perm p (Permᴰ.trans d e) = conflict-perm p d ∙ conflict-perm p e

pub NoConflict-perm : {xs ys : List PeerAddress} → Permᴰ xs ys → NoConflict xs → NoConflict ys
unfolding conflicting_peer_exists
NoConflict-perm Permᴰ.nil h = tt
NoConflict-perm (Permᴰ.cons {a = a} {b = b} e d) h =
    ground (arith, NoConflict-perm d h.2, conflict-perm a d)
NoConflict-perm (Permᴰ.swap {a = a} {b = b} e f) h = ground (arith, conflicts_symm a b)
NoConflict-perm (Permᴰ.trans d e) h = NoConflict-perm e (NoConflict-perm d h)

uuid-ne :
    (p q : PeerAddress) (l : List PeerAddress)
    → conflicting_peer_exists p (q ∷ l) ≡ false
    → p.uuid ≢ q.uuid
unfolding conflicting_peer_exists conflicts
uuid-ne p q l h = ground (arith, ==_iff q.uuid p.uuid)

-- Two orders of one set of peers sort alike.
pub sort_peers-perm :
    {xs ys : List PeerAddress} → Permᴰ xs ys → NoConflict xs → sort_peers xs ≡ sort_peers ys
unfolding sort_peers
sort_peers-perm Permᴰ.nil h = refl
sort_peers-perm (Permᴰ.cons e d) h = ground (arith, sort_peers-perm d h.2)
sort_peers-perm (Permᴰ.swap {a = a} {b = b} {l = l} e f) h =
    ground (arith, insert_sorted_comm a b (sort_peers l) (uuid-ne a b l h.0))
sort_peers-perm (Permᴰ.trans d e) h = sort_peers-perm d h ∙ sort_peers-perm e (NoConflict-perm d h)

insert_sorted-perm : (p : PeerAddress) (l : List PeerAddress) → Permᴰ (insert_sorted p l) (p ∷ l)
unfolding insert_sorted
insert_sorted-perm p [] = Permᴰ.refl (p ∷ [])
insert_sorted-perm p (q ∷ l) = elim (Bool-cases (text_lt p.uuid q.uuid)) [
  | inl e ↦ rw e (Permᴰ.refl (p ∷ q ∷ l))
  | inr e ↦ rw e (
      Permᴰ.trans (Permᴰ.cons refl (insert_sorted-perm p l))
        (Permᴰ.swap {a = q} {b = p} {a' = p} {b' = q} refl refl))
]

pub sort_peers_perm : (ps : List PeerAddress) → Permᴰ (sort_peers ps) ps
unfolding sort_peers
sort_peers_perm [] = Permᴰ.nil
sort_peers_perm (p ∷ ps) =
    Permᴰ.trans (insert_sorted-perm p (sort_peers ps)) (Permᴰ.cons refl (sort_peers_perm ps))

module _ (ext : External) where
  -- Two configurations of the same peers, each without conflicts, have the same sorted peers, the same
  -- text and the same hash once they are cached, however their sets are iterated.
  pub cache_sorted_peers-perm :
      (c d : Configuration)
      → Permᴰ c.peers d.peers
      → NoConflict c.peers
      → ((cache_sorted_peers ext c).sorted_peers ≡ (cache_sorted_peers ext d).sorted_peers)
        × (to_string ext (cache_sorted_peers ext c) ≡ to_string ext (cache_sorted_peers ext d))
        × ((cache_sorted_peers ext c).cached_hash ≡ (cache_sorted_peers ext d).cached_hash)
  unfolding cache_sorted_peers
  cache_sorted_peers-perm c d p h =
      let e = sort_peers-perm p h in
      (
        e,
        ap ext.styled_configuration e,
        ap (λ ps. ext.hash_of_text (ext.styled_configuration ps)) e,
      )
