-- ===== src/Pbft/Configuration/Valid.antt =====
-- What every configuration that pbft/pbft_configuration.cpp builds satisfies.
use swarm_db.Base.{◌≡◌, refl, Bool, true, false, List, [], ◌∷◌, arith}
use swarm_db.Base.Equality.{==_refl, string_eq, nat_eq}
use swarm_db.Proto.{PeerInfo}
use swarm_db.Pbft.Peers.{PeerAddress, same_address, to_peer_address}
use swarm_db.Pbft.External.{External}
use swarm_db.Pbft.Configuration.{
  Configuration, new_configuration, conflicts, conflicting_peer_exists, valid_peer, has_address,
  insert_address, erase_address, sort_peers, missing_from, diff, cache_sorted_peers, add_peer,
  remove_peer, take_entries,
}

-- Every peer is complete, and no two share an identity, a name, or a host with a port.
abbrev pub NoConflict : List PeerAddress → Type 0
NoConflict [] = Unit {0}
NoConflict (p ∷ ps) = (conflicting_peer_exists p ps ≡ false) × (valid_peer p ≡ true) × NoConflict ps

pub record IsValid (c : Configuration) : Type 0 where
  pub no_conflict : NoConflict c.peers
  pub sorted : c.sorted_peers ≡ sort_peers c.peers

conflicts-erase :
    (q p : PeerAddress) (ps : List PeerAddress)
    → conflicting_peer_exists q ps ≡ false
    → conflicting_peer_exists q (erase_address p ps) ≡ false
unfolding conflicting_peer_exists erase_address
conflicts-erase q p [] h = refl
conflicts-erase q p (r ∷ ps) h = ground (arith, conflicts-erase q p ps)

erase-NoConflict :
    (p : PeerAddress) (ps : List PeerAddress) → NoConflict ps → NoConflict (erase_address p ps)
unfolding erase_address
erase-NoConflict p [] h = tt
erase-NoConflict p (q ∷ ps) h =
    ground (arith, erase-NoConflict p ps h.2, conflicts-erase q p ps h.0)

pub has_address-conflicts :
    (p : PeerAddress) (ps : List PeerAddress)
    → conflicting_peer_exists p ps ≡ false
    → has_address p ps ≡ false
unfolding conflicting_peer_exists has_address conflicts
has_address-conflicts p [] h = refl
has_address-conflicts p (q ∷ ps) h = ground (arith, has_address-conflicts p ps)

insert-NoConflict :
    (p : PeerAddress) (ps : List PeerAddress)
    → conflicting_peer_exists p ps ≡ false
    → valid_peer p ≡ true
    → NoConflict ps
    → NoConflict (insert_address p ps)
unfolding insert_address
insert-NoConflict p ps h v n = ground (arith, has_address-conflicts p ps h)

take_entries-NoConflict :
    (is : List PeerInfo) (result : Bool) (ps : List PeerAddress)
    → NoConflict ps
    → NoConflict (take_entries is result ps).1
unfolding take_entries
take_entries-NoConflict [] result ps h = h
take_entries-NoConflict (i ∷ is) result ps h =
    take_entries-NoConflict is _ _ (ground (arith, insert-NoConflict (to_peer_address i) ps))

same_address_refl : (p : PeerAddress) → same_address p p ≡ true
same_address_refl p =
    ground (arith, ==_refl p.host, ==_refl p.port, ==_refl p.http_port, ==_refl p.uuid)

missing_from-cons :
    (p : PeerAddress) (zs xs : List PeerAddress)
    → missing_from zs xs ≡ []
    → missing_from (p ∷ zs) xs ≡ []
unfolding missing_from has_address
missing_from-cons p zs [] h = refl
missing_from-cons p zs (x ∷ xs) h = ground (arith, missing_from-cons p zs xs)

missing_from_self : (xs : List PeerAddress) → missing_from xs xs ≡ []
unfolding missing_from has_address
missing_from_self [] = refl
missing_from_self (x ∷ xs) =
    rw (same_address_refl x, missing_from, has_address)
      (missing_from-cons x xs xs (missing_from_self xs))

module _ (ext : External) where
  add_peer_lem :
      (peer : PeerAddress) (c : Configuration)
      → (add_peer ext peer c).0 ≡ true
      → (conflicting_peer_exists peer c.peers ≡ false)
        × ((add_peer ext peer c).1 ≡ cache_sorted_peers ext (record c { peers = peer ∷ c.peers }))
  unfolding add_peer insert_address
  add_peer_lem peer c h = ground (arith, has_address-conflicts peer c.peers)

  new_configuration-IsValid : IsValid new_configuration
  unfolding sort_peers
  new_configuration-IsValid = record { no_conflict = tt; sorted = refl }

  -- Adding a peer keeps a configuration valid, whether it succeeds or not.
  pub add_peer-IsValid :
      (peer : PeerAddress) (c : Configuration) → IsValid c → IsValid (add_peer ext peer c).1
  unfolding add_peer
  add_peer-IsValid peer c v = ground (arith, insert-NoConflict peer c.peers)

  -- Removing a peer keeps a configuration valid, whether it succeeds or not.
  pub remove_peer-IsValid :
      (peer : PeerAddress) (c : Configuration) → IsValid c → IsValid (remove_peer ext peer c).1
  unfolding remove_peer
  remove_peer-IsValid peer c v = ground (arith, erase-NoConflict peer c.peers)

  -- In a valid configuration a peer that was added is the one difference to what was there before.
  pub diff-add_peer :
      (peer : PeerAddress) (c : Configuration)
      → IsValid c
      → (add_peer ext peer c).0 ≡ true
      → diff c (add_peer ext peer c).1 ≡ (peer ∷ [], [])
  unfolding diff missing_from cache_sorted_peers
  diff-add_peer peer c v h =
      let (apart, e) = add_peer_lem peer c h in
      rw e (
        ground (
          arith,
          has_address-conflicts peer c.peers apart,
          missing_from_self c.peers,
          missing_from-cons peer c.peers c.peers (missing_from_self c.peers),
        ))

  -- In a valid configuration, removing a peer that was added succeeds and brings back the peers, and the
  -- sorted peers, that were there.
  pub remove_peer-add_peer :
      (peer : PeerAddress) (c : Configuration)
      → IsValid c
      → (add_peer ext peer c).0 ≡ true
      → ((remove_peer ext peer (add_peer ext peer c).1).0 ≡ true)
        × ((remove_peer ext peer (add_peer ext peer c).1).1.peers ≡ c.peers)
        × ((remove_peer ext peer (add_peer ext peer c).1).1.sorted_peers ≡ c.sorted_peers)
  unfolding remove_peer cache_sorted_peers has_address erase_address
  remove_peer-add_peer peer c v h =
      let (apart, e) = add_peer_lem peer c h in
      rw e (ground (arith, same_address_refl peer, v.sorted))
