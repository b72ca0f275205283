-- ===== src/Pbft/Configuration/RoundTrip.antt =====
-- `from_string` of pbft/pbft_configuration.cpp reads back what `to_string` wrote.
use mathlib.Core.List.{Permᴰ}
use mathlib.Core.List.Permᴰ
use swarm_db.Base.{
  Bool, ◌≡◌, refl, sym, subst, ◌∙◌, ap, ◌<◌, ◌++◌, map, u16_mod, true, some, List, [], ◌∷◌, String,
  arith,
}
use swarm_db.Proto.{PeerInfo}
use swarm_db.Pbft.Peers.{PeerAddress, to_peer_address}
use swarm_db.Pbft.External.{External, entries}
use swarm_db.Pbft.Configuration.{
  Configuration, insert_address, sort_peers, create_hash, to_string, cache_sorted_peers,
  take_entries, from_string,
}
use swarm_db.Pbft.Configuration.Valid.{NoConflict, IsValid, has_address-conflicts}
use swarm_db.Pbft.Configuration.Canonical.{NoConflict-perm, sort_peers-perm, sort_peers_perm}

-- The entries that the text of a configuration holds.
abbrev pub to_info : PeerAddress → PeerInfo
to_info p = record {
  host = p.host;
  port = p.port;
  http_port = p.http_port;
  name = p.name;
  uuid = p.uuid;
}

-- Ports of 16 bits.
abbrev pub PortsFit : List PeerAddress → Type 0
PortsFit [] = Unit {0}
PortsFit (p ∷ ps) = (p.port < u16_mod) × (p.http_port < u16_mod) × PortsFit ps

PortsFit-perm : {xs ys : List PeerAddress} → Permᴰ xs ys → PortsFit xs → PortsFit ys
PortsFit-perm Permᴰ.nil h = tt
PortsFit-perm (Permᴰ.cons e d) h = ground (arith, PortsFit-perm d h.2)
PortsFit-perm (Permᴰ.swap e f) h = ground arith
PortsFit-perm (Permᴰ.trans d e) h = PortsFit-perm e (PortsFit-perm d h)

-- The order in which the entries end up in the set.
stack : List PeerAddress → List PeerAddress → List PeerAddress
stack [] acc = acc
stack (p ∷ ps) acc = stack ps (p ∷ acc)

stack-perm : (ps acc : List PeerAddress) → Permᴰ (stack ps acc) (ps ++ acc)
unfolding stack
stack-perm [] acc = Permᴰ.refl acc
stack-perm (p ∷ ps) acc = Permᴰ.trans (stack-perm ps (p ∷ acc)) (Permᴰ.middle p ps acc)

NoConflict-stack : (ps acc : List PeerAddress) → NoConflict (stack ps acc) → NoConflict acc
unfolding stack
NoConflict-stack [] acc h = h
NoConflict-stack (p ∷ ps) acc h = (NoConflict-stack ps (p ∷ acc) h).2

to_peer_address-to_info :
    (p : PeerAddress) → p.port < u16_mod → p.http_port < u16_mod → to_peer_address (to_info p) ≡ p
unfolding to_peer_address
to_peer_address-to_info p h k = ground arith

-- Every entry of a list without conflicts is taken.
take_entries-stack :
    (ps acc : List PeerAddress)
    → NoConflict (stack ps acc)
    → PortsFit ps
    → take_entries (map to_info ps) true acc ≡ (true, stack ps acc)
unfolding stack take_entries insert_address
take_entries-stack [] acc h k = refl
take_entries-stack (p ∷ ps) acc h k =
    let n = NoConflict-stack ps (p ∷ acc) h in
    ground (
      arith,
      n,
      take_entries-stack ps (p ∷ acc) h k.2,
      to_peer_address-to_info p k.0 k.1,
      has_address-conflicts p acc n.0,
    )

-- What sorting makes of the peers read back.
stack_sorted-perm : (ps s : List PeerAddress) → s ≡ sort_peers ps → Permᴰ ps (stack s [])
stack_sorted-perm ps s e = Permᴰ.symm (
    Permᴰ.trans (stack-perm s [])
      (Permᴰ.trans (Permᴰ.append-nil s) (subst (λ x. Permᴰ x ps) (sym e) (sort_peers_perm ps))))

module _ (ext : External) where
  from_string-entries :
      (str : String) (d : Configuration) (s : List PeerAddress)
      → ext.parse_configuration str ≡ entries (map to_info s)
      → NoConflict (stack s [])
      → PortsFit s
      → from_string ext str d
        ≡ some (true, cache_sorted_peers ext (record d { peers = stack s [] }))
  unfolding from_string
  from_string-entries str d s reads n k =
      rw (reads, from_string) (rw (take_entries-stack s [] n k) refl)

  -- If the JSON reader gives back the entries that the writer was given, then `from_string` accepts the
  -- text of a valid configuration whose ports have 16 bits, whatever configuration it reads it into, and
  -- gives the same sorted peers, the same text and the hash of that text.
  pub from_string-to_string :
      (c d : Configuration)
      → IsValid c
      → PortsFit c.peers
      → ext.parse_configuration (to_string ext c) ≡ entries (map to_info c.sorted_peers)
      → (r : Bool × Configuration) × (from_string ext (to_string ext c) d ≡ some r)
        × (r.0 ≡ true)
        × (r.1.sorted_peers ≡ c.sorted_peers)
        × (to_string ext r.1 ≡ to_string ext c)
        × (r.1.cached_hash ≡ create_hash ext c)
  unfolding cache_sorted_peers
  from_string-to_string c d v k reads =
      let s = c.sorted_peers in
      let p = stack_sorted-perm c.peers s v.sorted in
      let e =
        from_string-entries (to_string ext c) d s reads (NoConflict-perm p v.no_conflict) (
          subst PortsFit (sym v.sorted) (PortsFit-perm (Permᴰ.symm (sort_peers_perm c.peers)) k)) in
      let same = sym (sort_peers-perm p v.no_conflict) ∙ sym v.sorted in
      (
        (true, cache_sorted_peers ext (record d { peers = stack s [] })),
        e,
        refl,
        same,
        ap ext.styled_configuration same,
        ap (λ ps. ext.hash_of_text (ext.styled_configuration ps)) same,
      )
