-- ===== src/Pbft/Configuration.antt =====
-- pbft/pbft_configuration.hpp and pbft/pbft_configuration.cpp: a set of peers, with its peers sorted by
-- their identity and its hash kept beside it. The unordered set is a list in the order of its iteration,
-- which the code leaves open; a new peer stands first here.
pub mod Valid
pub mod Canonical
pub mod RoundTrip
mod Tests
use swarm_db.Base.{
  ℕ, Bool, true, false, not, ◌&&◌, ◌||◌, Option, none, some, List, [], ◌∷◌, String, if◌then◌else◌,
}
use swarm_db.Base.Equality.{◌==◌, string_eq, nat_eq}
use swarm_db.Base.TextOrder.{text_lt}
use swarm_db.Proto.{PeerInfo}
use swarm_db.Pbft.Peers.{PeerAddress, same_address, to_peer_address}
use swarm_db.Pbft.External.{External, rejected, mistyped, entries}

pub record Configuration : Type 0 where
  pub peers : List PeerAddress
  pub sorted_peers : List PeerAddress
  pub cached_hash : String

abbrev pub new_configuration : Configuration
new_configuration = record { peers = []; sorted_peers = []; cached_hash = "" }

abbrev pub get_hash : Configuration → String
get_hash c = c.cached_hash

-- The test of one peer in the loop of `conflicting_peer_exists`.
unfoldable pub conflicts : PeerAddress → PeerAddress → Bool
conflicts peer p =
    if p.uuid == peer.uuid || p.name == peer.name
    then true
    else if p.host == peer.host
    then p.port == peer.port || p.http_port == peer.http_port
    else false

unfoldable pub conflicting_peer_exists : PeerAddress → List PeerAddress → Bool
unfolding conflicts
conflicting_peer_exists peer [] = false
conflicting_peer_exists peer (p ∷ ps) =
    let rest = conflicting_peer_exists peer ps in if conflicts peer p then true else rest

unfoldable pub valid_peer : PeerAddress → Bool
valid_peer peer =
    not (
      peer.name == ""
      || peer.uuid == ""
      || peer.host == ""
      || peer.port == 0
      || peer.http_port == 0)

-- unordered_set::find, on the equality of addresses
unfoldable pub has_address : PeerAddress → List PeerAddress → Bool
has_address peer [] = false
has_address peer (p ∷ ps) =
    let rest = has_address peer ps in if same_address p peer then true else rest

-- unordered_set::insert
unfoldable pub insert_address : PeerAddress → List PeerAddress → List PeerAddress
unfolding has_address
insert_address peer ps = if has_address peer ps then ps else peer ∷ ps

-- unordered_set::erase of what `find` found
unfoldable pub erase_address : PeerAddress → List PeerAddress → List PeerAddress
erase_address peer [] = []
erase_address peer (p ∷ ps) =
    let rest = erase_address peer ps in if same_address p peer then ps else p ∷ rest

-- std::sort by identity
unfoldable pub insert_sorted : PeerAddress → List PeerAddress → List PeerAddress
insert_sorted p [] = p ∷ []
insert_sorted p (q ∷ qs) =
    let rest = insert_sorted p qs in if text_lt p.uuid q.uuid then p ∷ q ∷ qs else q ∷ rest

unfoldable pub sort_peers : List PeerAddress → List PeerAddress
unfolding insert_sorted
sort_peers [] = []
sort_peers (p ∷ ps) = insert_sorted p (sort_peers ps)

-- The peers of the one list that the other one lacks.
unfoldable pub missing_from : List PeerAddress → List PeerAddress → List PeerAddress
missing_from others [] = []
missing_from others (p ∷ ps) =
    let rest = missing_from others ps in if has_address p others then rest else p ∷ rest

-- The pair of the peers added and the peers removed.
unfoldable pub diff : Configuration → Configuration → List PeerAddress × List PeerAddress
unfolding missing_from
diff c other = (missing_from c.peers other.peers, missing_from other.peers c.peers)

-- The loop of `from_string`: the peers so far, and whether all entries were taken.
unfoldable pub take_entries : List PeerInfo → Bool → List PeerAddress → Bool × List PeerAddress
take_entries [] result ps = (result, ps)
take_entries (i ∷ is) result ps =
    let peer = to_peer_address i in
    let bad = conflicting_peer_exists peer ps || not (valid_peer peer) in
    take_entries is (if bad then false else result) (if bad then ps else insert_address peer ps)

module _ (ext : External) where
  unfoldable pub to_string : Configuration → String
  to_string c = ext.styled_configuration c.sorted_peers

  unfoldable pub create_hash : Configuration → String
  unfolding to_string
  create_hash c = ext.hash_of_text (to_string c)

  unfoldable pub cache_sorted_peers : Configuration → Configuration
  unfolding sort_peers create_hash
  cache_sorted_peers c =
      let sorted = record c { sorted_peers = sort_peers c.peers } in
      record sorted { cached_hash = create_hash sorted }

  unfoldable pub insert_peer : PeerAddress → Configuration → Bool × Configuration
  insert_peer peer c =
      if conflicting_peer_exists peer c.peers || not (valid_peer peer)
      then (false, c)
      else (true, record c { peers = insert_address peer c.peers })

  unfoldable pub add_peer : PeerAddress → Configuration → Bool × Configuration
  unfolding insert_peer cache_sorted_peers
  add_peer peer c =
      let (inserted, c') = insert_peer peer c in
      if inserted then (true, cache_sorted_peers c') else (false, c')

  unfoldable pub remove_peer : PeerAddress → Configuration → Bool × Configuration
  unfolding cache_sorted_peers
  remove_peer peer c =
      if has_address peer c.peers
      then (true, cache_sorted_peers (record c { peers = erase_address peer c.peers }))
      else (false, c)

  -- `none` where the code throws, on a configuration that no caller keeps.
  unfoldable pub from_string : String → Configuration → Option (Bool × Configuration)
  unfolding take_entries cache_sorted_peers
  from_string str c = elim (ext.parse_configuration str) [
    | rejected ↦ some (false, c)
    | mistyped ↦ none
    | entries is ↦
        let (result, ps) = take_entries is true [] in
        some (result, cache_sorted_peers (record c { peers = ps }))
  ]
