-- ===== src/Pbft/Configuration/Tests.antt =====
-- Configurations of pbft/pbft_configuration.cpp with two peers, and the theorems about them.
use mathlib.Core.List.{Permᴰ}
use swarm_db.Base.{Bool, false, some, ℕ, ◌+◌, ◌≡◌, refl, true, some, [], ◌∷◌, String, arith, map}
use swarm_db.Base.TextOrder.{text_lt}
use swarm_db.Pbft.Peers.{PeerAddress}
use swarm_db.Pbft.External.{External, entries}
use swarm_db.Pbft.Configuration.{
  Configuration, new_configuration, conflicts, conflicting_peer_exists, valid_peer, insert_sorted,
  sort_peers, diff, to_string, create_hash, cache_sorted_peers, insert_peer, add_peer, remove_peer,
  from_string,
}
use swarm_db.Pbft.Configuration.Valid.{
  NoConflict, IsValid, add_peer-IsValid, remove_peer-IsValid, diff-add_peer, remove_peer-add_peer,
}
use swarm_db.Pbft.Configuration.Canonical.{cache_sorted_peers-perm}
use swarm_db.Pbft.Configuration.RoundTrip.{to_info, PortsFit, from_string-to_string}

abbrev peer : String → ℕ → PeerAddress
peer name port = record {
  host = "h";
  port = port;
  http_port = port + 1000;
  name = name;
  uuid = name;
}

abbrev two_peers : Configuration
two_peers = record {
  peers = peer "b" 2 ∷ peer "a" 1 ∷ [];
  sorted_peers = peer "a" 1 ∷ peer "b" 2 ∷ [];
  cached_hash = "ab";
}

abbrev two_swapped : Configuration
two_swapped = record { peers = peer "a" 1 ∷ peer "b" 2 ∷ []; sorted_peers = []; cached_hash = "" }

-- A reader that gives the entries of the two peers.
abbrev ext : External
ext = record {
  short_debug_string = λ r. r.client;
  serialize_envelope = λ e. e.payload;
  parse_configuration = λ s. entries (map to_info two_peers.sorted_peers);
  is_ipv4 = λ h. false;
  styled_configuration = λ ps. "two peers";
  hash_of_text = λ s. s;
  service_state_hash = λ n. "";
}

two_peers-NoConflict : NoConflict two_peers.peers
unfolding conflicting_peer_exists conflicts valid_peer
two_peers-NoConflict = (refl, refl, (refl, refl, tt))

two_peers-IsValid : IsValid two_peers
unfolding sort_peers insert_sorted text_lt
two_peers-IsValid = record { no_conflict = two_peers-NoConflict; sorted = refl }

third_is_added : (add_peer ext (peer "c" 3) two_peers).0 ≡ true
unfolding add_peer insert_peer conflicting_peer_exists conflicts valid_peer
third_is_added = refl

add_peer-IsValid_test : IsValid (add_peer ext (peer "c" 3) two_peers).1
add_peer-IsValid_test = add_peer-IsValid ext (peer "c" 3) two_peers two_peers-IsValid

remove_peer-IsValid_test : IsValid (remove_peer ext (peer "a" 1) two_peers).1
remove_peer-IsValid_test = remove_peer-IsValid ext (peer "a" 1) two_peers two_peers-IsValid

diff-add_peer_test : diff two_peers (add_peer ext (peer "c" 3) two_peers).1 ≡ (peer "c" 3 ∷ [], [])
diff-add_peer_test = diff-add_peer ext (peer "c" 3) two_peers two_peers-IsValid third_is_added

remove_peer-add_peer_test :
    ((remove_peer ext (peer "c" 3) (add_peer ext (peer "c" 3) two_peers).1).0 ≡ true)
    × ((remove_peer ext (peer "c" 3) (add_peer ext (peer "c" 3) two_peers).1).1.peers
        ≡ two_peers.peers)
    × ((remove_peer ext (peer "c" 3) (add_peer ext (peer "c" 3) two_peers).1).1.sorted_peers
        ≡ two_peers.sorted_peers)
remove_peer-add_peer_test =
    remove_peer-add_peer ext (peer "c" 3) two_peers two_peers-IsValid third_is_added

cache_sorted_peers-perm_test :
    ((cache_sorted_peers ext two_peers).sorted_peers
      ≡ (cache_sorted_peers ext two_swapped).sorted_peers)
    × (to_string ext (cache_sorted_peers ext two_peers)
        ≡ to_string ext (cache_sorted_peers ext two_swapped))
    × ((cache_sorted_peers ext two_peers).cached_hash
        ≡ (cache_sorted_peers ext two_swapped).cached_hash)
cache_sorted_peers-perm_test =
    cache_sorted_peers-perm ext two_peers two_swapped (Permᴰ.swap refl refl) two_peers-NoConflict

reads_back :
    ext.parse_configuration (to_string ext two_peers) ≡ entries (map to_info two_peers.sorted_peers)
reads_back = refl

ports_fit : PortsFit two_peers.peers
ports_fit = (omega arith, omega arith, (omega arith, omega arith, tt))

from_string-to_string_example :
    (r : Bool × Configuration) × (from_string ext (to_string ext two_peers) new_configuration
      ≡ some r)
    × (r.0 ≡ true)
    × (r.1.sorted_peers ≡ two_peers.sorted_peers)
    × (to_string ext r.1 ≡ to_string ext two_peers)
    × (r.1.cached_hash ≡ create_hash ext two_peers)
from_string-to_string_example =
    from_string-to_string ext two_peers new_configuration two_peers-IsValid ports_fit reads_back
