-- ===== src/Pbft/ConfigStore.antt =====
-- pbft/pbft_config_store.hpp and pbft/pbft_config_store.cpp: the configurations that a replica knows. The
-- map from an index to a configuration and its flag is the list of its entries by rising index.
pub mod Entries
pub mod Laws
pub mod Current
mod Tests
use swarm_db.Base.{
  ℕ, Bool, true, false, Option, none, some, List, [], ◌∷◌, String, add64, ltb, eqb, find_if,
  if◌then◌else◌, is_some,
}
use swarm_db.Base.Equality.{◌==◌, string_eq}
use swarm_db.Pbft.Configuration.{Configuration, get_hash}

pub record Entry : Type 0 where
  pub index : ℕ
  pub config : Configuration
  pub enabled : Bool

pub record ConfigStore : Type 0 where
  pub configs : List Entry
  pub current_index : ℕ
  pub next_index : ℕ

abbrev pub empty : ConfigStore
empty = record { configs = []; current_index = 0; next_index = 1 }

-- map::insert: an index that is taken stays as it is
unfoldable pub insert_entry : Entry → List Entry → Bool × List Entry
insert_entry e [] = (true, e ∷ [])
insert_entry e (x ∷ xs) =
    let rest = insert_entry e xs in
    if ltb e.index x.index
    then (true, e ∷ x ∷ xs)
    else if eqb e.index x.index
    then (false, x ∷ xs)
    else (rest.0, x ∷ rest.1)

unfoldable pub add : Configuration → ConfigStore → Bool × ConfigStore
unfolding insert_entry
add config s =
    let (inserted, configs) =
      insert_entry (record { index = s.next_index; config = config; enabled = false }) s.configs in
    (inserted, record s { configs = configs; next_index = add64 s.next_index 1 })

abbrev pub hash_is : String → Entry → Bool
hash_is hash e = get_hash e.config == hash

-- The first entry with the hash, by index.
unfoldable pub find_by_hash : String → ConfigStore → Option Entry
find_by_hash hash s = find_if (hash_is hash) s.configs

unfoldable pub set_current : String → ConfigStore → Bool × ConfigStore
unfolding find_by_hash
set_current hash s = elim (find_by_hash hash s) [
  | none ↦ (false, s)
  | some e ↦ (true, record s { current_index = e.index })
]

-- The loop of `remove_prior_to`, up to the entry that was found: only the current one is kept.
unfoldable pub erase_until : ℕ → ℕ → List Entry → List Entry
erase_until current stop [] = []
erase_until current stop (x ∷ xs) =
    let rest = erase_until current stop xs in
    if eqb x.index stop then x ∷ xs else if eqb x.index current then x ∷ rest else rest

unfoldable pub remove_prior_to : String → ConfigStore → Bool × ConfigStore
unfolding find_by_hash erase_until
remove_prior_to hash s = elim (find_by_hash hash s) [
  | none ↦ (false, s)
  | some e ↦ (true, record s { configs = erase_until s.current_index e.index s.configs })
]

unfoldable pub get : String → ConfigStore → Option Configuration
unfolding find_by_hash
get hash s = elim (find_by_hash hash s) [ none ↦ none | some e ↦ some e.config ]

-- The flag of the first entry with the hash.
unfoldable pub enable_first : String → Bool → List Entry → List Entry
enable_first hash val [] = []
enable_first hash val (x ∷ xs) =
    let rest = enable_first hash val xs in
    if hash_is hash x then record x { enabled = val } ∷ xs else x ∷ rest

unfoldable pub enable : String → Bool → ConfigStore → Bool × ConfigStore
unfolding enable_first
enable hash val s =
    if is_some (find_if (hash_is hash) s.configs)
    then (true, record s { configs = enable_first hash val s.configs })
    else (false, s)

unfoldable pub is_enabled : String → ConfigStore → Bool
unfolding find_by_hash
is_enabled hash s = elim (find_by_hash hash s) [ none ↦ false | some e ↦ e.enabled ]

unfoldable pub current : ConfigStore → Option Configuration
current s = elim (find_if (λ e. eqb e.index s.current_index) s.configs) [
  | none ↦ none
  | some e ↦ some e.config
]
