-- ===== src/Pbft/ConfigStore/Tests.antt =====
-- The store of pbft/pbft_config_store.cpp with two configurations, and its theorems there.
use swarm_db.Base.{
  ◌≡◌, true, false, ◌&&◌, none, some, [], ◌∷◌, String, arith, is_some, if◌then◌else◌,
}
use swarm_db.Base.Equality.{◌==◌, string_eq}
use swarm_db.Pbft.Configuration.{Configuration, get_hash}
use swarm_db.Pbft.ConfigStore.{
  ConfigStore, add, set_current, remove_prior_to, get, enable, is_enabled, current,
}
use swarm_db.Pbft.ConfigStore.Laws.{
  IsValid, add_lem, remove_prior_to_lem, set_current_lem, enable_lem,
}

abbrev configuration : String → Configuration
configuration hash = record { peers = []; sorted_peers = []; cached_hash = hash }

-- The first is the current one, the second has come in since.
abbrev store : ConfigStore
store = record {
  configs =
      record { index = 1; config = configuration "one"; enabled = true }
      ∷ record { index = 2; config = configuration "two"; enabled = false }
      ∷ [];
  current_index = 1;
  next_index = 3;
}

store-IsValid : IsValid store
store-IsValid = record {
  rising = (omega arith, omega arith, (omega arith, omega arith, tt));
  current_below = omega arith;
  fits = omega arith;
}

add_lem_test :
    ((add (configuration "three") store).0 ≡ true)
    × IsValid (add (configuration "three") store).1
    × (current (add (configuration "three") store).1 ≡ current store)
    × ((hash : String)
        → get hash (add (configuration "three") store).1 ≡ (
            if is_some (get hash store)
            then get hash store
            else if get_hash (configuration "three") == hash
            then some (configuration "three")
            else none))
    × ((hash : String)
        → is_enabled hash (add (configuration "three") store).1 ≡ is_enabled hash store)
add_lem_test = add_lem (configuration "three") store store-IsValid (omega arith)

remove_prior_to_lem_test :
    ((remove_prior_to "two" store).0 ≡ is_some (get "two" store))
    × IsValid (remove_prior_to "two" store).1
    × (current (remove_prior_to "two" store).1 ≡ current store)
    × (get "two" (remove_prior_to "two" store).1 ≡ get "two" store)
    × (is_enabled "two" (remove_prior_to "two" store).1 ≡ is_enabled "two" store)
remove_prior_to_lem_test = remove_prior_to_lem "two" store store-IsValid

set_current_lem_test :
    ((set_current "two" store).0 ≡ is_some (get "two" store))
    × IsValid (set_current "two" store).1
    × (current (set_current "two" store).1
        ≡ (if is_some (get "two" store) then get "two" store else current store))
set_current_lem_test = set_current_lem "two" store store-IsValid

enable_lem_test :
    ((enable "two" true store).0 ≡ is_some (get "two" store))
    × IsValid (enable "two" true store).1
    × ((h : String) → get h (enable "two" true store).1 ≡ get h store)
    × (current (enable "two" true store).1 ≡ current store)
    × ((h : String)
        → is_enabled h (enable "two" true store).1
          ≡ (if is_some (get "two" store) && "two" == h then true else is_enabled h store))
enable_lem_test = enable_lem "two" true store store-IsValid
