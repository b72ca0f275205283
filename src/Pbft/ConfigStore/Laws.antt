-- ===== src/Pbft/ConfigStore/Laws.antt =====
-- What the methods of pbft/pbft_config_store.cpp leave alone and what they change.
use swarm_db.Base.{
  ◌+◌, ◌<◌, ◌≡◌, inl, inr, Bool, true, false, ◌&&◌, none, some, String, add64, u64_mod, eqb,
  find_if, if◌then◌else◌, is_some, arith, Option-cases, eqb_iff, find_if_sound,
}
use swarm_db.Base.Equality.{◌==◌, ==_iff, string_eq}
use swarm_db.Pbft.Configuration.{Configuration, get_hash}
use swarm_db.Pbft.ConfigStore.{
  ConfigStore, Entry, empty, add, hash_is, set_current, erase_until, remove_prior_to, get, enable,
  is_enabled, current,
}
use swarm_db.Pbft.ConfigStore.Entries.{
  Rising, insert_entry-Rising, find_if-insert_entry, find_if-above, find_if-erase_until,
  erase_until-Rising, find_if-erase_until-none, find_if_index, find_if-enable_first,
  current-enable_first, enable_first-Rising,
}

pub record IsValid (s : ConfigStore) : Type 0 where
  pub rising : Rising 0 s.next_index s.configs
  pub current_below : s.current_index < s.next_index
  pub fits : s.next_index < u64_mod

empty-IsValid : IsValid empty
empty-IsValid = ground arith

-- As long as the index has room, an added configuration is found under its hash unless an earlier one
-- has that hash, it is not enabled by that, every other hash finds what it found, and the current
-- configuration stays the same.
pub add_lem :
    (config : Configuration) (s : ConfigStore)
    → IsValid s
    → s.next_index + 1 < u64_mod
    → ((add config s).0 ≡ true)
      × IsValid (add config s).1
      × (current (add config s).1 ≡ current s)
      × ((hash : String)
          → get hash (add config s).1 ≡ (
              if is_some (get hash s)
              then get hash s
              else if get_hash config == hash
              then some config
              else none))
      × ((hash : String) → is_enabled hash (add config s).1 ≡ is_enabled hash s)
unfolding add add64 current get is_enabled
add_lem config s v room =
    let e : Entry = record { index = s.next_index; config = config; enabled = false } in
    let r = insert_entry-Rising 0 e s.configs in
    (
      ground (arith, r),
      ground (arith, r),
      ground (arith, find_if-insert_entry (λ x. eqb x.index s.current_index) 0 e s.configs),
      λ hash. ground (arith, find_if-insert_entry (hash_is hash) 0 e s.configs),
      λ hash. ground (arith, find_if-insert_entry (hash_is hash) 0 e s.configs),
    )

abbrev is_current : ConfigStore → Entry → Bool
is_current s e = eqb e.index s.current_index

-- The erasure up to the entry of a known hash.
module _ (hash : String) (s : ConfigStore) (v : IsValid s) (f : Entry)
    (found : find_if (hash_is hash) s.configs ≡ some f) where
  keeps_found : find_if (hash_is hash) (erase_until s.current_index f.index s.configs) ≡ some f
  keeps_found =
      find_if-erase_until (hash_is hash) (hash_is hash) s.current_index 0 s.next_index f f s.configs
        v.rising found found (inr (omega arith))

  keeps_current :
      find_if (is_current s) (erase_until s.current_index f.index s.configs)
      ≡ find_if (is_current s) s.configs
  keeps_current = elim (Option-cases (find_if (is_current s) s.configs)) [
    | inl e ↦ rw e (find_if-erase_until-none (is_current s) s.current_index f.index s.configs e)
    | inr (c, e) ↦ rw e (
        find_if-erase_until (is_current s) (hash_is hash) s.current_index 0 s.next_index c f
          s.configs v.rising found e
          (inl ((eqb_iff _ _).0 (find_if_sound (is_current s) s.configs c e))))
  ]

-- `remove_prior_to` succeeds exactly on a known hash; it keeps the current configuration, and what the
-- hash itself finds, with its flag.
pub remove_prior_to_lem :
    (hash : String) (s : ConfigStore)
    → IsValid s
    → ((remove_prior_to hash s).0 ≡ is_some (get hash s))
      × IsValid (remove_prior_to hash s).1
      × (current (remove_prior_to hash s).1 ≡ current s)
      × (get hash (remove_prior_to hash s).1 ≡ get hash s)
      × (is_enabled hash (remove_prior_to hash s).1 ≡ is_enabled hash s)
unfolding remove_prior_to current get is_enabled
remove_prior_to_lem hash s v = elim (Option-cases (find_if (hash_is hash) s.configs)) [
  | inl e ↦ ground arith
  | inr (f, e) ↦ ground (
    arith,
    e,
    keeps_found hash s v f e,
    keeps_current hash s v f e,
    erase_until-Rising s.current_index f.index 0 s.next_index s.configs v.rising,
  )
]

-- `set_current` succeeds exactly on a known hash, and then the current configuration is the one that the
-- hash finds; otherwise the store stays as it is.
pub set_current_lem :
    (hash : String) (s : ConfigStore)
    → IsValid s
    → ((set_current hash s).0 ≡ is_some (get hash s))
      × IsValid (set_current hash s).1
      × (current (set_current hash s).1 ≡ (if is_some (get hash s) then get hash s else current s))
unfolding set_current get current
set_current_lem hash s v = elim (Option-cases (find_if (hash_is hash) s.configs)) [
  | inl e ↦ ground arith
  | inr (f, e) ↦ ground (
    arith,
    e,
    find_if_index (hash_is hash) 0 s.next_index f s.configs v.rising e,
    find_if-above (hash_is hash) 0 s.next_index f s.configs v.rising e,
  )
]

-- `enable` succeeds exactly on a known hash, sets the flag that this hash finds and no other, and
-- changes no configuration.
pub enable_lem :
    (hash : String) (val : Bool) (s : ConfigStore)
    → IsValid s
    → ((enable hash val s).0 ≡ is_some (get hash s))
      × IsValid (enable hash val s).1
      × ((h : String) → get h (enable hash val s).1 ≡ get h s)
      × (current (enable hash val s).1 ≡ current s)
      × ((h : String)
          → is_enabled h (enable hash val s).1
            ≡ (if is_some (get hash s) && hash == h then val else is_enabled h s))
unfolding enable get current is_enabled
enable_lem hash val s v = (
  ground arith,
  ground (arith, enable_first-Rising hash val 0 s.next_index s.configs v.rising),
  λ h. ground (arith, find_if-enable_first hash val h s.configs),
  ground (arith, current-enable_first s.current_index hash val s.configs),
  λ h. ground (arith, find_if-enable_first hash val h s.configs, ==_iff hash h),
)
