-- ===== src/Pbft/ConfigStore/Current.antt =====
-- No method of pbft/pbft_config_store.cpp that adds, enables or removes configurations loses the current
-- one, also where the index has wrapped around.
use swarm_db.Base.{
  ℕ, ◌≡◌, inl, inr, Bool, true, false, List, [], ◌∷◌, String, eqb, find_if, is_some, arith,
  Option-cases,
}
use swarm_db.Base.Equality.{string_eq}
use swarm_db.Pbft.Configuration.{Configuration}
use swarm_db.Pbft.ConfigStore.{
  ConfigStore, Entry, insert_entry, add, hash_is, erase_until, remove_prior_to, enable_first,
  enable, current,
}

abbrev pub HasCurrent : ConfigStore → Type 0
HasCurrent s = is_some (current s) ≡ true

insert_entry-keeps :
    (p : Entry → Bool) (e : Entry) (xs : List Entry)
    → is_some (find_if p xs) ≡ true
    → is_some (find_if p (insert_entry e xs).1) ≡ true
unfolding insert_entry find_if
insert_entry-keeps p e [] h = ground arith
insert_entry-keeps p e (x ∷ xs) h = ground (arith, insert_entry-keeps p e xs)

erase_until-keeps :
    (now stop : ℕ) (xs : List Entry)
    → is_some (find_if (λ e. eqb e.index now) xs) ≡ true
    → is_some (find_if (λ e. eqb e.index now) (erase_until now stop xs)) ≡ true
unfolding erase_until find_if
erase_until-keeps now stop [] h = ground arith
erase_until-keeps now stop (x ∷ xs) h = ground (arith, erase_until-keeps now stop xs)

enable_first-keeps :
    (now : ℕ) (hash : String) (val : Bool) (xs : List Entry)
    → is_some (find_if (λ e. eqb e.index now) xs) ≡ true
    → is_some (find_if (λ e. eqb e.index now) (enable_first hash val xs)) ≡ true
unfolding enable_first find_if
enable_first-keeps now hash val [] h = ground arith
enable_first-keeps now hash val (x ∷ xs) h = ground (arith, enable_first-keeps now hash val xs)

pub add-HasCurrent : (c : Configuration) (s : ConfigStore) → HasCurrent s → HasCurrent (add c s).1
unfolding add current
add-HasCurrent c s h =
    let e : Entry = record { index = s.next_index; config = c; enabled = false } in
    ground (arith, insert_entry-keeps (λ x. eqb x.index s.current_index) e s.configs)

pub enable-HasCurrent :
    (hash : String) (val : Bool) (s : ConfigStore) → HasCurrent s → HasCurrent (enable hash val s).1
unfolding enable current
enable-HasCurrent hash val s h =
    ground (arith, enable_first-keeps s.current_index hash val s.configs)

pub remove_prior_to-HasCurrent :
    (hash : String) (s : ConfigStore) → HasCurrent s → HasCurrent (remove_prior_to hash s).1
unfolding remove_prior_to current
remove_prior_to-HasCurrent hash s h = elim (Option-cases (find_if (hash_is hash) s.configs)) [
  | inl e ↦ ground arith
  | inr (f, e) ↦ ground (arith, e, erase_until-keeps s.current_index f.index s.configs)
]
