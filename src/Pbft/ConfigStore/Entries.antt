-- ===== src/Pbft/ConfigStore/Entries.antt =====
-- The list of entries of pbft/pbft_config_store.cpp, by rising index: what is found after an insertion, an
-- erasure or a change of a flag.
use swarm_db.Base.{
  ℕ, ◌+◌, ◌<◌, ◌≡◌, refl, ◌⊎◌, Bool, true, Option, none, some, List, [], ◌∷◌, String, eqb, find_if,
  if◌then◌else◌, is_some, arith,
}
use swarm_db.Base.Equality.{◌==◌, ==_iff, string_eq}
use swarm_db.Pbft.Configuration.{Configuration}
use swarm_db.Pbft.ConfigStore.{Entry, insert_entry, hash_is, erase_until, enable_first}

-- The indices rise from above a bound and stay below another one.
abbrev pub Rising : ℕ → ℕ → List Entry → Type 0
Rising low high [] = Unit {0}
Rising low high (x ∷ xs) = (low < x.index) × (x.index < high) × Rising x.index high xs

pub Rising-weaken :
    (low low' high high' : ℕ) (xs : List Entry)
    → low' < low + 1
    → high < high' + 1
    → Rising low high xs
    → Rising low' high' xs
Rising-weaken low low' high high' [] h k r = tt
Rising-weaken low low' high high' (x ∷ xs) h k r =
    (omega arith, omega arith, Rising-weaken x.index x.index high high' xs (omega arith) k r.2)

-- A new entry goes to the end.
pub insert_entry-Rising :
    (low : ℕ) (e : Entry) (xs : List Entry)
    → low < e.index
    → Rising low e.index xs
    → ((insert_entry e xs).0 ≡ true) × Rising low (e.index + 1) (insert_entry e xs).1
unfolding insert_entry
insert_entry-Rising low e [] h r = (refl, ground arith)
insert_entry-Rising low e (x ∷ xs) h r = ground (arith, insert_entry-Rising x.index e xs r.1 r.2)

pub find_if-insert_entry :
    (p : Entry → Bool) (low : ℕ) (e : Entry) (xs : List Entry)
    → Rising low e.index xs
    → find_if p (insert_entry e xs).1
      ≡ (if is_some (find_if p xs) then find_if p xs else if p e then some e else none)
unfolding insert_entry find_if
find_if-insert_entry p low e [] r = ground arith
find_if-insert_entry p low e (x ∷ xs) r = ground (arith, find_if-insert_entry p x.index e xs r.2)

-- What is found stands above the lower bound.
pub find_if-above :
    (p : Entry → Bool) (low high : ℕ) (e : Entry) (xs : List Entry)
    → Rising low high xs
    → find_if p xs ≡ some e
    → (low < e.index) × (e.index < high)
unfolding find_if
find_if-above p low high e [] r h = ground arith
find_if-above p low high e (x ∷ xs) r h = ground (arith, find_if-above p x.index high e xs r.2)

-- An entry found at a place survives the erasure up to what `q` finds, if it is the current one or
-- stands no earlier.
pub find_if-erase_until :
    (p q : Entry → Bool) (now low high : ℕ) (e f : Entry) (xs : List Entry)
    → Rising low high xs
    → find_if q xs ≡ some f
    → find_if p xs ≡ some e
    → (e.index ≡ now) ⊎ (f.index < e.index + 1)
    → find_if p (erase_until now f.index xs) ≡ some e
unfolding erase_until find_if
find_if-erase_until p q now low high e f [] r g h k = ground arith
find_if-erase_until p q now low high e f (x ∷ xs) r g h k = ground (
  arith,
  find_if-erase_until p q now x.index high e f xs r.2,
  find_if-above q x.index high f xs r.2,
)

pub erase_until-Rising :
    (now stop low high : ℕ) (xs : List Entry)
    → Rising low high xs
    → Rising low high (erase_until now stop xs)
unfolding erase_until
erase_until-Rising now stop low high [] r = tt
erase_until-Rising now stop low high (x ∷ xs) r = ground (
  arith,
  erase_until-Rising now stop x.index high xs r.2,
  Rising-weaken x.index low high high (erase_until now stop xs),
)

pub find_if-erase_until-none :
    (p : Entry → Bool) (now stop : ℕ) (xs : List Entry)
    → find_if p xs ≡ none
    → find_if p (erase_until now stop xs) ≡ none
unfolding erase_until find_if
find_if-erase_until-none p now stop [] h = refl
find_if-erase_until-none p now stop (x ∷ xs) h =
    ground (arith, find_if-erase_until-none p now stop xs)

-- An entry is the only one with its index.
pub find_if_index :
    (p : Entry → Bool) (low high : ℕ) (f : Entry) (xs : List Entry)
    → Rising low high xs
    → find_if p xs ≡ some f
    → find_if (λ e. eqb e.index f.index) xs ≡ some f
unfolding find_if
find_if_index p low high f [] r h = ground arith
find_if_index p low high f (x ∷ xs) r h =
    ground (arith, find_if_index p x.index high f xs r.2, find_if-above p x.index high f xs r.2)

abbrev pub flagged : String → Bool → String → Option Entry → Option Entry
flagged hash val h none = none
flagged hash val h (some e) = some (if hash == h then record e { enabled = val } else e)

pub find_if-enable_first :
    (hash : String) (val : Bool) (h : String) (xs : List Entry)
    → find_if (hash_is h) (enable_first hash val xs) ≡ flagged hash val h (find_if (hash_is h) xs)
unfolding find_if enable_first
find_if-enable_first hash val h [] = refl
find_if-enable_first hash val h (x ∷ xs) = ground (
  arith,
  find_if-enable_first hash val h xs,
  ==_iff x.config.cached_hash hash,
  ==_iff x.config.cached_hash h,
  ==_iff hash h,
)

abbrev pub config_of : Option Entry → Option Configuration
config_of none = none
config_of (some e) = some e.config

pub current-enable_first :
    (n : ℕ) (hash : String) (val : Bool) (xs : List Entry)
    → config_of (find_if (λ e. eqb e.index n) (enable_first hash val xs))
      ≡ config_of (find_if (λ e. eqb e.index n) xs)
unfolding find_if enable_first
current-enable_first n hash val [] = refl
current-enable_first n hash val (x ∷ xs) = ground (arith, current-enable_first n hash val xs)

pub enable_first-Rising :
    (hash : String) (val : Bool) (low high : ℕ) (xs : List Entry)
    → Rising low high xs
    → Rising low high (enable_first hash val xs)
unfolding enable_first
enable_first-Rising hash val low high [] r = tt
enable_first-Rising hash val low high (x ∷ xs) r =
    ground (arith, enable_first-Rising hash val x.index high xs r.2)
