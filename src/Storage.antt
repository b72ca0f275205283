-- ===== src/Storage.antt =====
-- storage/mem_storage.cpp and storage/storage_base.hpp: the in-memory key-value store. A method is a
-- function of the store that returns its result and, if it writes, the new store; the reader and
-- writer locks make each method atomic. A byte string is a `String`, its size the bytes that it takes.
pub mod View
pub mod Size
pub mod Listing
mod Tests
use Prim.Native.String.{len}
use swarm_db.Base.{
  ℕ, ◌+◌, Bool, true, false, Option, none, some, List, [], ◌∷◌, String, ltb, if◌then◌else◌, is_some,
}
use swarm_db.Base.Equality.{◌==◌, string_eq}
use swarm_db.Base.Assoc.{Assoc, lookup, put, erase}

-- storage_base::result
pub data StorageResult : Type 0 where
  ok not_found exists not_saved value_too_large key_too_large : StorageResult

abbrev pub max_key_size : ℕ
max_key_size = 4096

abbrev pub max_value_size : ℕ
max_value_size = 256000

-- The inner map, from a key to its value.
abbrev pub Database : Type 0
Database = Assoc String String

pub record MemStorage : Type 0 where
  pub kv_store : Assoc String Database

abbrev pub empty : MemStorage
empty = record { kv_store = [] }

-- kv_store[uuid]: a missing database is made empty
abbrev pub or_empty : Option Database → Database
or_empty none = []
or_empty (some db) = db

-- The second half of `create`: the database is made if it is missing, then the key is looked up again.
unfoldable pub insert_record : MemStorage → String → String → String → StorageResult × MemStorage
insert_record s uuid key value =
    let inner_db = or_empty (lookup uuid s.kv_store) in
    if is_some (lookup key inner_db)
    then (exists, record { kv_store = put uuid inner_db s.kv_store })
    else (ok, record { kv_store = put uuid (put key value inner_db) s.kv_store })

unfoldable pub create : MemStorage → String → String → String → StorageResult × MemStorage
unfolding insert_record
create s uuid key value =
    if ltb max_value_size (len value)
    then (value_too_large, s)
    else if ltb max_key_size (len key)
    then (key_too_large, s)
    else elim (lookup uuid s.kv_store) [
      | none ↦ insert_record s uuid key value
      | some db ↦ if is_some (lookup key db) then (exists, s) else insert_record s uuid key value
    ]

unfoldable pub read : MemStorage → String → String → Option String
read s uuid key = elim (lookup uuid s.kv_store) [ none ↦ none | some db ↦ lookup key db ]

pub update : MemStorage → String → String → String → StorageResult × MemStorage
update s uuid key value =
    if ltb max_value_size (len value) then (value_too_large, s) else elim (lookup uuid s.kv_store) [
      | none ↦ (not_found, s)
      | some db ↦
          if is_some (lookup key db)
          then (ok, record { kv_store = put uuid (put key value db) s.kv_store })
          else (not_found, s)
    ]

pub remove : MemStorage → String → String → StorageResult × MemStorage
remove s uuid key = elim (lookup uuid s.kv_store) [
  | none ↦ (not_found, s)
  | some db ↦
      if is_some (lookup key db)
      then (ok, record { kv_store = put uuid (erase key db) s.kv_store })
      else (not_found, s)
]

unfoldable pub keys_of : Database → List String
keys_of [] = []
keys_of ((k, v) ∷ db) = k ∷ keys_of db

pub get_keys : MemStorage → String → List String
unfolding keys_of
get_keys s uuid = elim (lookup uuid s.kv_store) [ none ↦ [] | some db ↦ keys_of db ]

-- std::find over the keys
unfoldable pub contains : String → List String → Bool
contains key [] = false
contains key (k ∷ ks) = let rest = contains key ks in if k == key then true else rest

pub has : MemStorage → String → String → Bool
unfolding contains get_keys
has s uuid key = contains key (get_keys s uuid)

-- The loop of `get_size`, from the counters so far.
unfoldable pub count_records : ℕ → ℕ → Database → ℕ × ℕ
count_records keys size [] = (keys, size)
count_records keys size ((k, v) ∷ db) = count_records (keys + 1) (size + len v) db

unfoldable pub get_size : MemStorage → String → ℕ × ℕ
unfolding count_records
get_size s uuid = elim (lookup uuid s.kv_store) [ none ↦ (0, 0) | some db ↦ count_records 0 0 db ]
