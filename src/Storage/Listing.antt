-- ===== src/Storage/Listing.antt =====
-- `get_size` of storage/mem_storage.cpp against the keys that `get_keys` lists and what is read under them.
use Prim.Native.String.{len}
use swarm_db.Base.{
  ℕ, ◌+◌, ◌≡◌, refl, false, is_some, Option, none, some, List, [], ◌∷◌, String, length, arith,
  Option-cases, inl, inr,
}
use swarm_db.Base.Equality.{==_iff, string_eq}
use swarm_db.Base.Assoc.{lookup}
use swarm_db.Storage.{MemStorage, Database, contains, keys_of, get_keys, get_size, read, has}
use swarm_db.Storage.View.{contains-keys_of, has-eq-read}
use swarm_db.Storage.Size.{Distinct, IsWellFormed, bytes, get_size_lem}

abbrev pub or_blank : Option String → String
or_blank none = ""
or_blank (some v) = v

-- The bytes of the values that a view has under some keys.
abbrev pub total : (String → Option String) → List String → ℕ
total f [] = 0
total f (k ∷ ks) = len (or_blank (f k)) + total f ks

total_skip :
    (k v : String) (db : Database) (ks : List String)
    → contains k ks ≡ false
    → total (λ j. lookup j ((k, v) ∷ db)) ks ≡ total (λ j. lookup j db) ks
unfolding contains lookup
total_skip k v db [] h = refl
total_skip k v db (j ∷ js) h = ground (arith, total_skip k v db js, ==_iff j k, ==_iff k j)

bytes-total : (db : Database) → Distinct db → bytes db ≡ total (λ j. lookup j db) (keys_of db)
unfolding bytes keys_of lookup
bytes-total [] d = refl
bytes-total ((k, v) ∷ db) d =
    ground
      (arith, bytes-total db d.1, total_skip k v db (keys_of db), contains-keys_of k db, ==_iff k k)

length-keys_of : (db : Database) → length (keys_of db) ≡ length db
unfolding keys_of
length-keys_of [] = refl
length-keys_of ((k, v) ∷ db) = ground (arith, length-keys_of db)

-- In a well-formed store `get_size` gives the number of the keys that `get_keys` lists and the bytes of
-- the values that are read under them.
pub get_size-total :
    (s : MemStorage) (uuid : String)
    → IsWellFormed s
    → get_size s uuid ≡ (length (get_keys s uuid), total (read s uuid) (get_keys s uuid))
unfolding get_keys read
get_size-total s uuid w = elim (Option-cases (lookup uuid s.kv_store)) [
  | inl e ↦ ground (arith, e, get_size_lem s uuid)
  | inr (db, e) ↦
      ground
        (arith, e, get_size_lem s uuid, bytes-total db (w.distinct uuid db e), length-keys_of db)
]

-- `get_keys` lists exactly the keys that can be read.
pub contains-get_keys :
    (s : MemStorage) (uuid key : String)
    → contains key (get_keys s uuid) ≡ is_some (read s uuid key)
unfolding has
contains-get_keys s uuid key = has-eq-read s uuid key
