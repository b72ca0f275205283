-- ===== src/Storage/Size.antt =====
-- The sizes that `get_size` of storage/mem_storage.cpp reports, and how the writing methods move them.
use Prim.Native.String.{len}
use swarm_db.Base.{
  ltb, Bool-cases, ◌⊎◌, inl, inr, ℕ, ◌+◌, ◌≡◌, refl, Option, none, some, [], ◌∷◌, String, length,
  arith, Option-cases,
}
use swarm_db.Base.Equality.{==_iff, string_eq}
use swarm_db.Base.Assoc.{lookup, put, erase, lookup-put, lookup-nil, lookup-erase}
use swarm_db.Storage.{
  max_value_size, ok, MemStorage, Database, or_empty, create, read, update, remove, count_records,
  get_size,
}

-- The bytes of all values of a database.
unfoldable pub bytes : Database → ℕ
bytes [] = 0
bytes ((k, v) ∷ db) = len v + bytes db

count_records_lem :
    (keys size : ℕ) (db : Database)
    → count_records keys size db ≡ (keys + length db, size + bytes db)
unfolding count_records bytes
count_records_lem keys size [] = ground arith
count_records_lem keys size ((k, v) ∷ db) =
    ground (arith, count_records_lem (keys + 1) (size + len v) db)

abbrev pub size_of : Option Database → ℕ × ℕ
size_of none = (0, 0)
size_of (some db) = (length db, bytes db)

pub get_size_lem :
    (s : MemStorage) (uuid : String) → get_size s uuid ≡ size_of (lookup uuid s.kv_store)
unfolding get_size
get_size_lem s uuid = elim (Option-cases (lookup uuid s.kv_store)) [
  | inl e ↦ ground arith
  | inr (db, e) ↦ ground (arith, count_records_lem 0 0 db)
]

-- A key stands once.
abbrev pub Distinct : Database → Type 0
Distinct [] = Unit {0}
Distinct ((k, v) ∷ db) = (lookup k db ≡ none) × Distinct db

-- Every database has its keys once, as an unordered_map does.
pub record IsWellFormed (s : MemStorage) : Type 0 where
  pub distinct : (uuid : String) (db : Database) → lookup uuid s.kv_store ≡ some db → Distinct db

put-Distinct : (k v : String) (db : Database) → Distinct db → Distinct (put k v db)
unfolding put
put-Distinct k v [] h = (lookup-nil k, tt)
put-Distinct k v ((j, w) ∷ db) h =
    ground (arith, put-Distinct k v db h.1, lookup-put k j v db, ==_iff j k, ==_iff k j)

erase-Distinct : (k : String) (db : Database) → Distinct db → Distinct (erase k db)
unfolding erase
erase-Distinct k [] h = tt
erase-Distinct k ((j, w) ∷ db) h =
    ground (arith, erase-Distinct k db h.1, lookup-erase k j db, ==_iff j k, ==_iff k j)

put_fresh :
    (k v : String) (db : Database)
    → lookup k db ≡ none
    → (length (put k v db) ≡ length db + 1) × (bytes (put k v db) ≡ bytes db + len v)
unfolding put bytes lookup
put_fresh k v [] h = (omega arith, omega arith)
put_fresh k v ((j, w) ∷ db) h = ground (arith, put_fresh k v db)

put_present :
    (k v o : String) (db : Database)
    → lookup k db ≡ some o
    → (length (put k v db) ≡ length db) × (bytes (put k v db) + len o ≡ bytes db + len v)
unfolding put bytes lookup
put_present k v o [] h = ground arith
put_present k v o ((j, w) ∷ db) h = ground (arith, put_present k v o db)

erase_absent :
    (k : String) (db : Database)
    → lookup k db ≡ none
    → (length (erase k db) ≡ length db) × (bytes (erase k db) ≡ bytes db)
unfolding erase bytes lookup
erase_absent k [] h = (refl, refl)
erase_absent k ((j, w) ∷ db) h = ground (arith, erase_absent k db)

erase_present :
    (k o : String) (db : Database)
    → Distinct db
    → lookup k db ≡ some o
    → (length (erase k db) + 1 ≡ length db) × (bytes (erase k db) + len o ≡ bytes db)
unfolding erase bytes lookup
erase_present k o [] d h = ground arith
erase_present k o ((j, w) ∷ db) d h =
    ground (arith, erase_present k o db d.1, erase_absent k db, ==_iff j k)

module _ (s : MemStorage) (uuid key value : String) where
  -- A successful `create` adds one key and the bytes of its value to the sizes of its database.
  pub get_size-create :
      (create s uuid key value).0 ≡ ok
      → get_size (create s uuid key value).1 uuid
        ≡ ((get_size s uuid).0 + 1, (get_size s uuid).1 + len value)
  unfolding create bytes
  get_size-create h = ground (
    arith,
    get_size_lem s uuid,
    get_size_lem (create s uuid key value).1 uuid,
    lookup-nil {K = String} {V = String} key,
    lookup-put uuid uuid (put key value (or_empty (lookup uuid s.kv_store))) s.kv_store,
    put_fresh key value (or_empty (lookup uuid s.kv_store)),
    ==_iff uuid uuid,
  )

  -- A successful `update` of a key that read `o` leaves the number of keys, and exchanges the bytes of
  -- the old value for those of the new one.
  pub get_size-update :
      (o : String)
      → read s uuid key ≡ some o
      → (update s uuid key value).0 ≡ ok
      → ((get_size (update s uuid key value).1 uuid).0 ≡ (get_size s uuid).0)
        × ((get_size (update s uuid key value).1 uuid).1 + len o ≡ (get_size s uuid).1 + len value)
  unfolding update read
  get_size-update o r h = ground (
    arith,
    get_size_lem s uuid,
    get_size_lem (update s uuid key value).1 uuid,
    lookup-put uuid uuid (put key value (or_empty (lookup uuid s.kv_store))) s.kv_store,
    put_present key value o (or_empty (lookup uuid s.kv_store)),
    ==_iff uuid uuid,
  )

-- An update that does not succeed leaves the store, and one that does finds the key.
pub update_cases :
    (s : MemStorage) (uuid key value : String)
    → ((update s uuid key value).1 ≡ s)
      ⊎ ((o : String) × (read s uuid key ≡ some o) × ((update s uuid key value).0 ≡ ok))
unfolding update read
update_cases s uuid key value = elim (Bool-cases (ltb max_value_size (len value))) [
  | inl large ↦ inl (ground (arith, large))
  | inr fits ↦ elim (Option-cases (read s uuid key)) [
    | inl e ↦ inl (ground (arith, e, fits))
    | inr (o, e) ↦ inr (o, e, ground (arith, e, fits))
  ]
]

-- In a well-formed store, removing a key that read `o` takes one key and the bytes of `o` off the sizes
-- of its database.
pub get_size-remove :
    (s : MemStorage) (uuid key o : String)
    → IsWellFormed s
    → read s uuid key ≡ some o
    → ((get_size (remove s uuid key).1 uuid).0 + 1 ≡ (get_size s uuid).0)
      × ((get_size (remove s uuid key).1 uuid).1 + len o ≡ (get_size s uuid).1)
unfolding remove read
get_size-remove s uuid key o w r = ground (
  arith,
  get_size_lem s uuid,
  get_size_lem (remove s uuid key).1 uuid,
  lookup-put uuid uuid (erase key (or_empty (lookup uuid s.kv_store))) s.kv_store,
  erase_present key o (or_empty (lookup uuid s.kv_store)),
  w.distinct uuid (or_empty (lookup uuid s.kv_store)),
  ==_iff uuid uuid,
)

-- The writing methods.
pub data Write : Type 0 where
  creates updates : String → String → String → Write
  removes : String → String → Write

abbrev pub after : MemStorage → Write → MemStorage
after s (creates uuid key value) = (create s uuid key value).1
after s (updates uuid key value) = (update s uuid key value).1
after s (removes uuid key) = (remove s uuid key).1

-- Every write, successful or not, keeps the keys of each database distinct.
pub after-IsWellFormed : (s : MemStorage) (w : Write) → IsWellFormed s → IsWellFormed (after s w)
unfolding create update remove
after-IsWellFormed s (creates uuid key value) w = record {
  distinct = λ u e h.
      let db = or_empty (lookup uuid s.kv_store) in
      ground (
        arith,
        lookup-put uuid u (put key value db) s.kv_store,
        lookup-put uuid u db s.kv_store,
        put-Distinct key value db,
        w.distinct uuid db,
        w.distinct u e,
      );
}
after-IsWellFormed s (updates uuid key value) w = record {
  distinct = λ u e h.
      let db = or_empty (lookup uuid s.kv_store) in
      ground (
        arith,
        lookup-put uuid u (put key value db) s.kv_store,
        put-Distinct key value db,
        w.distinct uuid db,
        w.distinct u e,
      );
}
after-IsWellFormed s (removes uuid key) w = record {
  distinct = λ u e h.
      let db = or_empty (lookup uuid s.kv_store) in
      ground (
        arith,
        lookup-put uuid u (erase key db) s.kv_store,
        erase-Distinct key db,
        w.distinct uuid db,
        w.distinct u e,
      );
}
