-- ===== src/Storage/View.antt =====
-- What a client of the storage can see: a partial function from a database and a key to a value. The
-- methods of mem_storage.cpp refine the operations on such functions.
use Prim.Native.String.{len}
use swarm_db.Base.{
  ◌≡◌, refl, inl, inr, ◌&&◌, Option, none, some, [], ◌∷◌, String, ltb, if◌then◌else◌, is_some,
  arith, Option-cases,
}
use swarm_db.Base.Equality.{◌==◌, ==_iff, string_eq}
use swarm_db.Base.Assoc.{lookup, put, erase, lookup-nil, lookup-put, lookup-erase}
use swarm_db.Storage.{
  StorageResult, ok, not_found, exists, value_too_large, key_too_large, MemStorage, Database,
  max_key_size, max_value_size, or_empty, create, read, update, remove, keys_of, contains, has,
}

-- The abstract storage.
abbrev pub View : Type 0
View = String → String → Option String

abbrev pub view : MemStorage → View
view s uuid key = read s uuid key

abbrev pub write : View → String → String → Option String → View
write f uuid key o u k = if uuid == u && key == k then o else f u k

-- What each method promises: its result, and the view that it leaves.
abbrev pub create_result : View → String → String → String → StorageResult
create_result f uuid key value =
    if ltb max_value_size (len value)
    then value_too_large
    else if ltb max_key_size (len key)
    then key_too_large
    else if is_some (f uuid key)
    then exists
    else ok

abbrev pub update_result : View → String → String → String → StorageResult
update_result f uuid key value =
    if ltb max_value_size (len value)
    then value_too_large
    else if is_some (f uuid key)
    then ok
    else not_found

abbrev pub remove_result : View → String → String → StorageResult
remove_result f uuid key = if is_some (f uuid key) then ok else not_found

-- A failed method writes nothing.
abbrev pub write_if_ok : StorageResult → View → String → String → Option String → View
write_if_ok ok f uuid key o = write f uuid key o
write_if_ok _ f uuid key o = f

module _ (s : MemStorage) (uuid key : String) where
  -- `create` reports what the view demands, and a successful one makes the value readable under its
  -- key and changes no other entry of any database; a failed one changes no entry at all.
  pub create-refines :
      (value : String)
      → ((create s uuid key value).0 ≡ create_result (view s) uuid key value)
        × ((u k : String)
            → view (create s uuid key value).1 u k
              ≡ write_if_ok (create s uuid key value).0 (view s) uuid key (some value) u k)
  unfolding create read
  create-refines value = (
    ground (arith, lookup-nil {K = String} {V = String} key),
    λ u k. ground (
      arith,
      lookup-nil {K = String} {V = String} key,
      lookup-nil {K = String} {V = String} k,
      lookup-put uuid u (put key value (or_empty (lookup uuid s.kv_store))) s.kv_store,
      lookup-put uuid u (or_empty (lookup uuid s.kv_store)) s.kv_store,
      lookup-put key k value (or_empty (lookup uuid s.kv_store)),
      ==_iff uuid u,
      ==_iff key k,
    ),
  )

  -- `update` succeeds exactly when the value fits and the key is there, and then the key reads the new
  -- value and no other entry changes; a failed one changes no entry.
  pub update-refines :
      (value : String)
      → ((update s uuid key value).0 ≡ update_result (view s) uuid key value)
        × ((u k : String)
            → view (update s uuid key value).1 u k
              ≡ write_if_ok (update s uuid key value).0 (view s) uuid key (some value) u k)
  unfolding update read
  update-refines value = (
    ground arith,
    λ u k. ground (
      arith,
      lookup-put uuid u (put key value (or_empty (lookup uuid s.kv_store))) s.kv_store,
      lookup-put key k value (or_empty (lookup uuid s.kv_store)),
      ==_iff uuid u,
      ==_iff key k,
    ),
  )

  -- `remove` succeeds exactly when the key is there, and then the key reads nothing and no other entry
  -- changes; a failed one changes no entry.
  pub remove-refines :
      ((remove s uuid key).0 ≡ remove_result (view s) uuid key)
      × ((u k : String)
          → view (remove s uuid key).1 u k
            ≡ write_if_ok (remove s uuid key).0 (view s) uuid key none u k)
  unfolding remove read
  remove-refines = (
    ground arith,
    λ u k. ground (
      arith,
      lookup-put uuid u (erase key (or_empty (lookup uuid s.kv_store))) s.kv_store,
      lookup-erase key k (or_empty (lookup uuid s.kv_store)),
      ==_iff uuid u,
      ==_iff key k,
    ),
  )

pub contains-keys_of :
    (key : String) (db : Database) → contains key (keys_of db) ≡ is_some (lookup key db)
unfolding contains keys_of lookup
contains-keys_of key [] = refl
contains-keys_of key ((k, v) ∷ db) = ground (arith, contains-keys_of key db)

-- `has`, which walks over the list of keys, agrees with `read`, which looks the key up.
pub has-eq-read : (s : MemStorage) (uuid key : String) → has s uuid key ≡ is_some (read s uuid key)
unfolding has read
has-eq-read s uuid key = elim (Option-cases (lookup uuid s.kv_store)) [
  | inl e ↦ ground arith
  | inr (db, e) ↦ ground (arith, contains-keys_of key db)
]
