-- ===== src/Storage/Tests.antt =====
-- The storage of storage/mem_storage.cpp with one record, and its theorems there.
use Prim.Native.String.{len}
use swarm_db.Base.{◌+◌, ◌≡◌, refl, none, some, String, [], ◌∷◌, arith}
use swarm_db.Base.Assoc.{lookup, put}
use swarm_db.Storage.{
  ok, MemStorage, empty, insert_record, create, read, update, remove, get_size, has,
}
use swarm_db.Storage.View.{
  view, write_if_ok, create_result, update_result, remove_result, create-refines, update-refines,
  remove-refines, has-eq-read,
}
use swarm_db.Storage.Size.{
  IsWellFormed, get_size-create, get_size-update, get_size-remove, updates, after,
  after-IsWellFormed,
}
use swarm_db.Base.{is_some}

abbrev one_record : MemStorage
one_record = record { kv_store = ("db", ("k", "old") ∷ []) ∷ [] }

one_record_created : (create empty "db" "k" "old") ≡ (ok, one_record)
unfolding create insert_record lookup put
one_record_created = refl

one_record-read : read one_record "db" "k" ≡ some "old"
unfolding read lookup
one_record-read = refl

one_record_updated : (update one_record "db" "k" "newer").0 ≡ ok
unfolding update lookup
one_record_updated = refl

two_created : (create one_record "db" "j" "v").0 ≡ ok
unfolding create insert_record lookup
two_created = refl

one_record-IsWellFormed : IsWellFormed one_record
unfolding lookup
one_record-IsWellFormed = record { distinct = λ u db h. ground (arith, h) }

create-refines_test :
    ((create one_record "db" "k" "v").0 ≡ create_result (view one_record) "db" "k" "v")
    × ((u k : String)
        → view (create one_record "db" "k" "v").1 u k
          ≡ write_if_ok
              (create one_record "db" "k" "v").0
              (view one_record)
              "db"
              "k"
              (some "v")
              u
              k)
create-refines_test = create-refines one_record "db" "k" "v"

update-refines_test :
    ((update one_record "db" "k" "v").0 ≡ update_result (view one_record) "db" "k" "v")
    × ((u k : String)
        → view (update one_record "db" "k" "v").1 u k
          ≡ write_if_ok
              (update one_record "db" "k" "v").0
              (view one_record)
              "db"
              "k"
              (some "v")
              u
              k)
update-refines_test = update-refines one_record "db" "k" "v"

remove-refines_test :
    ((remove one_record "db" "k").0 ≡ remove_result (view one_record) "db" "k")
    × ((u k : String)
        → view (remove one_record "db" "k").1 u k
          ≡ write_if_ok (remove one_record "db" "k").0 (view one_record) "db" "k" none u k)
remove-refines_test = remove-refines one_record "db" "k"

has-eq-read_test : has one_record "db" "k" ≡ is_some (read one_record "db" "k")
has-eq-read_test = has-eq-read one_record "db" "k"

get_size-create_test :
    get_size (create one_record "db" "j" "v").1 "db"
    ≡ ((get_size one_record "db").0 + 1, (get_size one_record "db").1 + len "v")
get_size-create_test = get_size-create one_record "db" "j" "v" two_created

get_size-update_test :
    ((get_size (update one_record "db" "k" "newer").1 "db").0 ≡ (get_size one_record "db").0)
    × ((get_size (update one_record "db" "k" "newer").1 "db").1 + len "old"
        ≡ (get_size one_record "db").1 + len "newer")
get_size-update_test =
    get_size-update one_record "db" "k" "newer" "old" one_record-read one_record_updated

get_size-remove_test :
    ((get_size (remove one_record "db" "k").1 "db").0 + 1 ≡ (get_size one_record "db").0)
    × ((get_size (remove one_record "db" "k").1 "db").1 + len "old" ≡ (get_size one_record "db").1)
get_size-remove_test =
    get_size-remove one_record "db" "k" "old" one_record-IsWellFormed one_record-read

after-IsWellFormed_test : IsWellFormed (after one_record (updates "db" "k" "v"))
after-IsWellFormed_test =
    after-IsWellFormed one_record (updates "db" "k" "v") one_record-IsWellFormed
