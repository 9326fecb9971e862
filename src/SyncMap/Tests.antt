-- ===== src/SyncMap/Tests.antt =====
-- A concrete map, and the theorem at it.
use touch_go_core.Prelude.{ℕ, List, [], ◌∷◌, ◌≡◌, refl, length, ◌%◌}
use touch_go_core.SyncMap.{
  Map, Operation, store_op, delete_op, load_or_store_op, run_all, length_of, word,
}
use touch_go_core.SyncMap.Counted.{run_all-Counted}

abbrev empty_map : Map ℕ
empty_map = record { entries = []; num = 0 }

abbrev some_operations : List (Operation ℕ)
some_operations =
    store_op 1 10 ∷ store_op 2 20 ∷ store_op 1 11 ∷ delete_op 2 ∷ load_or_store_op 3 30 ∷ []

run_all-Counted_example :
    length_of (run_all some_operations empty_map)
    ≡ length (run_all some_operations empty_map).entries % word
run_all-Counted_example = run_all-Counted some_operations empty_map refl
