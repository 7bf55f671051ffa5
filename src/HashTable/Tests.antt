-- ===== src/HashTable/Tests.antt =====
-- The hash table on a server in memory.
use startup_api.Base.{String, ◌≡◌, refl, true, false, none, some, List, [], ◌∷◌}
use startup_api.Base.Value.{num}
use startup_api.Base.Exec.{ok}
use startup_api.Redis.Memory.{Server, memory, memory_start, hget}
use startup_api.HashTable.{Table}
use startup_api.HashTable.Refinement.{
  Call, sets, sets_nx, gets_value, deletes_all, done, flag, value, replies, run, written, last,
  run_refines,
}

abbrev table : Table Server
table = record { unit_test = false; reachable = true; connected = true; db = memory_start }

abbrev calls : List Call
calls =
    sets "a" "x" (num 1)
    ∷ sets_nx "a" "x" (num 2)
    ∷ gets_value "a" "x"
    ∷ deletes_all "a"
    ∷ gets_value "a" "x"
    ∷ []

run_refines_example :
    (replies calls table
      ≡ ok done ∷ ok (flag false) ∷ ok (value (some (num 1))) ∷ ok done ∷ ok (value none) ∷ [])
    × ((n k : String) → hget n k (run calls table).db ≡ written (last calls (λ m j. none) n k))
unfolding hget
run_refines_example = run_refines calls table (λ m j. none) refl (λ n k. refl)
