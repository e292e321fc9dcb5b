-- ===== src/Tests/MapDb.antt =====
-- Clients of the map.
use kapprofiler.Base.{String, false, some, List, [], ◌∷◌, ◌++◌, ℕ, ◌≡◌, refl}
use kapprofiler.MapDb.Defs.{InMemoryMapDb, new_in_memory_map_db, get, is_closed}
use kapprofiler.MapDb.Delivery
use kapprofiler.MapDb.Delivery.{Call, puts, takes, run, given, taken}

abbrev calls : List (Call ℕ)
calls = puts "a" 1 ∷ puts "b" 2 ∷ puts "a" 3 ∷ takes "a" ∷ puts "a" 4 ∷ []

run-delivers_example :
    (db : InMemoryMapDb ℕ) × (out : List (String × List ℕ)) × (run calls (new_in_memory_map_db 100)
      ≡ some (db, out))
    × (is_closed db ≡ false)
    × ((j : String) → taken j out ++ get j db ≡ get j (new_in_memory_map_db 100) ++ given j calls)
unfolding new_in_memory_map_db is_closed
run-delivers_example = Delivery.run-delivers calls (new_in_memory_map_db 100) refl
