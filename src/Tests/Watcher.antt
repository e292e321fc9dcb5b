-- ===== src/Tests/Watcher.antt =====
-- A watch of two pods that is opened again.
use kapprofiler.Base.{
  every, map, some, ◌+◌, ◌^◌, ◌≡◌, refl, true, false, string_comparable, none, List, [], ◌∷◌,
  lookup,
}
use kapprofiler.Watcher.Defs.{
  Object, Watcher, add, ParseInt, WatchEvent, added, modified, bookmark, error, closed, watch,
}
use kapprofiler.Watcher.Versions
use kapprofiler.Watcher.Listing
use kapprofiler.Watcher.Listing.{start, all_objects, highs, is_numbered}
use kapprofiler.Watcher.Versions.{RejectsEmpty, are_regular, largest, fresh_watch}

-- The numbers that the API server sends here.
abbrev numbers : ParseInt
numbers s = lookup s (("7", 2 ^ 63 + 7) ∷ ("12", 2 ^ 63 + 12) ∷ ("9", 2 ^ 63 + 9) ∷ [])

numbers-RejectsEmpty : RejectsEmpty numbers
unfolding lookup
numbers-RejectsEmpty = refl

abbrev events : List WatchEvent
events =
    added (record { resource_version = "7"; name = "web" })
    ∷ modified (record { resource_version = "12"; name = "web" })
    ∷ error 500 ""
    ∷ bookmark (record { resource_version = "9"; name = "" })
    ∷ closed (false ∷ true ∷ [])
    ∷ []

events-regular : are_regular numbers events ≡ true
unfolding are_regular lookup
events-regular = refl

watch-largest_example :
    numbers (watch numbers events fresh_watch).last_resource_version ≡ largest numbers none events
watch-largest_example = Versions.watch-largest numbers numbers-RejectsEmpty events events-regular

-- Two namespaces: the second pod has an older version than the first, and gets no notice.
abbrev listings : List (List Object)
listings =
    (record { resource_version = "9"; name = "web" }
      ∷ record { resource_version = "7"; name = "db" }
      ∷ [])
    ∷ (record { resource_version = "12"; name = "log" } ∷ [])
    ∷ []

listings-numbered : every (is_numbered numbers) (all_objects listings) ≡ true
unfolding every all_objects lookup
listings-numbered = refl

start-highs_example :
    (w : Watcher) × ((start numbers true (some (map some listings)) true ≡ some w)
      × (w.notices ≡ map add (highs numbers [] (all_objects listings))))
start-highs_example = Listing.start-highs numbers numbers-RejectsEmpty listings listings-numbered
