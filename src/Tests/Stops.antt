-- ===== src/Tests/Stops.antt =====
-- A watcher that is stopped while its goroutine waits, handles an event, or is about to wait.
use kapprofiler.Base.{◌≡◌, refl, ◌+◌, true, false, some, [], ◌∷◌, eqb}
use kapprofiler.Watcher.Stops.{
  Place, handling, receiving, checked, panicked, ended, Shared, gives, closes, receives, stops,
  sees_closed, run, stop, receive,
}
use kapprofiler.Watcher.Stopped
use kapprofiler.Watcher.Stopped.{rounds}

abbrev watcher_at : Place → Shared
watcher_at place = record {
  running = true;
  watcher = some 0;
  opened = 1;
  is_closed = λ n. eqb n 0;
  place = place;
  notices = 2;
}

run-stop_example :
    ((run (gives ∷ closes 0 ∷ []) (stop (watcher_at (receiving 0)))).notices ≡ 2)
    × ((run (sees_closed (true ∷ []) ∷ []) (stop (watcher_at (receiving 0)))).place ≡ ended)
run-stop_example =
    Stopped.run-stop (watcher_at (receiving 0)) 0 0 (gives ∷ closes 0 ∷ []) (true ∷ []) refl refl
      refl

rounds-stop_example :
    ((run (rounds 3) (stop (watcher_at handling))).notices ≡ 2 + 3)
    × ((run (rounds 3) (stop (watcher_at handling))).running ≡ false)
rounds-stop_example = Stopped.rounds-stop (watcher_at handling) 0 3 refl refl refl

-- A `Stop` between the test for a nil watcher and the call of its method.
nil_watcher : (run (stops ∷ receives ∷ []) (watcher_at checked)).place ≡ panicked
unfolding run stop receive
nil_watcher = refl
