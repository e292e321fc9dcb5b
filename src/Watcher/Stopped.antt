-- ===== src/Watcher/Stopped.antt =====
-- What the goroutine of pkg/watcher/watcher.go does after `Stop`.
use kapprofiler.Base.{
  zero, suc, none, some, false, ◌≡◌, Bool, true, false, arith, ◌&&◌, not, List, ℕ, Option, ◌∷◌,
  some, [], ◌∙◌, suc, ◌+◌, ◌++◌, refl,
}
use kapprofiler.Watcher.Stops.{
  Place, receiving, ended, Shared, look, receive, give, see_closed, stop, Move, gives, sees_closed,
  closes, stops, move_at, run, returns, handling, looks, receives,
}

-- The goroutine waits for a closed channel and the watcher does not run, or it is at its end.
abbrev settled_at : Place → Shared → Bool
settled_at (receiving n) s = s.is_closed n && not s.running
settled_at ended s = true
settled_at place s = false

abbrev is_settled : Shared → Bool
is_settled s = settled_at s.place s

stop-settled :
    (s : Shared)
    → is_settled s ≡ true
    → (is_settled (stop s) ≡ true) × ((stop s).notices ≡ s.notices)
unfolding stop
stop-settled s h = ground arith

move_at-settled :
    (move : Move) (place : Place) (s : Shared)
    → s.place ≡ place
    → settled_at place s ≡ true
    → (is_settled (move_at move place s) ≡ true) × ((move_at move place s).notices ≡ s.notices)
unfolding look receive give see_closed stop
move_at-settled (closes k) (receiving n) s p h = ground (arith, p)
move_at-settled stops place s p h = ground (arith, p, stop-settled s)
move_at-settled gives (receiving n) s p h = ground (arith, p)
move_at-settled (sees_closed answers) (receiving n) s p h = ground (arith, p)
move_at-settled move place s p h = ground (arith, p)

run-settled :
    (moves : List Move) (s : Shared) → is_settled s ≡ true → (run moves s).notices ≡ s.notices
unfolding run
run-settled [] s h = refl
run-settled (move ∷ moves) s h =
    let step = move_at-settled move s.place s refl h in
    run-settled moves (move_at move s.place s) step.0 ∙ step.1

-- When `Stop` is called while the goroutine waits for a channel of a watch, and that channel is
-- closed before it gives another event, then nothing is notified any more, whoever moves in which
-- order, and the goroutine ends once it looks at the channel.
pub run-stop :
    (s : Shared) (m n : ℕ) (moves : List Move) (answers : List Bool)
    → s.watcher ≡ some m
    → s.place ≡ receiving n
    → s.is_closed n ≡ true
    → ((run moves (stop s)).notices ≡ s.notices)
      × ((run (sees_closed answers ∷ []) (stop s)).place ≡ ended)
unfolding run stop see_closed
run-stop s m n moves answers there waits closed = (
  run-settled moves (stop s) (ground (arith, there, waits, closed)) ∙ ground (arith, there),
  ground (arith, there, waits, closed),
)

-- The goroutine comes back from the handling of an event and gets another one.
abbrev pub round : List Move
round = returns ∷ looks true ∷ receives ∷ gives ∷ []

unfoldable pub rounds : ℕ → List Move
rounds zero = []
rounds (suc k) = round ++ rounds k

-- It handles an event, and the channel of the watch is open, or that of the next one if there is
-- none.
abbrev is_handling : Place → Bool
is_handling handling = true
is_handling place = false

abbrev gets_more : Option ℕ → Shared → Bool
gets_more none s = not (s.is_closed s.opened)
gets_more (some n) s = not (s.is_closed n)

run-round :
    (s : Shared)
    → s.place ≡ handling
    → gets_more s.watcher s ≡ true
    → ((run round s).place ≡ handling)
      × ((gets_more (run round s).watcher (run round s) ≡ true)
          × (((run round s).notices ≡ s.notices + 1) × ((run round s).running ≡ s.running)))
unfolding run look receive give
run-round s h more = ground (arith, h, more)

run-round_then : (s : Shared) (moves : List Move) → run (round ++ moves) s ≡ run moves (run round s)
unfolding run
run-round_then s moves = refl

rounds-notices :
    (k : ℕ) (s : Shared)
    → s.place ≡ handling
    → gets_more s.watcher s ≡ true
    → ((run (rounds k) s).notices ≡ s.notices + k) × ((run (rounds k) s).running ≡ s.running)
unfolding rounds run
rounds-notices zero s h more = (omega arith, refl)
rounds-notices (suc k) s h more =
    let step = run-round s h more in
    let rest = rounds-notices k (run round s) step.0 step.1.0 in
    (omega (arith, rest.0, step.1.1.0), rest.1 ∙ step.1.1.1)

-- When `Stop` is called while the goroutine handles an event, then the goroutine finds no watch,
-- opens another one and goes on: after any number of events that the new watch gives there are as
-- many notices more, and the watcher still counts as one that does not run.
pub rounds-stop :
    (s : Shared) (m k : ℕ)
    → s.watcher ≡ some m
    → s.place ≡ handling
    → s.is_closed s.opened ≡ false
    → ((run (rounds k) (stop s)).notices ≡ s.notices + k)
      × ((run (rounds k) (stop s)).running ≡ false)
unfolding stop
rounds-stop s m k there busy fresh =
    let after =
      rounds-notices k (stop s) (ground (arith, there, busy)) (ground (arith, there, fresh)) in
    (ground (arith, after.0, there), ground (arith, after.1, there))
