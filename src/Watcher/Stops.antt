-- ===== src/Watcher/Stops.antt =====
-- `Watcher.Stop` of pkg/watcher/watcher.go beside the goroutine of `Start`, which shares the fields
-- of the watcher with it under no lock. A schedule says who moves. An event is here no more than
-- the call of a notification function; Watcher.Defs has what the loop does with it.
use kapprofiler.Base.{
  ℕ, suc, ◌+◌, Bool, true, false, Option, none, some, List, [], ◌∷◌, eqb, if◌then◌else◌,
}
use kapprofiler.Watcher.Defs.{retry}

-- Where the goroutine is: before the test for a nil watcher, after it, in the receive from the
-- channel of a watch, in the handling of an event, at its end, or in a panic.
pub data Place : Type 0 where
  at_top : Place
  checked : Place
  receiving : ℕ → Place
  handling : Place
  ended : Place
  panicked : Place

-- The watches are numbered in the order in which they are opened: `opened` of them so far.
-- `is_closed` tells whether the channel of a watch is closed.
pub record Shared : Type 0 where
  pub running : Bool
  pub watcher : Option ℕ
  pub opened : ℕ
  pub is_closed : ℕ → Bool
  pub place : Place
  pub notices : ℕ

abbrev pub at_place : Place → Shared → Shared
at_place place s = record s { place = place }

-- A new watch, and what stands in `w.watcher` when it cannot be opened.
abbrev pub open_watch : Shared → Shared
open_watch s = record s { watcher = some s.opened; opened = suc s.opened }

abbrev pub no_watch : Shared → Shared
no_watch s = record s { watcher = none }

abbrev opened_at_top : Option ℕ → Bool → Shared → Shared
opened_at_top (some n) ok s = at_place checked s
opened_at_top none true s = at_place checked (open_watch s)
opened_at_top none false s = at_place ended s

-- `if w.watcher == nil`, with the answer to the attempt to open a watch.
unfoldable pub look : Bool → Shared → Shared
look ok s = opened_at_top s.watcher ok s

abbrev received_from : Option ℕ → Shared → Shared
received_from none s = at_place panicked s
received_from (some n) s = at_place (receiving n) s

-- `w.watcher.ResultChan()`
unfoldable pub receive : Shared → Shared
receive s = received_from s.watcher s

-- The channel gives an event.
unfoldable pub give : ℕ → Shared → Shared
give n s = if s.is_closed n then s else record s { place = handling; notices = s.notices + 1 }

abbrev restarted : Option ℕ → List Bool → Shared → Shared
restarted none answers s = at_place panicked s
restarted (some n) answers s =
    if retry 5 answers then at_place at_top (open_watch s) else at_place ended (no_watch s)

-- The branch for a closed channel, with the answers to the attempts to open a watch again.
unfoldable pub see_closed : ℕ → List Bool → Shared → Shared
unfolding retry
see_closed n answers s =
    if s.is_closed n
    then (if s.running then restarted s.watcher answers s else at_place ended s)
    else s

abbrev stopped : Option ℕ → Shared → Shared
stopped none s = s
stopped (some n) s = record s { running = false; watcher = none }

-- `Stop`. The watch that it stops closes its channel later.
unfoldable pub stop : Shared → Shared
stop s = stopped s.watcher s

pub data Move : Type 0 where
  looks : Bool → Move
  receives : Move
  gives : Move
  sees_closed : List Bool → Move
  returns : Move
  closes : ℕ → Move
  stops : Move

-- A move of the goroutine at its place; one that it does not come to yet changes nothing.
abbrev pub move_at : Move → Place → Shared → Shared
move_at (looks ok) at_top s = look ok s
move_at receives checked s = receive s
move_at gives (receiving n) s = give n s
move_at (sees_closed answers) (receiving n) s = see_closed n answers s
move_at returns handling s = at_place at_top s
move_at (closes n) place s = record s { is_closed = λ k. if eqb k n then true else s.is_closed k }
move_at stops place s = stop s
move_at move place s = s

-- A schedule, its first move first.
unfoldable pub run : List Move → Shared → Shared
unfolding look receive give see_closed stop
run [] s = s
run (move ∷ moves) s = run moves (move_at move s.place s)
