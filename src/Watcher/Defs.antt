-- ===== src/Watcher/Defs.antt =====
-- The loop of `Watcher.Start` of pkg/watcher/watcher.go. `parse_int` is `strconv.ParseInt` in base
-- 10 and 64 bits, with an int64 `n` as `n + 2^63`.
use kapprofiler.Base.{
  zero, suc, ℕ, Bool, true, false, not, ◌&&◌, String, Option, none, some, List, [], ◌∷◌, ◌++◌,
  string_comparable, ◌==◌, eqb, ltb, if◌then◌else◌, suc,
}

abbrev pub ParseInt : Type 0
ParseInt = String → Option ℕ

abbrev pub is_greater : Option ℕ → Option ℕ → Bool
is_greater none b = false
is_greater (some a) none = false
is_greater (some a) (some b) = ltb b a

unfoldable pub is_resource_version_higher : ParseInt → String → String → Bool
is_resource_version_higher parse_int resource_version current =
    if current == "" then true else is_greater (parse_int resource_version) (parse_int current)

-- An object of a watch: its resource version and its name.
pub record Object : Type 0 where
  pub resource_version : String
  pub name : String

-- What the result channel gives: an event with its object, an error with the code and the resource
-- version of its status, or that the channel is closed, with the answers to the attempts to open a watch that follow.
pub data WatchEvent : Type 0 where
  added : Object → WatchEvent
  modified : Object → WatchEvent
  deleted : Object → WatchEvent
  bookmark : Object → WatchEvent
  error : ℕ → String → WatchEvent
  closed : List Bool → WatchEvent

-- A call of a with_notice function; `restarts` is a new watch, from a resource version on.
pub data Notice : Type 0 where
  add : Object → Notice
  update : Object → Notice
  delete : Object → Notice
  on_error : Notice
  restarts : String → Notice

-- Whether the loop goes on, the last resource version, and the notices so far.
pub record Watcher : Type 0 where
  pub goes_on : Bool
  pub last_resource_version : String
  pub notices : List Notice

unfoldable pub see_version : ParseInt → String → String → String
unfolding is_resource_version_higher
see_version parse_int last version =
    if not (version == "") && is_resource_version_higher parse_int version last
    then version
    else last

-- Whether one of the first attempts succeeds.
unfoldable pub retry : ℕ → List Bool → Bool
retry zero attempts = false
retry (suc n) [] = false
retry (suc n) (ok ∷ attempts) = let rest = retry n attempts in if ok then true else rest

abbrev pub with_notice : Notice → Watcher → Watcher
with_notice notice w = record w { notices = w.notices ++ notice ∷ [] }

abbrev pub see : ParseInt → String → Watcher → Watcher
see parse_int version w = record w {
  last_resource_version = see_version parse_int w.last_resource_version version;
}

-- One round of the loop, while `w.running` holds.
unfoldable pub receive_event : ParseInt → WatchEvent → Watcher → Watcher
unfolding see_version retry
receive_event parse_int (added object) w =
    with_notice (add object) (see parse_int object.resource_version w)
receive_event parse_int (modified object) w =
    with_notice (update object) (see parse_int object.resource_version w)
receive_event parse_int (deleted object) w =
    with_notice (delete object) (see parse_int object.resource_version w)
receive_event parse_int (bookmark object) w = see parse_int object.resource_version w
receive_event parse_int (error code version) w =
    if eqb code 410 then record w { last_resource_version = "" } else see parse_int version w
receive_event parse_int (closed attempts) w =
    if retry 5 attempts
    then with_notice (restarts w.last_resource_version) w
    else record (with_notice on_error w) { goes_on = false }

-- The loop over what the channel gives, in order.
unfoldable pub watch : ParseInt → List WatchEvent → Watcher → Watcher
unfolding receive_event
watch parse_int [] w = w
watch parse_int (event ∷ events) w =
    let rest = watch parse_int events (receive_event parse_int event w) in
    if w.goes_on then rest else w
