-- ===== src/Collector/Opens.antt =====
-- The opened files of a profile, against the events that it was made of.
use kapprofiler.Base.{
  every, any-append, ◌+◌, ◌≡◌, ◌≤◌, refl, Bool, true, false, not, ◌&&◌, ◌||◌, List, [], ◌∷◌, ◌++◌,
  String, ◌==◌, string_comparable, any, arith, ltb, length, length-append, slices_contains, ==_refl,
}
use kapprofiler.Tracing.Events.{OpenEvent}
use kapprofiler.Collector.Calls.{
  OpenCalls, OpenConfig, open_event_exists, has_all_flags, has_some_prefix,
  should_include_open_event, max_open_events,
}
use kapprofiler.Collector.Build.{add_open, add_opens}

-- Whether a call has the path of an event and all its flags.
abbrev pub is_open_call : OpenEvent → OpenCalls → Bool
is_open_call event call = call.path == event.path_name && has_all_flags event.flags call.flags

-- Whether the path of an event is to be left out.
unfoldable pub is_ignored : OpenConfig → List String → OpenEvent → Bool
unfolding has_some_prefix
is_ignored config mounts event =
    has_some_prefix event.path_name config.ignore_prefixes
    || (config.ignore_mounts && has_some_prefix event.path_name mounts)

flags-path :
    (event : OpenEvent) (cs : List OpenCalls)
    → ((open_event_exists event cs).1 && not ((open_event_exists event cs).0)) ≡ false
unfolding open_event_exists
flags-path event [] = refl
flags-path event (c ∷ cs) = ground (arith, flags-path event cs)

open_event_exists-any :
    (event : OpenEvent) (calls : List OpenCalls)
    → ((open_event_exists event calls).0 && (open_event_exists event calls).1)
      ≡ any (is_open_call event) calls
unfolding open_event_exists any
open_event_exists-any event [] = refl
open_event_exists-any event (c ∷ cs) =
    ground (arith, open_event_exists-any event cs, flags-path event cs)

slices_contains-more :
    (x : String) (xs : List String) (k : String)
    → slices_contains xs k ≡ true
    → slices_contains (x ∷ xs) k ≡ true
unfolding slices_contains any
slices_contains-more x xs k h = ground arith

has_all_flags-more :
    (x : String) (flags xs : List String)
    → has_all_flags flags xs ≡ true
    → has_all_flags flags (x ∷ xs) ≡ true
unfolding has_all_flags
has_all_flags-more x [] xs h = refl
has_all_flags-more x (f ∷ fs) xs h =
    ground (arith, slices_contains-more x xs f, has_all_flags-more x fs xs)

has_all_flags_refl : (flags : List String) → has_all_flags flags flags ≡ true
unfolding has_all_flags slices_contains any
has_all_flags_refl [] = refl
has_all_flags_refl (f ∷ fs) =
    ground (arith, ==_refl f, has_all_flags-more f fs fs (has_all_flags_refl fs))

-- What an event may be at the end: recorded, ignored, or beyond the limit.
unfoldable pub is_settled : OpenConfig → List String → List OpenCalls → OpenEvent → Bool
unfolding is_ignored any
is_settled config mounts opens event =
    any (is_open_call event) opens
    || (is_ignored config mounts event || ltb max_open_events (length opens))

any_one :
    (event : OpenEvent) (c : OpenCalls) → any (is_open_call event) (c ∷ []) ≡ is_open_call event c
unfolding any
any_one event c = ground arith

pub should_include_open_event_iff :
    (config : OpenConfig) (mounts : List String) (opens : List OpenCalls) (event : OpenEvent)
    → should_include_open_event config event opens mounts
      ≡ not (is_settled config mounts opens event)
unfolding is_settled should_include_open_event is_ignored
should_include_open_event_iff config mounts opens event =
    ground (arith, open_event_exists-any event opens)

pub is_settled-append :
    (config : OpenConfig) (mounts : List String) (opens : List OpenCalls) (c : OpenCalls)
    (event : OpenEvent)
    → is_settled config mounts (opens ++ c ∷ []) event ≡ (
        is_settled config mounts opens event
        || (is_open_call event c || ltb max_open_events (length opens + 1)))
unfolding is_settled
is_settled-append config mounts opens c event = ground (
  arith,
  any-append (is_open_call event) opens (c ∷ []),
  any_one event c,
  length-append opens (c ∷ []),
)

pub is_open_call-own :
    (event : OpenEvent)
    → is_open_call event (record { path = event.path_name; flags = event.flags }) ≡ true
is_open_call-own event = ground (arith, ==_refl event.path_name, has_all_flags_refl event.flags)

add_open-is_settled :
    (config : OpenConfig) (mounts : List String) (opens : List OpenCalls) (event : OpenEvent)
    → is_settled config mounts (add_open config mounts opens event) event ≡ true
unfolding add_open
add_open-is_settled config mounts opens event = ground (
  arith,
  should_include_open_event_iff config mounts opens event,
  is_settled-append config mounts opens (record { path = event.path_name; flags = event.flags })
      event,
  is_open_call-own event,
)

add_open-keeps :
    (config : OpenConfig) (mounts : List String) (opens : List OpenCalls) (x event : OpenEvent)
    → is_settled config mounts opens event ≡ true
    → is_settled config mounts (add_open config mounts opens x) event ≡ true
unfolding add_open
add_open-keeps config mounts opens x event h = ground (
  arith,
  is_settled-append config mounts opens (record { path = x.path_name; flags = x.flags }) event,
)

add_opens-keeps :
    (config : OpenConfig) (mounts : List String) (opens : List OpenCalls) (xs : List OpenEvent)
    (event : OpenEvent)
    → is_settled config mounts opens event ≡ true
    → is_settled config mounts (add_opens config mounts opens xs) event ≡ true
unfolding add_opens
add_opens-keeps config mounts opens [] event h = h
add_opens-keeps config mounts opens (x ∷ xs) event h =
    add_opens-keeps config mounts (add_open config mounts opens x) xs event
      (add_open-keeps config mounts opens x event h)

add_opens-every :
    (config : OpenConfig) (mounts : List String) (opens : List OpenCalls) (xs : List OpenEvent)
    → every (is_settled config mounts (add_opens config mounts opens xs)) xs ≡ true
unfolding add_opens every
add_opens-every config mounts opens [] = refl
add_opens-every config mounts opens (x ∷ xs) = ground (
  arith,
  add_opens-every config mounts (add_open config mounts opens x) xs,
  add_opens-keeps config mounts (add_open config mounts opens x) xs x
      (add_open-is_settled config mounts opens x),
)

length-add_open :
    (config : OpenConfig) (mounts : List String) (opens : List OpenCalls) (x : OpenEvent)
    → length opens ≤ max_open_events + 1
    → length (add_open config mounts opens x) ≤ max_open_events + 1
unfolding add_open is_settled
length-add_open config mounts opens x h = ground (
  arith,
  should_include_open_event_iff config mounts opens x,
  length-append opens (record { path = x.path_name; flags = x.flags } ∷ []),
)

length-add_opens :
    (config : OpenConfig) (mounts : List String) (opens : List OpenCalls) (xs : List OpenEvent)
    → length opens ≤ max_open_events + 1
    → length (add_opens config mounts opens xs) ≤ max_open_events + 1
unfolding add_opens
length-add_opens config mounts opens [] h = h
length-add_opens config mounts opens (x ∷ xs) h =
    length-add_opens config mounts (add_open config mounts opens x) xs
      (length-add_open config mounts opens x h)

-- In the profile that is made of some events, every open event is recorded with its path and all
-- its flags, or has an ignored prefix, or is beyond the limit; and at most one call more than
-- `MaxOpenEvents` is recorded.
pub add_opens-settles :
    (config : OpenConfig) (mounts : List String) (xs : List OpenEvent)
    → (every (is_settled config mounts (add_opens config mounts [] xs)) xs ≡ true)
      × (length (add_opens config mounts [] xs) ≤ max_open_events + 1)
add_opens-settles config mounts xs =
    (add_opens-every config mounts [] xs, length-add_opens config mounts [] xs (ground arith))
