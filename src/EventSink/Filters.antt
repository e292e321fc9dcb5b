-- ===== src/EventSink/Filters.antt =====
-- Which events the filters let through, after filters are added and removed.
use text.Mathlib.TextEquality.{eq_iff}
use kapprofiler.Base.{
  Bool, true, false, String, string_comparable, List, [], ◌∷◌, ◌++◌, any, any-append, ◌==◌, ◌||◌,
  ◌≡◌, refl, if◌then◌else◌, arith, Bool-cases, inl, inr, ==→≡, ◌∙◌,
}
use kapprofiler.Tracing.Events.{same_type, EventType, all_event_type, event_type_comparable}
use kapprofiler.EventSink.Defs.{
  EventSinkFilter, admits, same_filter, is_removed_by, remove_filter_from, add_filter_to,
}

admits_of_same :
    (kind : EventType) (c : String) (f g : EventSinkFilter)
    → same_filter f g ≡ true
    → admits kind c f ≡ admits kind c g
admits_of_same kind c f g h =
    ground (arith, ==→≡ f.event_type g.event_type, ==→≡ f.container_id g.container_id)

any_of_same :
    (kind : EventType) (c : String) (g : EventSinkFilter) (fs : List EventSinkFilter)
    → any (λ f. same_filter f g) fs ≡ true
    → any (admits kind c) fs ≡ (any (admits kind c) fs || admits kind c g)
unfolding any
any_of_same kind c g [] h = cc
any_of_same kind c g (f ∷ fs) h = elim (Bool-cases (same_filter f g)) [
  | inl same ↦ rw (admits_of_same kind c f g same) (ground arith)
  | inr other ↦ ground (arith, any_of_same kind c g fs)
]

any_one :
    (kind : EventType) (c : String) (g : EventSinkFilter) (fs : List EventSinkFilter)
    → (any (admits kind c) fs || any (admits kind c) (g ∷ []))
      ≡ (any (admits kind c) fs || admits kind c g)
unfolding any
any_one kind c g fs = ground arith

-- A filter that is added lets its container's events of its kind through, or of every kind; what
-- was let through before still is, and nothing else.
pub add_filter_to-admits :
    (kind : EventType) (c : String) (g : EventSinkFilter) (fs : List EventSinkFilter)
    → any (admits kind c) (add_filter_to fs g) ≡ (any (admits kind c) fs || admits kind c g)
unfolding add_filter_to
add_filter_to-admits kind c g fs = elim (Bool-cases (any (λ f. same_filter f g) fs)) [
  | inl old ↦ rw (old, add_filter_to) (any_of_same kind c g fs old)
  | inr new ↦ rw (new, add_filter_to) (any-append (admits kind c) fs (g ∷ []) ∙ any_one kind c g fs)
]

-- Some filter is for the container.
abbrev pub is_listed : String → List EventSinkFilter → Bool
is_listed c = any (λ f. f.container_id == c)

-- Each filter is for every kind of event, and no container has two: what the collector keeps.
abbrev pub IsAllOnce : List EventSinkFilter → Type 0
IsAllOnce [] = Unit {0}
IsAllOnce (f ∷ fs) =
    (f.event_type ≡ all_event_type) × (is_listed f.container_id fs ≡ false) × IsAllOnce fs

abbrev pub for_all : String → EventSinkFilter
for_all c = record { event_type = all_event_type; container_id = c }

admits_of_listed :
    (kind : EventType) (c : String) (fs : List EventSinkFilter)
    → is_listed c fs ≡ false
    → any (admits kind c) fs ≡ false
unfolding any
admits_of_listed kind c [] h = refl
admits_of_listed kind c (f ∷ fs) h = ground (arith, admits_of_listed kind c fs)

is_listed-remove :
    (c d : String) (fs : List EventSinkFilter)
    → is_listed c fs ≡ false
    → is_listed c (remove_filter_from fs (for_all d)) ≡ false
unfolding any remove_filter_from
is_listed-remove c d [] h = refl
is_listed-remove c d (f ∷ fs) h = ground (arith, is_listed-remove c d fs)

is_removed_by_all :
    (d : String) (f : EventSinkFilter) → is_removed_by (for_all d) f ≡ (f.container_id == d)
unfolding same_type
is_removed_by_all d f = ground arith

add_filter_to-append :
    (c : String) (fs : List EventSinkFilter)
    → is_listed c fs ≡ false
    → IsAllOnce fs
    → IsAllOnce (fs ++ for_all c ∷ [])
unfolding any
add_filter_to-append c [] h o = (refl, refl, tt)
add_filter_to-append c (f ∷ fs) h (every, once, rest) = (
  every,
  ground (
    arith,
    any-append (λ g. g.container_id == f.container_id) fs (for_all c ∷ []),
    eq_iff f.container_id c,
    eq_iff c f.container_id,
    once,
  ),
  add_filter_to-append c fs (ground arith) rest,
)

-- One round of removing and one of adding keep the filters so.
pub remove_filter_from-IsAllOnce :
    (d : String) (fs : List EventSinkFilter)
    → IsAllOnce fs
    → IsAllOnce (remove_filter_from fs (for_all d))
unfolding remove_filter_from
remove_filter_from-IsAllOnce d [] h = tt
remove_filter_from-IsAllOnce d (f ∷ fs) (every, once, rest) =
    elim (Bool-cases (f.container_id == d)) [
      | inl here ↦ rw (is_removed_by_all d f, here) rest
      | inr there ↦
          rw (is_removed_by_all d f, there)
            (
              every,
              is_listed-remove f.container_id d fs once,
              remove_filter_from-IsAllOnce d fs rest,
            )
    ]

-- After the filter of a container is removed, nothing of that container is let through, and what
-- is let through of the others stays as it was, if the filters are such as the collector keeps.
pub remove_filter_from-admits :
    (kind : EventType) (c d : String) (fs : List EventSinkFilter)
    → IsAllOnce fs
    → any (admits kind c) (remove_filter_from fs (for_all d))
      ≡ (if d == c then false else any (admits kind c) fs)
unfolding remove_filter_from any
remove_filter_from-admits kind c d [] h = ground arith
remove_filter_from-admits kind c d (f ∷ fs) (every, once, rest) =
    elim (Bool-cases (f.container_id == d)) [
      | inl here ↦
          rw (is_removed_by_all d f, here)
            (ground (
              arith,
              eq_iff f.container_id d,
              eq_iff d c,
              eq_iff f.container_id c,
              admits_of_listed kind f.container_id fs once,
            ))
      | inr there ↦
          rw (is_removed_by_all d f, there)
            (ground (
              arith,
              eq_iff f.container_id d,
              eq_iff d c,
              eq_iff f.container_id c,
              remove_filter_from-admits kind c d fs rest,
            ))
    ]

same_of_listed :
    (c : String) (fs : List EventSinkFilter)
    → IsAllOnce fs
    → any (λ f. same_filter f (for_all c)) fs ≡ is_listed c fs
unfolding any same_type
same_of_listed c [] h = refl
same_of_listed c (f ∷ fs) (every, once, rest) = rw (every, same_of_listed c fs rest) (ground arith)

pub add_filter_to-IsAllOnce :
    (c : String) (fs : List EventSinkFilter)
    → IsAllOnce fs
    → IsAllOnce (add_filter_to fs (for_all c))
unfolding add_filter_to
add_filter_to-IsAllOnce c fs h = elim (Bool-cases (is_listed c fs)) [
  | inl old ↦ rw (same_of_listed c fs h, old) h
  | inr new ↦ rw (same_of_listed c fs h, new) (add_filter_to-append c fs new h)
]

-- The collector's calls: it adds and removes filters for every kind of event.
pub data FilterCall : Type 0 where
  adds : String → FilterCall
  removes : String → FilterCall

-- The filters after a history of calls, the newest call first.
unfoldable pub filters_after : List FilterCall → List EventSinkFilter
unfolding add_filter_to remove_filter_from
filters_after [] = []
filters_after (adds c ∷ h) = add_filter_to (filters_after h) (for_all c)
filters_after (removes c ∷ h) = remove_filter_from (filters_after h) (for_all c)

-- The newest call for the container adds its filter.
unfoldable pub is_watched : String → List FilterCall → Bool
is_watched c [] = false
is_watched c (adds d ∷ h) = if d == c then true else is_watched c h
is_watched c (removes d ∷ h) = if d == c then false else is_watched c h

filters_after-IsAllOnce : (h : List FilterCall) → IsAllOnce (filters_after h)
unfolding filters_after
filters_after-IsAllOnce [] = tt
filters_after-IsAllOnce (adds c ∷ h) = add_filter_to-IsAllOnce c _ (filters_after-IsAllOnce h)
filters_after-IsAllOnce (removes c ∷ h) =
    remove_filter_from-IsAllOnce c _ (filters_after-IsAllOnce h)

-- After any history of the collector's calls, events of any kind of a container are let through
-- exactly if the newest call for that container adds its filter.
pub filters_after-admits :
    (kind : EventType) (c : String) (h : List FilterCall)
    → any (admits kind c) (filters_after h) ≡ is_watched c h
unfolding filters_after is_watched any same_type
filters_after-admits kind c [] = refl
filters_after-admits kind c (adds d ∷ h) =
    rw (add_filter_to-admits, filters_after-admits kind c h) (ground arith)
filters_after-admits kind c (removes d ∷ h) =
    remove_filter_from-admits kind c d (filters_after h) (filters_after-IsAllOnce h)
    ∙ rw (filters_after-admits kind c h) refl
