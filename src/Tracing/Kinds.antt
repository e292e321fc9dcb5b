-- ===== src/Tracing/Kinds.antt =====
-- The loop of `StartTraceContainer` and `StopTraceContainer` over the kinds of events.
use kapprofiler.Base.{
  ◌≡◌, refl, Bool, true, false, not, ◌||◌, ◌==◌, Option, some, none, List, [], ◌∷◌, if◌then◌else◌,
  ◌&&◌, arith, Option-cases, inl, inr, ap, any, ◌∙◌,
}
use kapprofiler.Tracing.Events.{
  execve_event_type, open_event_type, capabilities_event_type, dns_event_type, network_event_type,
  syscall_event_type, random_x_event_type, all_event_type, EventType, event_type_comparable,
  same_type,
}
use kapprofiler.Tracing.Defs.{TracingState, Tracer, set_state, for_types, event_types}

-- A kind that may not be traced.
abbrev pub fails : Option TracingState → Bool
fails none = true
fails (some st) = false

abbrev pub stepped : TracingState → Option TracingState → TracingState
stepped st none = st
stepped st (some st') = st'

-- Whether a kind stands in a list, and no kind twice.
unfoldable pub mem : EventType → List EventType → Bool
mem k [] = false
mem k (x ∷ xs) = x == k || mem k xs

unfoldable pub distinct : List EventType → Bool
unfolding mem
distinct [] = true
distinct (x ∷ xs) = not (mem x xs) && distinct xs

-- The kinds before the first one that may not be traced.
unfoldable pub before_failure : (EventType → Bool) → List EventType → List EventType
before_failure p [] = []
before_failure p (x ∷ xs) = let rest = before_failure p xs in if p x then [] else x ∷ rest

-- Whether the step fails on a kind, in a state of the tracer.
abbrev pub fails_on : (TracingState → Option TracingState) → Tracer → EventType → Bool
fails_on step t k = fails (step (t.tracing_state k))

mem-before_failure :
    (p : EventType → Bool) (k : EventType) (xs : List EventType)
    → mem k xs ≡ false
    → mem k (before_failure p xs) ≡ false
unfolding mem before_failure
mem-before_failure p k [] h = refl
mem-before_failure p k (x ∷ xs) h = ground (arith, mem-before_failure p k xs (ground arith))

pub set_state-at :
    (x k : EventType) (st : TracingState) (t : Tracer)
    → (set_state x st t).tracing_state k ≡ (if x == k then st else t.tracing_state k)
unfolding set_state
set_state-at x k st t = refl

before_failure-set_state :
    (step : TracingState → Option TracingState) (x : EventType) (st : TracingState) (t : Tracer)
    (xs : List EventType)
    → mem x xs ≡ false
    → before_failure (fails_on step (set_state x st t)) xs ≡ before_failure (fails_on step t) xs
unfolding mem before_failure set_state
before_failure-set_state step x st t [] h = refl
before_failure-set_state step x st t (y ∷ ys) h = ground (
  arith,
  set_state-at x y st t,
  event_type_comparable.equal_iff y x,
  event_type_comparable.equal_iff x y,
  before_failure-set_state step x st t ys (ground arith),
)

pub for_types-none :
    (step : TracingState → Option TracingState) (x : EventType) (xs : List EventType) (t : Tracer)
    → step (t.tracing_state x) ≡ none
    → for_types step (x ∷ xs) t ≡ (t, false)
unfolding for_types
for_types-none step x xs t e = rw (e, for_types)

pub for_types-some :
    (step : TracingState → Option TracingState) (x : EventType) (xs : List EventType) (t : Tracer)
    (st : TracingState)
    → step (t.tracing_state x) ≡ some st
    → for_types step (x ∷ xs) t ≡ for_types step xs (set_state x st t)
unfolding for_types
for_types-some step x xs t st e = rw (e, for_types)

-- The state of a kind after the loop, when it is stepped if `b` holds.
abbrev pub step_if : Bool → (TracingState → Option TracingState) → TracingState → TracingState
step_if b step st = if b then stepped st (step st) else st

mem-before_failure-next :
    (p : EventType → Bool) (k x : EventType) (xs : List EventType)
    → p x ≡ false
    → mem k (before_failure p (x ∷ xs)) ≡ (x == k || mem k (before_failure p xs))
unfolding mem before_failure
mem-before_failure-next p k x xs h = rw h

for_types-each-next :
    (step : TracingState → Option TracingState) (x : EventType) (xs : List EventType) (t : Tracer)
    (k : EventType) (st : TracingState)
    → step (t.tracing_state x) ≡ some st
    → mem x xs ≡ false
    → (for_types step xs (set_state x st t)).0.tracing_state k
      ≡ step_if
          (mem k (before_failure (fails_on step (set_state x st t)) xs))
          step
          ((set_state x st t).tracing_state k)
    → (for_types step (x ∷ xs) t).0.tracing_state k
      ≡ step_if (mem k (before_failure (fails_on step t) (x ∷ xs))) step (t.tracing_state k)
for_types-each-next step x xs t k st e h rest =
    rw
      (
        for_types-some step x xs t st e,
        mem-before_failure-next (fails_on step t) k x xs (ground arith),
      )
      (ground (
        arith,
        e,
        rest,
        set_state-at x k st t,
        ap (mem k) (before_failure-set_state step x st t xs h),
        mem-before_failure (fails_on step t) x xs h,
        event_type_comparable.equal_iff x k,
      ))

-- When the kinds are distinct, each kind before the first one that may not be traced is stepped
-- once, from the state it had before the loop, and every other kind is left as it was.
pub for_types-each :
    (step : TracingState → Option TracingState) (kinds : List EventType) (t : Tracer)
    (k : EventType)
    → distinct kinds ≡ true
    → (for_types step kinds t).0.tracing_state k
      ≡ step_if (mem k (before_failure (fails_on step t) kinds)) step (t.tracing_state k)
unfolding for_types distinct mem before_failure
for_types-each step [] t k h = refl
for_types-each step (x ∷ xs) t k h = elim (Option-cases (step (t.tracing_state x))) [
  | inl e ↦ rw (for_types-none step x xs t e, e)
  | inr (st, e) ↦
      for_types-each-next step x xs t k st e (ground arith)
        (for_types-each step xs (set_state x st t) k (ground arith))
]

any-set_state :
    (step : TracingState → Option TracingState) (x : EventType) (st : TracingState) (t : Tracer)
    (xs : List EventType)
    → mem x xs ≡ false
    → any (fails_on step (set_state x st t)) xs ≡ any (fails_on step t) xs
unfolding mem any set_state
any-set_state step x st t [] h = refl
any-set_state step x st t (y ∷ ys) h = ground (
  arith,
  set_state-at x y st t,
  event_type_comparable.equal_iff y x,
  event_type_comparable.equal_iff x y,
  any-set_state step x st t ys (ground arith),
)

-- When the kinds are distinct, the loop returns an error if and only if a kind may not be traced.
pub for_types-error :
    (step : TracingState → Option TracingState) (kinds : List EventType) (t : Tracer)
    → distinct kinds ≡ true
    → (for_types step kinds t).1 ≡ not (any (fails_on step t) kinds)
unfolding for_types distinct any
for_types-error step [] t h = refl
for_types-error step (x ∷ xs) t h = elim (Option-cases (step (t.tracing_state x))) [
  | inl e ↦ rw (for_types-none step x xs t e, e)
  | inr (st, e) ↦
      rw (for_types-some step x xs t st e, e)
        (for_types-error step xs (set_state x st t) (ground arith)
          ∙ ap not (any-set_state step x st t xs (ground arith)))
]

pub event_types-distinct : (e : EventType) → distinct (event_types e) ≡ true
unfolding event_types distinct mem same_type
event_types-distinct execve_event_type = refl
event_types-distinct open_event_type = refl
event_types-distinct capabilities_event_type = refl
event_types-distinct dns_event_type = refl
event_types-distinct network_event_type = refl
event_types-distinct syscall_event_type = refl
event_types-distinct random_x_event_type = refl
event_types-distinct all_event_type = refl
