-- ===== src/Randomx/Burst.antt =====
-- The tracer's table against a history of events: an alert is raised for a mount namespace at the
-- first event that ends a burst of more than fifty, and at no other.
use kapprofiler.Base.{
  subst, ℕ, ◌+◌, ◌≡◌, Bool, true, false, ◌||◌, List, [], ◌∷◌, Option, none, some, ltb, eqb,
  if◌then◌else◌, nat_comparable, ◌≤◌, arith, lookup, insert, Bool-cases, inl, refl, lookup-insert,
  inr, Option-cases, ==_refl, eqb_iff, not, ◌&&◌,
}
use kapprofiler.Bpf.Event.{RandomxEvent}
use kapprofiler.Randomx.Defs.{
  RandomxEventCache, Gadgets, Counts, elapsed, handle_sample, count_event, check_count, normal,
  alert_of, filter_put_zero,
}

-- The length of the burst that ends with the newest of some times, newest first: the times that
-- follow one another within five seconds.
unfoldable pub burst : List ℕ → ℕ
unfolding elapsed
burst [] = 0
burst (t ∷ []) = 1
burst (t ∷ s ∷ ts) =
    let rest = burst (s ∷ ts) in if ltb 5_000_000_000 (elapsed t s) then 1 else rest + 1

-- Some time ends a burst of more than fifty.
unfoldable pub detected : List ℕ → Bool
unfolding burst
detected [] = false
detected (t ∷ ts) = detected ts || ltb 50 (burst (t ∷ ts))

-- The times of a mount namespace's events in a history, newest first.
unfoldable pub times : ℕ → List RandomxEvent → List ℕ
times m [] = []
times m (e ∷ h) = if eqb e.mntns_id m then e.timestamp ∷ times m h else times m h

-- The table after a history, newest event first.
unfoldable pub after : Gadgets → List RandomxEvent → Counts
unfolding handle_sample
after g [] = []
after g (e ∷ h) = (handle_sample g (after g h) e).0

abbrev pub newest : List ℕ → Option RandomxEventCache
newest [] = none
newest (t ∷ ts) = some (record { timestamp = t; events_count = burst (t ∷ ts); alerted = false })

-- An entry that agrees with the times of its mount namespace: before a burst is detected it holds
-- the newest time and the length of its burst, and afterwards the alert's mark.
abbrev pub Agrees : Bool → Option RandomxEventCache → List ℕ → Type 0
Agrees false o ts = o ≡ newest ts
Agrees true o ts = (c : RandomxEventCache) × (o ≡ some c) × (c.alerted ≡ true)

burst-le : (ts : List ℕ) → detected ts ≡ false → burst ts ≤ 50
unfolding detected burst
burst-le [] h = omega arith
burst-le (t ∷ []) h = omega arith
burst-le (t ∷ s ∷ ts) h = ground arith

-- An event of a namespace without an alert continues its burst.
count_event-quiet :
    (ts : List ℕ) (t : ℕ) → detected ts ≡ false → count_event (newest ts) t ≡ newest (t ∷ ts)
unfolding count_event burst
count_event-quiet [] t h = refl
count_event-quiet (s ∷ ts) t h = ground (arith, burst-le (s ∷ ts) h)

count_event-raised :
    (c : RandomxEventCache) (t : ℕ) → c.alerted ≡ true → count_event (some c) t ≡ none
unfolding count_event
count_event-raised c t h = rw h

check_count-lookup :
    (g : Gadgets) (m : Counts) (e : RandomxEvent) (ts : List ℕ) (i : ℕ)
    → detected ts ≡ false
    → eqb e.mntns_id i ≡ true
    → Agrees
        (detected (e.timestamp ∷ ts))
        (lookup i
          (check_count g
            (insert e.mntns_id
              (record {
                timestamp = e.timestamp;
                events_count = burst (e.timestamp ∷ ts);
                alerted = false;
              })
              m)
            e
            (record {
              timestamp = e.timestamp;
              events_count = burst (e.timestamp ∷ ts);
              alerted = false;
            })).0)
        (e.timestamp ∷ ts)
unfolding check_count detected
check_count-lookup g m e ts i quiet same = elim (Bool-cases (ltb 50 (burst (e.timestamp ∷ ts)))) [
  | inl over ↦ rw (quiet, over, lookup-insert, same) (_, refl, refl)
  | inr under ↦ rw (quiet, under, lookup-insert, same) refl
]

check_count-other :
    (g : Gadgets) (m : Counts) (e : RandomxEvent) (c : RandomxEventCache) (i : ℕ)
    → eqb e.mntns_id i ≡ false
    → lookup i (check_count g (insert e.mntns_id c m) e c).0 ≡ lookup i m
unfolding check_count
check_count-other g m e c i other = ground (
  arith,
  lookup-insert e.mntns_id i c m,
  lookup-insert e.mntns_id i
      (record { timestamp = e.timestamp; events_count = c.events_count; alerted = true })
      (insert e.mntns_id c m),
)

-- An event leaves the entries of the other mount namespaces alone.
pub handle_sample-other :
    (g : Gadgets) (m : Counts) (e : RandomxEvent) (i : ℕ)
    → eqb e.mntns_id i ≡ false
    → lookup i (handle_sample g m e).0 ≡ lookup i m
unfolding handle_sample
handle_sample-other g m e i other =
    elim (Option-cases (count_event (lookup e.mntns_id m) e.timestamp)) [
      | inl old ↦ rw (old, handle_sample) refl
      | inr (c, new) ↦ rw (new, handle_sample) (check_count-other g m e c i other)
    ]

abbrev counted : RandomxEvent → List ℕ → RandomxEventCache
counted e ts = record {
  timestamp = e.timestamp;
  events_count = burst (e.timestamp ∷ ts);
  alerted = false;
}

-- What the loop does with an event of a namespace whose times are `ts`, before an alert.
handle_sample-quiet :
    (g : Gadgets) (m : Counts) (e : RandomxEvent) (ts : List ℕ)
    → detected ts ≡ false
    → lookup e.mntns_id m ≡ newest ts
    → handle_sample g m e ≡ check_count g (insert e.mntns_id (counted e ts) m) e (counted e ts)
unfolding handle_sample
handle_sample-quiet g m e ts quiet h =
    rw (h, count_event-quiet ts e.timestamp quiet, handle_sample) refl

-- After an alert the loop does nothing.
handle_sample-raised :
    (g : Gadgets) (m : Counts) (e : RandomxEvent) (c : RandomxEventCache)
    → lookup e.mntns_id m ≡ some c
    → c.alerted ≡ true
    → handle_sample g m e ≡ (m, [])
unfolding handle_sample
handle_sample-raised g m e c h a = rw (h, count_event-raised c e.timestamp a, handle_sample) refl

detected_cons : (t : ℕ) (ts : List ℕ) → detected ts ≡ true → detected (t ∷ ts) ≡ true
unfolding detected
detected_cons t ts h = rw h

-- An event of a namespace, of which nothing is known but the times `ts` before it.
handle_sample-same :
    (g : Gadgets) (m : Counts) (e : RandomxEvent) (ts : List ℕ) (b : Bool)
    → detected ts ≡ b
    → Agrees b (lookup e.mntns_id m) ts
    → Agrees
        (detected (e.timestamp ∷ ts))
        (lookup e.mntns_id (handle_sample g m e).0)
        (e.timestamp ∷ ts)
handle_sample-same g m e ts false quiet ih =
    rw (handle_sample-quiet g m e ts quiet ih)
      (check_count-lookup g m e ts e.mntns_id quiet (==_refl e.mntns_id))
handle_sample-same g m e ts true raised (c, h, a) =
    rw (detected_cons e.timestamp ts raised, handle_sample-raised g m e c h a) (c, h, a)

-- After any history, from the empty table on, the entry of each mount namespace agrees with the
-- times of its events in the history.
pub lookup-after :
    (g : Gadgets) (h : List RandomxEvent) (i : ℕ)
    → Agrees (detected (times i h)) (lookup i (after g h)) (times i h)
unfolding after times detected
lookup-after g [] i = refl
lookup-after g (e ∷ h) i = elim (Bool-cases (eqb e.mntns_id i)) [
  | inl same ↦
      let here : e.mntns_id ≡ i = (eqb_iff e.mntns_id i).0 same in
      subst
        (λ j.
          Agrees (detected (times j (e ∷ h))) (lookup j (handle_sample g (after g h) e).0)
            (times j (e ∷ h)))
        here
        (rw (==_refl e.mntns_id) (
          handle_sample-same g (after g h) e (times e.mntns_id h) _ refl
            (lookup-after g h e.mntns_id)))
  | inr other ↦ rw (other, handle_sample-other g (after g h) e i other) (lookup-after g h i)
]

alert-same :
    (g : Gadgets) (m : Counts) (e : RandomxEvent) (ts : List ℕ) (b : Bool)
    → detected ts ≡ b
    → Agrees b (lookup e.mntns_id m) ts
    → (handle_sample g m e).1 ≡ (
        if not (detected ts) && detected (e.timestamp ∷ ts)
        then normal (alert_of g e) ∷ filter_put_zero e.mntns_id ∷ []
        else [])
unfolding check_count detected
alert-same g m e ts false quiet ih =
    rw (handle_sample-quiet g m e ts quiet ih, quiet) (ground arith)
alert-same g m e ts true raised (c, h, a) = rw (handle_sample-raised g m e c h a, raised)

-- An event is answered by an alert, and by a write of 0 to the filter map, exactly if with it and
-- not before it some burst of its mount namespace is longer than fifty; else nothing is called.
pub handle_sample-alert :
    (g : Gadgets) (h : List RandomxEvent) (e : RandomxEvent)
    → (handle_sample g (after g h) e).1 ≡ (
        if not (detected (times e.mntns_id h)) && detected (times e.mntns_id (e ∷ h))
        then normal (alert_of g e) ∷ filter_put_zero e.mntns_id ∷ []
        else [])
unfolding times
handle_sample-alert g h e =
    rw (==_refl e.mntns_id)
      (alert-same g (after g h) e (times e.mntns_id h) _ refl (lookup-after g h e.mntns_id))
