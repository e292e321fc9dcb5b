-- ===== src/Randomx/Loop.antt =====
-- The whole loop: how often it alerts, and what an event that arrives out of order does.
use kapprofiler.Base.{
  ℕ, ◌+◌, ◌≤◌, ◌<◌, ◌^◌, ◌≡◌, true, false, List, [], ◌∷◌, ◌++◌, Option, none, some, arith, eqb,
  if◌then◌else◌, lookup, nat_comparable, insert, Option-cases, inl, inr, Bool-cases, subst, eqb_iff,
  lookup-insert,
}
use kapprofiler.Bpf.Event.{RandomxEvent}
use kapprofiler.Randomx.Defs.{
  RandomxEventCache, Gadgets, Counts, Output, Read, normal, warn, err, filter_put_zero, closed,
  failed, lost, sample, elapsed, count_event, check_count, handle_sample, run,
}

-- The alerts for a mount namespace among some calls.
unfoldable pub alerts : ℕ → List Output → ℕ
alerts i [] = 0
alerts i (normal a ∷ out) = (if eqb a.mount_ns_id i then 1 else 0) + alerts i out
alerts i (warn n ∷ out) = alerts i out
alerts i (err msg ∷ out) = alerts i out
alerts i (filter_put_zero m ∷ out) = alerts i out

alerts-append : (i : ℕ) (xs ys : List Output) → alerts i (xs ++ ys) ≡ alerts i xs + alerts i ys
unfolding alerts
alerts-append i [] ys = omega arith
alerts-append i (normal a ∷ xs) ys = omega (arith, alerts-append i xs ys)
alerts-append i (warn n ∷ xs) ys = alerts-append i xs ys
alerts-append i (err msg ∷ xs) ys = alerts-append i xs ys
alerts-append i (filter_put_zero m ∷ xs) ys = alerts-append i xs ys

-- 1 for an entry with the alert's mark.
unfoldable pub mark : Option RandomxEventCache → ℕ
mark none = 0
mark (some c) = if c.alerted then 1 else 0

mark-le : (o : Option RandomxEventCache) → mark o ≤ 1
unfolding mark
mark-le none = omega arith
mark-le (some c) = ground arith

check_count-mark :
    (g : Gadgets) (m : Counts) (e : RandomxEvent) (c : RandomxEventCache) (i : ℕ)
    → c.alerted ≡ false
    → mark (lookup e.mntns_id m) ≡ 0
    → alerts i (check_count g (insert e.mntns_id c m) e c).1 + mark (lookup i m)
      ≤ mark (lookup i (check_count g (insert e.mntns_id c m) e c).0)
unfolding check_count alerts mark
check_count-mark g m e c i fresh before = elim (Bool-cases (eqb e.mntns_id i)) [
  | inl same ↦
      let here : mark (lookup i m) ≡ 0 =
        subst (λ j. mark (lookup j m) ≡ 0) ((eqb_iff e.mntns_id i).0 same) before in
      ground (
        arith,
        lookup-insert e.mntns_id i c m,
        lookup-insert e.mntns_id i
            (record { timestamp = e.timestamp; events_count = c.events_count; alerted = true })
            (insert e.mntns_id c m),
      )
  | inr other ↦ ground (
    arith,
    lookup-insert e.mntns_id i c m,
    lookup-insert e.mntns_id i
        (record { timestamp = e.timestamp; events_count = c.events_count; alerted = true })
        (insert e.mntns_id c m),
  )
]

count_event-fresh :
    (o : Option RandomxEventCache) (t : ℕ) (c : RandomxEventCache)
    → count_event o t ≡ some c
    → (c.alerted ≡ false) × (mark o ≡ 0)
unfolding count_event mark
count_event-fresh none t c h = ground arith
count_event-fresh (some d) t c h = ground arith

handle_sample-mark :
    (g : Gadgets) (m : Counts) (e : RandomxEvent) (i : ℕ)
    → alerts i (handle_sample g m e).1 + mark (lookup i m) ≤ mark (lookup i (handle_sample g m e).0)
unfolding handle_sample alerts
handle_sample-mark g m e i = elim (Option-cases (count_event (lookup e.mntns_id m) e.timestamp)) [
  | inl old ↦ rw (old, handle_sample) (omega arith)
  | inr (c, new) ↦
      let (fresh, before) = count_event-fresh (lookup e.mntns_id m) e.timestamp c new in
      rw (new, handle_sample) (check_count-mark g m e c i fresh before)
]

-- However many events there are and whatever the table holds at first: the loop raises at most one
-- alert for a mount namespace, and none for one whose entry has the alert's mark.
pub alerts-run :
    (g : Gadgets) (m : Counts) (rs : List Read) (i : ℕ)
    → alerts i (run g m rs).1 + mark (lookup i m) ≤ 1
unfolding run alerts
alerts-run g m [] i = omega (arith, mark-le (lookup i m))
alerts-run g m (closed ∷ rs) i = omega (arith, mark-le (lookup i m))
alerts-run g m (failed msg ∷ rs) i = omega (arith, mark-le (lookup i m))
alerts-run g m (lost n ∷ rs) i = omega (arith, alerts-run g m rs i)
alerts-run g m (sample e ∷ rs) i =
    rw (alerts-append i (handle_sample g m e).1 (run g (handle_sample g m e).0 rs).1)
      (omega (arith, handle_sample-mark g m e i, alerts-run g (handle_sample g m e).0 rs i))

-- An event that is older than the one before it starts a burst anew, since the `uint64` difference
-- of their times wraps around.
pub count_event-backwards :
    (c : RandomxEventCache) (t : ℕ)
    → c.alerted ≡ false
    → t < c.timestamp
    → c.timestamp < 2 ^ 63
    → count_event (some c) t ≡ some (record { timestamp = t; events_count = 1; alerted = false })
unfolding count_event elapsed
count_event-backwards c t fresh older range = ground arith
