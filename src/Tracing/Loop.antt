-- ===== src/Tracing/Loop.antt =====
-- The loops over the kinds of events: what starting some kinds and stopping some kinds changes.
use kapprofiler.Base.{
  every, both, ℕ, ◌+◌, ◌-◌, ◌≡◌, refl, Bool, true, false, List, [], ◌∷◌, ◌==◌, if◌then◌else◌, ◌&&◌,
  ◌||◌, arith, ap, ◌∙◌, one_if, Bool-cases, inl, inr, sym, subst, ==→≡, ==_refl,
}
use kapprofiler.Tracing.Events.{network_event_type, EventType, event_type_comparable}
use kapprofiler.Tracing.Kinds.{mem}
use kapprofiler.Tracing.Gadgets.{Outcomes, Machine, Step, and_then, stop_each, stop_tracing}
use kapprofiler.Tracing.Starts.{
  start_kind, start_kinds, makes, opens, start_kind-opens, start_kind-alive, start_kind-Same,
  start_kind-held, Same, held,
}

unfoldable pub occurs : EventType → List EventType → ℕ
occurs k [] = 0
occurs k (x ∷ xs) = one_if (x == k) (occurs k xs)

-- How many tracers of a kind a start makes, and whether it starts the kind.
unfoldable pub made : Outcomes → EventType → List EventType → ℕ
made o k [] = 0
made o k (x ∷ xs) =
    let rest = made o k xs in one_if (x == k && makes o x) (if opens o x then rest else 0)

unfoldable pub opened : Outcomes → EventType → List EventType → Bool
opened o k [] = false
opened o k (x ∷ xs) = opens o x && (x == k || opened o k xs)

and_then-true : (next : Step) (r : Machine × Bool) → r.1 ≡ true → and_then next r ≡ next r.0
and_then-true next (m, true) h = refl
and_then-true next (m, false) h = ground arith

and_then-false : (next : Step) (r : Machine × Bool) → r.1 ≡ false → and_then next r ≡ (r.0, false)
and_then-false next (m, true) h = ground arith
and_then-false next (m, false) h = refl

start_kinds-open :
    (o : Outcomes) (x : EventType) (xs : List EventType) (m : Machine)
    → opens o x ≡ true
    → start_kinds o (x ∷ xs) m ≡ start_kinds o xs (start_kind o x m).0
unfolding start_kinds
start_kinds-open o x xs m h =
    and_then-true (start_kinds o xs) (start_kind o x m) (start_kind-opens o x m ∙ h)

start_kinds-shut :
    (o : Outcomes) (x : EventType) (xs : List EventType) (m : Machine)
    → opens o x ≡ false
    → start_kinds o (x ∷ xs) m ≡ ((start_kind o x m).0, false)
unfolding start_kinds
start_kinds-shut o x xs m h =
    and_then-false (start_kinds o xs) (start_kind o x m) (start_kind-opens o x m ∙ h)

==_same : (x k : EventType) (f : EventType → ℕ) → (x == k) ≡ true → f x ≡ f k
==_same x k f h = ap f (==→≡ x k h)

-- What starting some kinds does to the machine, for each kind.
pub record Started (o : Outcomes) (xs : List EventType) (m : Machine) (r : Machine × Bool)
    : Type 0 where
  pub answer : r.1 ≡ every (opens o) xs
  pub alive : (k : EventType) → r.0.alive k ≡ made o k xs + m.alive k
  pub held : (k : EventType) → held k r.0 ≡ (held k m || opened o k xs)
  pub same : Same m r.0

Started-shut :
    (o : Outcomes) (x : EventType) (xs : List EventType) (m : Machine)
    → opens o x ≡ false
    → Started o (x ∷ xs) m ((start_kind o x m).0, false)
unfolding every made opened
Started-shut o x xs m h = record {
  answer = ground arith;
  alive = λ k. ground (arith, start_kind-alive o x k m, ==_same x k m.alive);
  held = λ k. ground (arith, start_kind-held o x k m);
  same = start_kind-Same o x m;
}

Started-open :
    (o : Outcomes) (x : EventType) (xs : List EventType) (m : Machine) (r : Machine × Bool)
    → opens o x ≡ true
    → Started o xs (start_kind o x m).0 r
    → Started o (x ∷ xs) m r
unfolding every made opened
Started-open o x xs m r h rest = record {
  answer = rest.answer ∙ ground arith;
  alive = λ k. rest.alive k ∙ ground (arith, start_kind-alive o x k m, ==_same x k m.alive);
  held = λ k. rest.held k ∙ ground (arith, start_kind-held o x k m);
  same =
      let own = start_kind-Same o x m in
      (rest.same.0 ∙ own.0, (rest.same.1.0 ∙ own.1.0, rest.same.1.1 ∙ own.1.1));
}

pub Started-start_kinds :
    (o : Outcomes) (xs : List EventType) (m : Machine) → Started o xs m (start_kinds o xs m)
unfolding every made opened start_kinds
Started-start_kinds o [] m = record {
  answer = refl;
  alive = λ k. omega arith;
  held = λ k. ground arith;
  same = (refl, (refl, refl));
}
Started-start_kinds o (x ∷ xs) m = elim (Bool-cases (opens o x)) [
  | inl h ↦ subst (Started o (x ∷ xs) m) (sym (start_kinds-open o x xs m h)) (
      Started-open o x xs m (start_kinds o xs (start_kind o x m).0) h
        (Started-start_kinds o xs (start_kind o x m).0))
  | inr h ↦
      subst (Started o (x ∷ xs) m) (sym (start_kinds-shut o x xs m h)) (Started-shut o x xs m h)
]

abbrev count_if : Bool → ℕ → ℕ
count_if b n = if b then n else 0

stop_tracing-held : (x k : EventType) (m : Machine) → held k (stop_tracing x m) ≡ held k m
unfolding stop_tracing
stop_tracing-held x k m = ground arith

stop_tracing-alive :
    (x k : EventType) (m : Machine)
    → (stop_tracing x m).alive k ≡ m.alive k - count_if (held k m) (one_if (x == k) 0)
unfolding stop_tracing
stop_tracing-alive x k m = elim (Bool-cases (x == k)) [
  | inl h ↦
      subst (λ j. (stop_tracing x m).alive j ≡ m.alive j - count_if (held j m) (one_if (x == j) 0))
        (==→≡ x k h) (ground (arith, ==_refl x))
  | inr h ↦ ground (arith, h)
]

stop_tracing-Same : (x : EventType) (m : Machine) → Same m (stop_tracing x m)
unfolding stop_tracing
stop_tracing-Same x m = (ground arith, (ground arith, ground arith))

-- What stopping some kinds does to the machine.
pub record Stopped (xs : List EventType) (m n : Machine) : Type 0 where
  pub alive : (k : EventType) → n.alive k ≡ m.alive k - count_if (held k m) (occurs k xs)
  pub held : (k : EventType) → held k n ≡ held k m
  pub same : Same m n

pub Stopped-stop_each : (xs : List EventType) (m : Machine) → Stopped xs m (stop_each xs m)
unfolding stop_each occurs
Stopped-stop_each [] m = record {
  alive = λ k. ground arith;
  held = λ k. refl;
  same = (refl, (refl, refl));
}
Stopped-stop_each (x ∷ xs) m =
    let rest = Stopped-stop_each xs (stop_tracing x m) in
    let own = stop_tracing-Same x m in
    record {
      alive = λ k. rest.alive k ∙ ground (arith, stop_tracing-alive x k m, stop_tracing-held x k m);
      held = λ k. rest.held k ∙ stop_tracing-held x k m;
      same = (rest.same.0 ∙ own.0, (rest.same.1.0 ∙ own.1.0, rest.same.1.1 ∙ own.1.1));
    }

opens-makes : (o : Outcomes) (k : EventType) → opens o k ≡ true → makes o k ≡ true
opens-makes o network_event_type h = ground arith
opens-makes o _ h = h

-- Starting some kinds well makes one tracer of each, and starts each of them.
pub made-every :
    (o : Outcomes) (k : EventType) (xs : List EventType)
    → every (opens o) xs ≡ true
    → (made o k xs ≡ occurs k xs) × (opened o k xs ≡ mem k xs)
unfolding every made occurs opened mem
made-every o k [] h = (refl, refl)
made-every o k (x ∷ xs) h =
    let (first, others) = both (opens o x) (every (opens o) xs) h in
    let rest = made-every o k xs others in
    let makes_x = opens-makes o x first in
    (ground (arith, first, rest.0, makes_x), ground (arith, first, rest.1))

-- Only kinds of the list are started.
pub opened-mem :
    (o : Outcomes) (k : EventType) (xs : List EventType) → opened o k xs ≡ true → mem k xs ≡ true
unfolding opened mem
opened-mem o k [] h = h
opened-mem o k (x ∷ xs) h = ground (arith, opened-mem o k xs)
