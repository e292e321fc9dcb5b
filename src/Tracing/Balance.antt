-- ===== src/Tracing/Balance.antt =====
-- How many tracers run after a history of `Start` and `Stop` of pkg/tracing/tracing.go.
use kapprofiler.Base.{
  every, if_true, if_false, ℕ, ◌+◌, ◌≡◌, Bool, true, false, not, List, [], ◌∷◌, ◌&&◌, ◌||◌, arith,
  ap, ◌∙◌, refl, Bool-cases, inl, inr, subst, sym,
}
use kapprofiler.Tracing.Events.{EventType, event_type_comparable, syscall_event_type}
use kapprofiler.Tracing.Kinds.{mem}
use kapprofiler.Tracing.Defs.{no_tracing}
use kapprofiler.Tracing.Gadgets.{
  Outcomes, Machine, start, stop, started, set_running, stop_container_collection,
  stop_app_behavior_tracing, has_tracer, stop_each,
}
use kapprofiler.Tracing.Starts.{kinds_of, opens, start_kinds}
use kapprofiler.Tracing.Loop.{
  made, Started, made-every, opened-mem, Stopped, Started-start_kinds, Stopped-stop_each,
}
use kapprofiler.Tracing.Leaks.{
  Action, starts, stops, idle, machine_after, goes_well, is_running, made_if, left_over, all_kinds,
  kinds_of-occurs, all_kinds-occurs, stop_container_collection-alive, Holds, start-running,
  start-alone, start-collected, with_collection,
}

started-true : (r : Machine × Bool) → r.1 ≡ true → (started r).0 ≡ set_running true r.0
started-true (m, true) h = refl
started-true (m, false) h = ground arith

started-false : (r : Machine × Bool) → r.1 ≡ false → (started r).0 ≡ stop_container_collection r.0
started-false (m, true) h = ground arith
started-false (m, false) h = refl

module _ (amd64 : Bool) (left : EventType → ℕ) (m : Machine) where
  Holds-success :
      (o : Outcomes) (r : Machine × Bool)
      → Holds amd64 false left m
      → Started o (kinds_of amd64) (with_collection m) r
      → every (opens o) (kinds_of amd64) ≡ true
      → Holds amd64 true left (set_running true r.0)
  Holds-success o r old new well = record {
    runs = refl;
    alive = λ k.
        let counts = made-every o k (kinds_of amd64) well in
        ground (arith, new.alive k, old.alive k, counts.0, kinds_of-occurs amd64 k);
    only = λ k h. ground (arith, new.held k, old.only k, opened-mem o k (kinds_of amd64));
    all = λ k running h.
        let counts = made-every o k (kinds_of amd64) well in ground (arith, new.held k, counts.1);
    open_one = ground (arith, new.same, old.open_one);
    collection = λ running. new.same.1.0;
  }

  Holds-failure :
      (o : Outcomes) (r : Machine × Bool)
      → Holds amd64 false left m
      → Started o (kinds_of amd64) (with_collection m) r
      → Holds amd64 false (λ k. made o k (kinds_of amd64) + left k) (stop_container_collection r.0)
  unfolding stop_container_collection
  Holds-failure o r old new = record {
    runs = ground (arith, new.same.0, old.runs, new.same.1.0);
    alive = λ k. ground (arith, new.alive k, old.alive k, new.same.1.0);
    only = λ k h.
        ground (arith, new.held k, old.only k, opened-mem o k (kinds_of amd64), new.same.1.0);
    all = λ k running h. ground (arith, running);
    open_one = ground (arith, new.same.1.1, new.same.1.0, old.open_one);
    collection = λ running. ground (arith, running);
  }

  Holds-Stopped :
      (n : Machine)
      → Holds amd64 true left m
      → Stopped all_kinds (stop_container_collection m) n
      → Holds amd64 false left (set_running false n)
  unfolding stop_container_collection
  Holds-Stopped n old new = record {
    runs = refl;
    alive = λ k. elim (Bool-cases (mem k (kinds_of amd64))) [
      | inl inside ↦ ground (
        arith,
        new.alive k,
        old.alive k,
        old.all k refl inside,
        all_kinds-occurs amd64 k inside,
        stop_container_collection-alive m k,
        inside,
      )
      | inr outside ↦ ground (
        arith,
        new.alive k,
        old.alive k,
        old.only k,
        stop_container_collection-alive m k,
        outside,
      )
    ];
    only = λ k h. ground (arith, new.held k, old.only k, stop_container_collection-alive m k);
    all = λ k running h. ground (arith, running);
    open_one = ground (arith, new.same.1.1, old.open_one, old.collection refl);
    collection = λ running. ground (arith, running);
  }

has_tracer-no_tracing : (k : EventType) → has_tracer k no_tracing ≡ false
has_tracer-no_tracing syscall_event_type = refl
has_tracer-no_tracing _ = refl

Holds-cast :
    (amd64 running running' : Bool) (left left' : EventType → ℕ) (m m' : Machine)
    → running ≡ running'
    → ((k : EventType) → left k ≡ left' k)
    → m ≡ m'
    → Holds amd64 running left m
    → Holds amd64 running' left' m'
Holds-cast amd64 running running' left left' m m' b e d old =
    subst (Holds amd64 running' left') d (
      subst (λ l. Holds amd64 running' l m) (λ i k. e k i)
        (subst (λ r. Holds amd64 r left m) b old))

Holds-empty : (amd64 : Bool) → Holds amd64 false (λ k. 0) idle
Holds-empty amd64 = record {
  runs = refl;
  alive = λ k. ground arith;
  only = λ k h. ground (arith, has_tracer-no_tracing k);
  all = λ k running h. ground (arith, running);
  open_one = refl;
  collection = λ running. ground (arith, running);
}

-- After a start of a machine that does not run, in the three ways that it can go.
Holds-start_idle :
    (amd64 : Bool) (left : EventType → ℕ) (o : Outcomes) (m : Machine)
    → Holds amd64 false left m
    → Holds amd64
        (goes_well amd64 o)
        (λ k.
          made_if (not (goes_well amd64 o) && o.collection) (made o k (kinds_of amd64)) + left k)
        (start amd64 o m).0
unfolding goes_well
Holds-start_idle amd64 left o m old =
    let r = start_kinds o (kinds_of amd64) (with_collection m) in
    let new = Started-start_kinds o (kinds_of amd64) (with_collection m) in
    let well = every (opens o) (kinds_of amd64) in
    let left' = λ (k : EventType).
      made_if (not (o.collection && well) && o.collection) (made o k (kinds_of amd64)) + left k in
    elim (Bool-cases o.collection) [
      | inl there ↦
          let collected = ap (λ s. s.0) (start-collected amd64 o m old.runs there) in
          elim (Bool-cases well) [
            | inl all ↦
                Holds-cast amd64 true (o.collection && well) left left' (set_running true r.0)
                  (start amd64 o m).0 (ground (arith, there, all)) (λ k. ground (arith, there, all))
                  (sym (collected ∙ started-true r (new.answer ∙ all)))
                  (Holds-success amd64 left m o r old new all)
            | inr some_not ↦
                Holds-cast amd64 false (o.collection && well)
                  (λ k. made o k (kinds_of amd64) + left k) left' (stop_container_collection r.0)
                  (start amd64 o m).0 (ground (arith, there, some_not))
                  (λ k. ground (arith, there, some_not))
                  (sym (collected ∙ started-false r (new.answer ∙ some_not)))
                  (Holds-failure amd64 left m o r old new)
          ]
      | inr missing ↦
          Holds-cast amd64 false (o.collection && well) left left' m (start amd64 o m).0
            (ground (arith, missing)) (λ k. ground (arith, missing))
            (ap (λ s. s.0) (sym (start-alone amd64 o m old.runs missing))) old
    ]

Holds-start :
    (amd64 running : Bool) (left : EventType → ℕ) (o : Outcomes) (m : Machine)
    → Holds amd64 running left m
    → Holds amd64
        (running || goes_well amd64 o)
        (λ k.
          made_if (not (running || goes_well amd64 o) && o.collection) (made o k (kinds_of amd64))
          + left k)
        (start amd64 o m).0
Holds-start amd64 true left o m old =
    Holds-cast amd64 true true left (λ k. 0 + left k) m (start amd64 o m).0 refl (λ k. omega arith)
      (ap (λ s. s.0) (sym (start-running amd64 o m old.runs))) old
Holds-start amd64 false left o m old = Holds-start_idle amd64 left o m old

Holds-stop :
    (amd64 running : Bool) (left : EventType → ℕ) (m : Machine)
    → Holds amd64 running left m
    → Holds amd64 false left (stop m)
unfolding stop stop_app_behavior_tracing
Holds-stop amd64 true left m old =
    subst (Holds amd64 false left)
      (sym (
        if_true m.tracer.running
          (set_running false (stop_each all_kinds (stop_container_collection m))) m old.runs))
      (Holds-Stopped amd64 left m (stop_each all_kinds (stop_container_collection m)) old
        (Stopped-stop_each all_kinds (stop_container_collection m)))
Holds-stop amd64 false left m old =
    subst (Holds amd64 false left)
      (sym (
        if_false m.tracer.running
          (set_running false (stop_each all_kinds (stop_container_collection m))) m old.runs))
      old

-- After any history of `Start` and `Stop`, whatever fails in it: the tracer runs exactly if a start
-- that went well came after the last stop; of each kind of events one tracer is alive for each
-- start that made it and then failed, and one more for a kind that is started while the tracer
-- runs; one container collection is open while it runs, and none else; and the tracers that `Stop`
-- would stop are of the started kinds, all of them while it runs.
pub Holds-machine_after :
    (amd64 : Bool) (h : List Action)
    → Holds amd64 (is_running amd64 h) (λ k. left_over amd64 k h) (machine_after amd64 h)
unfolding machine_after is_running left_over
Holds-machine_after amd64 [] = Holds-empty amd64
Holds-machine_after amd64 (stops ∷ h) =
    Holds-stop amd64 (is_running amd64 h) (λ k. left_over amd64 k h) (machine_after amd64 h)
      (Holds-machine_after amd64 h)
Holds-machine_after amd64 (starts o ∷ h) =
    Holds-start amd64 (is_running amd64 h) (λ k. left_over amd64 k h) o (machine_after amd64 h)
      (Holds-machine_after amd64 h)
