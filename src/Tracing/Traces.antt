-- ===== src/Tracing/Traces.antt =====
-- What `StartTraceContainer` and `StopTraceContainer` do to the state of each kind of events.
use mathlib.Core.Option as Option
use kapprofiler.Base.{
  ◌≡◌, refl, Bool, true, false, not, ◌&&◌, ◌==◌, Option, List, [], ◌∷◌, ◌++◌, ◌+◌, ◌-◌,
  if◌then◌else◌, arith, inl, inr, ap, any, ◌∙◌, ℕ, subst, sym, ◌⊎◌, nat_comparable, eqb,
  lookup-insert, if_true,
}
use kapprofiler.Bpf.Filter.{is_some}
use kapprofiler.Tracing.Events.{
  execve_event_type, open_event_type, capabilities_event_type, dns_event_type, network_event_type,
  syscall_event_type, random_x_event_type, all_event_type, EventType, same_type,
}
use kapprofiler.Tracing.Defs.{
  TracingState, Tracer, AttachCall, attach, detach, usage, event_types, start_trace_container,
  stop_trace_container, EbpfPut, start_one, stop_one, for_types,
}
use kapprofiler.Tracing.Kinds.{
  mem, before_failure, stepped, step_if, fails_on, for_types-each, for_types-error,
  event_types-distinct,
}

-- The kinds that an event type stands for, in the order in which they are traced.
abbrev pub order : EventType → List EventType
order all_event_type =
    network_event_type ∷ dns_event_type ∷ execve_event_type ∷ capabilities_event_type
    ∷ open_event_type ∷ []
order kind = kind ∷ []

-- A kind that has neither a gadget nor an attachable tracer.
abbrev pub is_blocked : Tracer → EventType → Bool
is_blocked t k = not (t.tracing_state k).gadget && not (is_some (t.tracing_state k).attachable)

-- The kinds that a call comes to and can trace.
abbrev pub reached : EventType → Tracer → List EventType
reached e t = if t.running then before_failure (is_blocked t) (order e) else []

-- The calls of an attachable tracer with one more, if there is such a tracer and no gadget.
abbrev pub calls_with : AttachCall → TracingState → Option (List AttachCall)
calls_with call st =
    if st.gadget then st.attachable else Option.map (λ calls. calls ++ call ∷ []) st.attachable

-- One more user of a mount namespace: a gadget counts it and writes 1 into its filter map, an
-- attachable tracer is attached to the process.
pub record IsStarted (put : EbpfPut) (mntns pid : ℕ) (st new : TracingState) : Type 0 where
  pub count :
      (i : ℕ) → usage i new ≡ (if st.gadget && mntns == i then usage i st + 1 else usage i st)
  pub filter : new.ebpf_container_filter_map ≡ (
      if st.gadget then put mntns 1 st.ebpf_container_filter_map else st.ebpf_container_filter_map)
  pub calls : new.attachable ≡ calls_with (attach pid) st
  pub same : (new.gadget ≡ st.gadget) × (new.peekable ≡ st.peekable)

-- One user less, if there is one: the last one leaves a 0 in the filter map.
pub record IsStopped (put : EbpfPut) (mntns pid : ℕ) (st new : TracingState) : Type 0 where
  pub count :
      (i : ℕ) → usage i new ≡ (if st.gadget && mntns == i then usage i st - 1 else usage i st)
  pub filter : new.ebpf_container_filter_map ≡ (
      if st.gadget && eqb (usage mntns st) 1
      then put mntns 0 st.ebpf_container_filter_map
      else st.ebpf_container_filter_map)
  pub calls : new.attachable ≡ calls_with (detach pid) st
  pub same : (new.gadget ≡ st.gadget) × (new.peekable ≡ st.peekable)

start_one-IsStarted :
    (put : EbpfPut) (mntns pid : ℕ) (st : TracingState)
    → IsStarted put mntns pid st (stepped st (start_one put mntns pid st))
unfolding start_one usage
start_one-IsStarted put mntns pid st = record {
  count = λ i. ground (
    arith,
    lookup-insert mntns i (usage mntns st + 1) st.usage_reference_count,
    nat_comparable.equal_iff mntns i,
  );
  filter = ground arith;
  calls = ground arith;
  same = (ground arith, ground arith);
}

stop_one-IsStopped :
    (put : EbpfPut) (mntns pid : ℕ) (st : TracingState)
    → IsStopped put mntns pid st (stepped st (stop_one put mntns pid st))
unfolding stop_one usage
stop_one-IsStopped put mntns pid st = record {
  count = λ i. ground (
    arith,
    lookup-insert mntns i (usage mntns st - 1) st.usage_reference_count,
    nat_comparable.equal_iff mntns i,
  );
  filter = ground arith;
  calls = ground arith;
  same = (ground arith, ground arith);
}

start_one-blocked :
    (put : EbpfPut) (mntns pid : ℕ) (t : Tracer) (k : EventType)
    → fails_on (start_one put mntns pid) t k ≡ is_blocked t k
unfolding start_one
start_one-blocked put mntns pid t k = ground arith

stop_one-blocked :
    (put : EbpfPut) (mntns pid : ℕ) (t : Tracer) (k : EventType)
    → fails_on (stop_one put mntns pid) t k ≡ is_blocked t k
unfolding stop_one
stop_one-blocked put mntns pid t k = ground arith

event_types-order : (e : EventType) → event_types e ≡ order e
unfolding event_types same_type
event_types-order execve_event_type = refl
event_types-order open_event_type = refl
event_types-order capabilities_event_type = refl
event_types-order dns_event_type = refl
event_types-order network_event_type = refl
event_types-order syscall_event_type = refl
event_types-order random_x_event_type = refl
event_types-order all_event_type = refl

-- A kind that the call reaches changes as stated, every other kind stays as it was, and the call
-- goes well if the tracer runs and no kind is blocked.
abbrev pub Traces :
    (TracingState → TracingState → Type 0) → EventType → EventType → Tracer → Tracer × Bool → Type 0
Traces Changes e k t r =
    ((mem k (reached e t) ≡ true) × Changes (t.tracing_state k) (r.0.tracing_state k)
      ⊎ (mem k (reached e t) ≡ false) × (r.0.tracing_state k ≡ t.tracing_state k))
    × (r.1 ≡ (t.running && not (any (is_blocked t) (order e))))

module _ (Changes : TracingState → TracingState → Type 0)
    (step : TracingState → Option TracingState)
    (changes : (st : TracingState) → Changes st (stepped st (step st))) (t : Tracer)
    (blocks : (k : EventType) → fails_on step t k ≡ is_blocked t k) where
  step_if-Changes :
      (b : Bool) (st new : TracingState)
      → new ≡ step_if b step st
      → ((b ≡ true) × Changes st new ⊎ (b ≡ false) × (new ≡ st))
  step_if-Changes true st new h = inl (refl, subst (Changes st) (sym h) (changes st))
  step_if-Changes false st new h = inr (refl, h)

  for_types-Traces :
      (e k : EventType) → t.running ≡ true → Traces Changes e k t (for_types step (event_types e) t)
  for_types-Traces e k runs =
      let r = for_types step (event_types e) t in
      let same : before_failure (fails_on step t) (event_types e) ≡ reached e t =
        (λ i. before_failure (λ x. blocks x i) (event_types-order e i))
        ∙ sym (if_true t.running (before_failure (is_blocked t) (order e)) [] runs) in
      (
        step_if-Changes (mem k (reached e t)) (t.tracing_state k) (r.0.tracing_state k) (
            for_types-each step (event_types e) t k (event_types-distinct e)
            ∙ ap (λ l. step_if (mem k l) step (t.tracing_state k)) same),
        for_types-error step (event_types e) t (event_types-distinct e)
            ∙ (λ i. not (any (λ x. blocks x i) (event_types-order e i)))
            ∙ ground (arith, runs),
      )

  running-Traces :
      (e k : EventType) (runs : Bool)
      → t.running ≡ runs
      → Traces Changes e k t (if not runs then (t, false) else for_types step (event_types e) t)
  unfolding mem
  running-Traces e k true h = for_types-Traces e k h
  running-Traces e k false h = (inr (ground (arith, h), refl), ground (arith, h))

-- For any tracer, `StartTraceContainer` of an event type comes to the kinds that it stands for, in
-- their order, up to the first that has neither a gadget nor an attachable tracer, and to none when
-- the tracer does not run. A gadget of these counts one user more of the mount namespace and writes
-- 1 into its filter map, an attachable tracer of these without a gadget is attached to the process;
-- every other kind stays as it was. `StopTraceContainer` comes to the same kinds: a gadget counts
-- one user less and writes 0 for the last one, an attachable tracer is detached. Each returns no
-- error exactly if the tracer runs and no kind of the event type lacks both.
pub start_trace_container-Traces :
    (put : EbpfPut) (mntns pid : ℕ) (e k : EventType) (t : Tracer)
    → Traces (IsStarted put mntns pid) e k t (start_trace_container put mntns pid e t)
      × Traces (IsStopped put mntns pid) e k t (stop_trace_container put mntns pid e t)
unfolding start_trace_container stop_trace_container
start_trace_container-Traces put mntns pid e k t = (
  running-Traces (IsStarted put mntns pid) (start_one put mntns pid)
      (start_one-IsStarted put mntns pid) t (start_one-blocked put mntns pid t) e k t.running refl,
  running-Traces (IsStopped put mntns pid) (stop_one put mntns pid)
      (stop_one-IsStopped put mntns pid) t (stop_one-blocked put mntns pid t) e k t.running refl,
)
