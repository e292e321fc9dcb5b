-- ===== src/Tracing/Starts.antt =====
-- The gadgets that a start makes: the steps of pkg/tracing/ig.go as one loop over the kinds.
use kapprofiler.Base.{
  both, ◌+◌, ◌≡◌, refl, Bool, true, false, List, [], ◌∷◌, ◌==◌, if◌then◌else◌, ◌&&◌, ◌||◌, arith,
  ap, ◌∙◌, Bool-cases, inl, inr, sym, ==→≡, subst,
}
use kapprofiler.Tracing.Events.{
  execve_event_type, open_event_type, capabilities_event_type, dns_event_type, network_event_type,
  syscall_event_type, random_x_event_type, all_event_type, EventType, event_type_comparable,
}
use kapprofiler.Tracing.Defs.{TracingState, set_state}
use kapprofiler.Tracing.Gadgets.{
  Outcomes, Machine, Step, and_then, ◌>>◌, check, new_tracer, install, with_gadget, with_attachable,
  with_peekable, start_gadget, start_systemcall_tracing, start_dns_tracing, start_network_tracing,
  start_app_behavior_tracing, has_tracer,
}

-- The function that starts a kind.
abbrev pub start_kind : Outcomes → EventType → Step
start_kind o syscall_event_type = start_systemcall_tracing o
start_kind o dns_event_type = start_dns_tracing o
start_kind o network_event_type = start_network_tracing o
start_kind o all_event_type = check false
start_kind o kind = start_gadget kind o

unfoldable pub start_kinds : Outcomes → List EventType → Step
start_kinds o [] = check true
start_kinds o (kind ∷ kinds) = start_kind o kind >> start_kinds o kinds

-- The kinds that are started, in order.
abbrev pub kinds_of : Bool → List EventType
kinds_of amd64 =
    execve_event_type
    ∷ syscall_event_type
    ∷ open_event_type
    ∷ capabilities_event_type
    ∷ dns_event_type
    ∷ network_event_type
    ∷ (if amd64 then random_x_event_type ∷ [] else [])

and_then-ok : (r : Machine × Bool) → and_then (check true) r ≡ r
and_then-ok (m, true) = refl
and_then-ok (m, false) = refl

and_then-last : (last : Step) → (last >> check true) ≡ last
and_then-last last = λ i m. and_then-ok (last m) i

pub start_app_behavior_tracing-kinds :
    (amd64 : Bool) (o : Outcomes) (m : Machine)
    → start_app_behavior_tracing amd64 o m ≡ start_kinds o (kinds_of amd64) m
unfolding start_app_behavior_tracing start_kinds
start_app_behavior_tracing-kinds true o m =
    ap
      (λ (last : Step).
        (do
          start_gadget execve_event_type o
          start_systemcall_tracing o
          start_gadget open_event_type o
          start_gadget capabilities_event_type o
          start_dns_tracing o
          start_network_tracing o
          last)
          m)
      (sym (and_then-last (start_gadget random_x_event_type o)))
start_app_behavior_tracing-kinds false o m = refl

-- Whether the tracer of a kind is made, and whether its start goes well, once it is reached.
abbrev pub makes : Outcomes → EventType → Bool
makes o syscall_event_type = o.makes_tracer syscall_event_type
makes o dns_event_type = o.makes_tracer dns_event_type
makes o network_event_type = o.makes_tracer network_event_type
makes o all_event_type = false
makes o kind = o.makes_map kind && o.makes_tracer kind

abbrev pub opens : Outcomes → EventType → Bool
opens o network_event_type = o.makes_tracer network_event_type && o.runs_workaround
opens o kind = makes o kind

pub start_kind-opens :
    (o : Outcomes) (k : EventType) (m : Machine) → (start_kind o k m).1 ≡ opens o k
unfolding start_gadget start_systemcall_tracing start_dns_tracing start_network_tracing new_tracer
    install
start_kind-opens o all_event_type m = refl
start_kind-opens o _ m = ground arith

pub start_kind-alive :
    (o : Outcomes) (k j : EventType) (m : Machine)
    → (start_kind o k m).0.alive j ≡ (if k == j && makes o k then m.alive k + 1 else m.alive j)
unfolding start_gadget start_systemcall_tracing start_dns_tracing start_network_tracing new_tracer
    install
start_kind-alive o all_event_type j m = ground arith
start_kind-alive o _ j m = ground arith

-- What no start of a kind changes.
abbrev pub Same : Machine → Machine → Type 0
Same m n =
    (n.tracer.running ≡ m.tracer.running)
    × ((n.c_collection ≡ m.c_collection) × (n.collections ≡ m.collections))

pub start_kind-Same : (o : Outcomes) (k : EventType) (m : Machine) → Same m (start_kind o k m).0
unfolding start_gadget start_systemcall_tracing start_dns_tracing start_network_tracing new_tracer
    install set_state
start_kind-Same o all_event_type m = (refl, (refl, refl))
start_kind-Same o _ m = (ground arith, (ground arith, ground arith))

-- Whether there is a tracer of a kind to be stopped.
abbrev pub held : EventType → Machine → Bool
held k m = has_tracer k (m.tracer.tracing_state k)

-- The state of a kind that was started.
abbrev fresh_of : EventType → TracingState
fresh_of syscall_event_type = with_peekable
fresh_of dns_event_type = with_attachable
fresh_of network_event_type = with_attachable
fresh_of kind = with_gadget

start_kind-state :
    (o : Outcomes) (k j : EventType) (m : Machine)
    → (start_kind o k m).0.tracer.tracing_state j
      ≡ (if k == j && opens o k then fresh_of k else m.tracer.tracing_state j)
unfolding start_gadget start_systemcall_tracing start_dns_tracing start_network_tracing new_tracer
    install set_state
start_kind-state o all_event_type j m = ground arith
start_kind-state o _ j m = ground arith

has_tracer-fresh_of :
    (k : EventType) (o : Outcomes) → opens o k ≡ true → has_tracer k (fresh_of k) ≡ true
has_tracer-fresh_of all_event_type o h = refl
has_tracer-fresh_of _ o h = refl

pub start_kind-held :
    (o : Outcomes) (k j : EventType) (m : Machine)
    → held j (start_kind o k m).0 ≡ (held j m || (k == j && opens o k))
start_kind-held o k j m =
    ap (has_tracer j) (start_kind-state o k j m) ∙ elim (Bool-cases (k == j && opens o k)) [
      | inl t ↦
          let (here, opened) = both (k == j) (opens o k) t in
          let own =
            subst (λ i. has_tracer i (fresh_of k) ≡ true) (==→≡ k j here)
              (has_tracer-fresh_of k o opened) in
          rw t (ground (arith, own))
      | inr f ↦ rw f (ground arith)
    ]
