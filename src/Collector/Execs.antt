-- ===== src/Collector/Execs.antt =====
-- The executions of a profile, against the events that it was made of.
use kapprofiler.Base.{
  one_if, Bool-cases, inl, inr, ap, ℕ, ◌+◌, max, min, ◌≡◌, refl, Bool, true, ◌&&◌, List, [], ◌∷◌,
  ◌++◌, ◌==◌, string_comparable, any, if◌then◌else◌, arith, ltb, ◌∙◌, ==_refl, slices_equal,
  slices_equal→≡, slices_equal_refl,
}
use kapprofiler.Tracing.Events.{ExecveEvent}
use kapprofiler.Collector.Calls.{ExecCalls, is_exec_call, exec_event_exists, same_bool}
use kapprofiler.Collector.Build.{exec_call_of, add_exec, add_execs}

-- The number of calls that the event of a given call is found equal to.
unfoldable pub recorded : ExecveEvent → List ExecCalls → ℕ
unfolding is_exec_call
recorded e [] = 0
recorded e (c ∷ cs) = one_if (is_exec_call e c) (recorded e cs)

-- The number of events with the path, the arguments, the environment and the layer of an event.
unfoldable pub seen : ExecveEvent → List ExecveEvent → ℕ
unfolding is_exec_call
seen e [] = 0
seen e (x ∷ xs) = one_if (is_exec_call e (exec_call_of x)) (seen e xs)

is_exec_call→≡ : (e : ExecveEvent) (c : ExecCalls) → is_exec_call e c ≡ true → exec_call_of e ≡ c
unfolding is_exec_call
is_exec_call→≡ e c h = ground (
  arith,
  string_comparable.equal_iff e.path_name c.path,
  slices_equal→≡ e.args c.args,
  slices_equal→≡ e.env c.envs,
)

pub is_exec_call_refl : (e : ExecveEvent) → is_exec_call e (exec_call_of e) ≡ true
unfolding is_exec_call
is_exec_call_refl e =
    ground (arith, ==_refl e.path_name, slices_equal_refl e.args, slices_equal_refl e.env)

recorded-append :
    (e : ExecveEvent) (cs : List ExecCalls) (c : ExecCalls)
    → recorded e (cs ++ c ∷ []) ≡ one_if (is_exec_call e c) (recorded e cs)
unfolding recorded
recorded-append e [] c = refl
recorded-append e (x ∷ xs) c = ground (arith, recorded-append e xs c)

pub exec_event_exists-recorded :
    (e : ExecveEvent) (cs : List ExecCalls) → exec_event_exists e cs ≡ ltb 0 (recorded e cs)
unfolding recorded exec_event_exists any
exec_event_exists-recorded e [] = refl
exec_event_exists-recorded e (c ∷ cs) = ground (arith, exec_event_exists-recorded e cs)

abbrev same_exec : ExecCalls → ExecCalls → Bool
same_exec a b =
    a.path == b.path
    && (slices_equal a.args b.args
        && (slices_equal a.envs b.envs && same_bool a.upper_layer b.upper_layer))

is_exec_call-same :
    (e x : ExecveEvent) (c : ExecCalls)
    → exec_call_of e ≡ exec_call_of x
    → is_exec_call e c ≡ is_exec_call x c
unfolding is_exec_call
is_exec_call-same e x c h = ap (λ call. same_exec call c) h

recorded-same :
    (e x : ExecveEvent) (cs : List ExecCalls)
    → exec_call_of e ≡ exec_call_of x
    → recorded e cs ≡ recorded x cs
unfolding recorded
recorded-same e x [] h = refl
recorded-same e x (c ∷ cs) h = ground (arith, is_exec_call-same e x c h, recorded-same e x cs h)

recorded-add_exec :
    (e x : ExecveEvent) (cs : List ExecCalls)
    → recorded e (add_exec cs x) ≡ (
        if is_exec_call e (exec_call_of x)
        then (if e.path_name == "" then recorded e cs + 1 else max 1 (recorded e cs))
        else recorded e cs)
unfolding add_exec
recorded-add_exec e x cs = elim (Bool-cases (is_exec_call e (exec_call_of x))) [
  | inl same ↦
      let equal = is_exec_call→≡ e (exec_call_of x) same in
      ground (
        arith,
        recorded-append e cs (exec_call_of x),
        exec_event_exists-recorded x cs,
        recorded-same e x cs equal,
        ap (λ c. c.path == "") equal,
      )
  | inr other ↦ ground (arith, recorded-append e cs (exec_call_of x))
]

recorded-add_execs :
    (e : ExecveEvent) (cs : List ExecCalls) (xs : List ExecveEvent)
    → recorded e (add_execs cs xs) ≡ (
        if e.path_name == ""
        then recorded e cs + seen e xs
        else max (recorded e cs) (min 1 (seen e xs)))
unfolding add_execs seen
recorded-add_execs e cs [] = ground arith
recorded-add_execs e cs (x ∷ xs) =
    ground (arith, recorded-add_execs e (add_exec cs x) xs, recorded-add_exec e x cs)

-- In the profile that is made of some events, an execution with a path is recorded once if it was
-- seen and else not at all, and one without a path as often as it was seen.
pub add_execs-recorded :
    (e : ExecveEvent) (xs : List ExecveEvent)
    → recorded e (add_execs [] xs) ≡ (if e.path_name == "" then seen e xs else min 1 (seen e xs))
unfolding recorded
add_execs-recorded e xs = recorded-add_execs e [] xs ∙ ground arith
