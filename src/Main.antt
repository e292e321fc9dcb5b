-- ===== src/Main.antt =====
-- main.go: the parts in the order in which they are started, with the calls that are deferred, and
-- how the process ends.
use kapprofiler.Base.{
  ℕ, Bool, not, String, Option, none, some, List, [], ◌∷◌, ◌++◌, if◌then◌else◌, ◌==◌,
  string_comparable, ◌&&◌, eqb, length,
}

pub data Part : Type 0 where
  event_sink : Part
  collector_manager : Part
  service_tracer : Part
  app_profile_controller : Part

-- What a process has done: the parts that it started and stopped, oldest first, and the stops that
-- are deferred, newest first. `exit_code` is there once `os.Exit` was called.
pub record Process : Type 0 where
  pub started : List Part
  pub stopped : List Part
  pub deferred : List Part
  pub exit_code : Option ℕ

abbrev pub Command : Type 0
Command = Process → Process

abbrev pub after_exit : Process → Option ℕ → Process → Process
after_exit p none q = q
after_exit p (some code) q = p

infixl 5 ◌>>◌
-- Nothing is done after `os.Exit`.
abbrev pub ◌>>◌ : Command → Command → Command
(first >> next) p = let q = first p in after_exit q q.exit_code (next q)

-- `os.Exit`, which `log.Fatalf` calls with 1, does not run what is deferred.
unfoldable pub os_exit : ℕ → Command
os_exit code p = record p { exit_code = some code }

-- A part is started, or the process ends with `log.Fatalf`; then its stop is deferred.
unfoldable pub start_or_die : (Part → Bool) → Part → Command
unfolding os_exit
start_or_die starts part p =
    if starts part
    then record p { started = p.started ++ part ∷ []; deferred = part ∷ p.deferred }
    else os_exit 1 p

-- The controller's start logs an error and returns, and its stop is deferred in any case.
unfoldable pub start_anyway : (Part → Bool) → Part → Command
start_anyway starts part p = record p {
  started = if starts part then p.started ++ part ∷ [] else p.started;
  deferred = part ∷ p.deferred;
}

-- The deferred calls of a function that returns.
unfoldable pub returns : Process → Process
returns p = record p { stopped = p.stopped ++ p.deferred; deferred = [] }

-- What `serviceInitNChecks` asks for, with the value of NODE_NAME.
pub record Checks : Type 0 where
  pub removes_memlock : Bool
  pub reaches_kubernetes : Bool
  pub node_name : String

unfoldable pub service_init_n_checks : Checks → Command
unfolding os_exit
service_init_n_checks c p =
    if c.removes_memlock && (c.reaches_kubernetes && not (c.node_name == ""))
    then p
    else os_exit 1 p

-- `main`, from a start to a signal: the event sink's constructor and its start count as one.
unfoldable pub main : Checks → (Part → Bool) → Process → Process
unfolding service_init_n_checks start_or_die start_anyway os_exit
main c starts = do
  service_init_n_checks c
  start_or_die starts event_sink
  start_or_die starts collector_manager
  start_or_die starts service_tracer
  start_anyway starts app_profile_controller
  os_exit 0

-- The whole process: `main`, and its deferred calls if it returns.
unfoldable pub process : Checks → (Part → Bool) → Process
unfolding main returns
process c starts =
    let p =
      main c starts (record { started = []; stopped = []; deferred = []; exit_code = none }) in
    after_exit p p.exit_code (returns p)

abbrev checks_pass : Checks → Bool
checks_pass c = c.removes_memlock && (c.reaches_kubernetes && not (c.node_name == ""))

-- The parts before the first one that does not start.
unfoldable pub parts_before_failure : (Part → Bool) → List Part → List Part
parts_before_failure starts [] = []
parts_before_failure starts (part ∷ parts) =
    let rest = parts_before_failure starts parts in if starts part then part ∷ rest else []

-- The parts that the process does not go on without.
abbrev needed : List Part
needed = event_sink ∷ collector_manager ∷ service_tracer ∷ []

abbrev pub reached : Checks → (Part → Bool) → List Part
reached c starts = if checks_pass c then parts_before_failure starts needed else []

abbrev pub has_needed : Checks → (Part → Bool) → Bool
has_needed c starts = eqb (length (reached c starts)) 3

abbrev pub controller_if : Bool → List Part
controller_if b = if b then app_profile_controller ∷ [] else []
