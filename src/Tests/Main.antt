-- ===== src/Tests/Main.antt =====
-- A process whose tracer does not start.
use kapprofiler.Base.{refl, ◌≡◌, true, false, Bool, some, string_comparable}
use kapprofiler.Main
use kapprofiler.Main.{
  app_profile_controller, main, service_init_n_checks, start_or_die, start_anyway, os_exit, returns,
  Part, service_tracer, Checks, process,
}

abbrev checks : Checks
checks = record { removes_memlock = true; reaches_kubernetes = true; node_name = "node-1" }

abbrev no_tracer : Part → Bool
no_tracer service_tracer = false
no_tracer part = true

-- The controller fails, and the process ends as if all went well.
abbrev no_controller : Part → Bool
no_controller app_profile_controller = false
no_controller part = true

controller_fails : (process checks no_controller).exit_code ≡ some 0
unfolding process main service_init_n_checks start_or_die start_anyway os_exit returns
controller_fails = refl
