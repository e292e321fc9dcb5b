-- ===== src/Tests/Randomx.antt =====
-- Bursts of events.
use kapprofiler.Base.{ℕ, zero, suc, ◌+◌, ◌*◌, ◌≤◌, ◌≡◌, none, List, [], ◌∷◌, lookup, nat_comparable}
use kapprofiler.Bpf.Event.{RandomxEvent}
use kapprofiler.Randomx.Defs.{
  Gadgets, normal, filter_put_zero, handle_sample, alert_of, run, sample, closed,
}
use kapprofiler.Randomx.Burst
use kapprofiler.Randomx.Burst.{after, detected, times, burst, Agrees}
use kapprofiler.Randomx.Loop
use kapprofiler.Randomx.Loop.{alerts, mark}

abbrev gadgets : Gadgets
gadgets = record {
  wall_time_from_boot_time = λ t. t + 1000;
  from_c_string = λ bytes. "xmrig";
  enrich_by_mnt_ns = none;
}

abbrev event_at : ℕ → RandomxEvent
event_at t = record {
  timestamp = t;
  mntns_id = 7;
  pid = 300;
  ppid = 1;
  uid = 0;
  gid = 0;
  comm = 120 ∷ 0 ∷ [];
}

-- `n` events, a second apart, the newest first.
abbrev seconds : ℕ → List RandomxEvent
seconds zero = []
seconds (suc n) = event_at (n * 1_000_000_000) ∷ seconds n

handle_sample-alert_example :
    (handle_sample gadgets (after gadgets (seconds 50)) (event_at 50_000_000_000)).1
    ≡ normal (alert_of gadgets (event_at 50_000_000_000)) ∷ filter_put_zero 7 ∷ []
unfolding detected times
handle_sample-alert_example =
    Burst.handle_sample-alert gadgets (seconds 50) (event_at 50_000_000_000)

alerts-run_example :
    alerts 7 (run gadgets [] (sample (event_at 5) ∷ closed ∷ [])).1 + mark (lookup {K = ℕ} 7 []) ≤ 1
alerts-run_example = Loop.alerts-run gadgets [] (sample (event_at 5) ∷ closed ∷ []) 7
