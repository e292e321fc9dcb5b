-- ===== src/Tests/Collector.antt =====
-- A container that runs a shell, asks for capabilities and opens files.
use kapprofiler.Base.{
  every, ◌+◌, ◌≡◌, ◌≤◌, refl, true, false, List, [], ◌∷◌, String, string_comparable, ◌==◌,
  if◌then◌else◌, min, length, one_if, any,
}
use kapprofiler.Tracing.Events.{DnsEvent, ExecveEvent, OpenEvent, CapabilitiesEvent}
use kapprofiler.Collector.Calls.{CapabilitiesCalls, ContainerProfile, OpenConfig, max_open_events}
use kapprofiler.Collector.Build.{add_dns, add_execs, add_capabilities, add_opens}
use kapprofiler.Collector.Merge.{
  no_general_event, merge_container, merge_entries, merge_entry, has_entry,
}
use kapprofiler.Collector.Execs
use kapprofiler.Collector.Execs.{recorded, seen}
use kapprofiler.Collector.Capabilities
use kapprofiler.Collector.Capabilities.{entries, times_under, uses_syscall, uses_capability}
use kapprofiler.Collector.Opens
use kapprofiler.Collector.Opens.{is_settled}
use kapprofiler.Collector.Again
use kapprofiler.Collector.Lost
use kapprofiler.Collector.Dns
use kapprofiler.Collector.Dns.{addresses_of, first_answer}
use kapprofiler.Collector.Lost.{names_of, last_missing, with_last}

abbrev exec : String → ExecveEvent
exec path = record {
  general_event = no_general_event;
  path_name = path;
  upper_layer = false;
  args = "-c" ∷ [];
  env = [];
}

abbrev execs : List ExecveEvent
execs = exec "/bin/sh" ∷ exec "" ∷ exec "/bin/sh" ∷ exec "" ∷ []

add_execs-recorded_example : recorded (exec "/bin/sh") (add_execs [] execs) ≡ (
    if (exec "/bin/sh").path_name == ""
    then seen (exec "/bin/sh") execs
    else min 1 (seen (exec "/bin/sh") execs))
add_execs-recorded_example = Execs.add_execs-recorded (exec "/bin/sh") execs

abbrev cap : String → String → CapabilitiesEvent
cap syscall name = record {
  general_event = no_general_event;
  syscall = syscall;
  capability_name = name;
}

abbrev caps : List CapabilitiesEvent
caps = cap "mount" "SYS_ADMIN" ∷ cap "chown" "CHOWN" ∷ cap "mount" "SYS_ADMIN" ∷ []

add_capabilities-once_example :
    (entries "mount" (add_capabilities [] caps) ≡ one_if (uses_syscall "mount" caps) 0)
    × (times_under "mount" "SYS_ADMIN" (add_capabilities [] caps)
        ≡ one_if (uses_capability "mount" "SYS_ADMIN" caps) 0)
add_capabilities-once_example = Capabilities.add_capabilities-once "mount" "SYS_ADMIN" caps

abbrev opened : String → List String → OpenEvent
opened path flags = record {
  general_event = no_general_event;
  task_name = "sh";
  task_id = 1;
  path_name = path;
  flags = flags;
}

abbrev opens : List OpenEvent
opens = opened "/etc/passwd" ("O_RDONLY" ∷ []) ∷ opened "/proc/1" [] ∷ opened "/etc/passwd" [] ∷ []

abbrev no_proc : OpenConfig
no_proc = record { ignore_mounts = true; ignore_prefixes = "/proc" ∷ [] }

add_opens-settles_example :
    (every (is_settled no_proc ("/data" ∷ []) (add_opens no_proc ("/data" ∷ []) [] opens)) opens
      ≡ true)
    × (length (add_opens no_proc ("/data" ∷ []) [] opens) ≤ max_open_events + 1)
add_opens-settles_example = Opens.add_opens-settles no_proc ("/data" ∷ []) opens

abbrev profile : List CapabilitiesCalls → ContainerProfile
profile capabilities = record {
  name = "web";
  execs = add_execs [] execs;
  opens = add_opens no_proc [] [] opens;
  network_activity = record { incoming = []; outgoing = [] };
  capabilities = capabilities;
  dns = [];
  sys_calls = "read" ∷ "write" ∷ [];
}

abbrev few : List CapabilitiesCalls
few = record { capabilities = "CHOWN" ∷ []; syscall = "chown" } ∷ []

abbrev many : CapabilitiesCalls
many = record { capabilities = "FOWNER" ∷ "FSETID" ∷ []; syscall = "chown" }

merge_container-again_example :
    merge_container no_proc []
      (merge_container no_proc [] (profile few) (profile (many ∷ [])))
      (profile (many ∷ []))
    ≡ record (merge_container no_proc [] (profile few) (profile (many ∷ []))) {
      capabilities =
          merge_entries
            (merge_container no_proc [] (profile few) (profile (many ∷ []))).capabilities
            []
            (many ∷ []);
    }
merge_container-again_example =
    Again.merge_container-again no_proc [] (profile few) (profile (many ∷ []))

merge_entry-last_missing_example : names_of "chown" (merge_entry few many) ≡ (
    if many.syscall == "chown"
    then with_last (names_of "chown" few) (last_missing (names_of "chown" few) many.capabilities)
    else names_of "chown" few)
unfolding has_entry any
merge_entry-last_missing_example = Lost.merge_entry-last_missing "chown" few many refl

abbrev answer : String → DnsEvent
answer address = record {
  general_event = no_general_event;
  dns_name = "example.com";
  addresses = address ∷ [];
}

add_dns-first_answer_example :
    addresses_of "example.com" (add_dns [] (answer "192.0.2.1" ∷ answer "192.0.2.2" ∷ []))
    ≡ first_answer "example.com" (answer "192.0.2.1" ∷ answer "192.0.2.2" ∷ [])
add_dns-first_answer_example =
    Dns.add_dns-first_answer "example.com" (answer "192.0.2.1" ∷ answer "192.0.2.2" ∷ [])
