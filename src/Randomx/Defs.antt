-- ===== src/Randomx/Defs.antt =====
-- The state of the tracer and the body of `Tracer.run`. The inspektor-gadget functions that the
-- loop calls are the fields of `Gadgets`.
use kapprofiler.Base.{
  ℕ, ◌+◌, ◌-◌, ◌*◌, ◌%◌, ◌^◌, Bool, true, false, not, ◌&&◌, String, Option, none, some, List, [],
  ◌∷◌, ◌++◌, ltb, lookup, insert, nat_comparable, if◌then◌else◌,
}
use kapprofiler.Bpf.Event.{RandomxEvent}

abbrev pub target_randomx_events_count : ℕ
target_randomx_events_count = 50

abbrev pub max_seconds_between_events : ℕ
max_seconds_between_events = 5

pub record RandomxEventCache : Type 0 where
  pub timestamp : ℕ
  pub events_count : ℕ
  pub alerted : Bool

-- What an enricher adds to an event.
pub record CommonData : Type 0 where
  pub namespace : String
  pub pod_name : String
  pub container_name : String
  pub container_id : String

-- `gadgets.WallTimeFromBootTime`, `gadgets.FromCString` and the tracer's enricher, if it has one.
pub record Gadgets : Type 0 where
  pub wall_time_from_boot_time : ℕ → ℕ
  pub from_c_string : List ℕ → String
  pub enrich_by_mnt_ns : Option (CommonData → ℕ → CommonData)

-- `types.Event` of an alert.
pub record Alert : Type 0 where
  pub common_data : CommonData
  pub timestamp : ℕ
  pub mount_ns_id : ℕ
  pub pid : ℕ
  pub ppid : ℕ
  pub uid : ℕ
  pub gid : ℕ
  pub comm : String

-- What `reader.Read()` returns: an error that the reader is closed, another error, a record that
-- tells of lost samples, a record with an event.
pub data Read : Type 0 where
  closed : Read
  failed : String → Read
  lost : ℕ → Read
  sample : RandomxEvent → Read

-- The calls that the loop makes: `eventCallback` with an event, a warning or an error, and a `Put`
-- of 0 on the filter map.
pub data Output : Type 0 where
  normal : Alert → Output
  warn : ℕ → Output
  err : String → Output
  filter_put_zero : ℕ → Output

abbrev pub Counts : Type 0
Counts = List (ℕ × RandomxEventCache)

-- A `uint64` difference.
unfoldable pub elapsed : ℕ → ℕ → ℕ
elapsed a b = (a + 2 ^ 64 - b) % 2 ^ 64

-- The entry of a mount namespace after an event, or `none` where the loop goes on to the next
-- record because an alert was raised before.
unfoldable pub count_event : Option RandomxEventCache → ℕ → Option RandomxEventCache
unfolding elapsed
count_event none t = some (record { timestamp = t; events_count = 1; alerted = false })
count_event (some c) t =
    if not c.alerted
    then (if ltb (max_seconds_between_events * 1_000_000_000) (elapsed t c.timestamp)
        then some (record { timestamp = t; events_count = 1; alerted = false })
        else some (record {
          timestamp = t;
          events_count = (c.events_count + 1) % 2 ^ 64;
          alerted = false;
        }))
    else none

abbrev no_data : CommonData
no_data = record { namespace = ""; pod_name = ""; container_name = ""; container_id = "" }

abbrev enrich : Option (CommonData → ℕ → CommonData) → ℕ → CommonData
enrich none m = no_data
enrich (some f) m = f no_data m

unfoldable pub alert_of : Gadgets → RandomxEvent → Alert
alert_of g e = record {
  common_data = enrich g.enrich_by_mnt_ns e.mntns_id;
  timestamp = g.wall_time_from_boot_time e.timestamp;
  mount_ns_id = e.mntns_id;
  pid = e.pid;
  ppid = e.ppid;
  uid = e.uid;
  gid = e.gid;
  comm = g.from_c_string e.comm;
}

-- The last part of the loop's body, on the entry that the first part has stored.
unfoldable pub check_count :
    Gadgets → Counts → RandomxEvent → RandomxEventCache → Counts × List Output
unfolding insert alert_of
check_count g counts e c =
    if ltb target_randomx_events_count c.events_count && not c.alerted
    then (
      insert e.mntns_id
          (record { timestamp = e.timestamp; events_count = c.events_count; alerted = true })
          counts,
      normal (alert_of g e) ∷ filter_put_zero e.mntns_id ∷ [],
    )
    else (counts, [])

unfoldable pub handle_sample : Gadgets → Counts → RandomxEvent → Counts × List Output
unfolding lookup insert check_count
handle_sample g counts e = elim (count_event (lookup e.mntns_id counts) e.timestamp) [
  | none ↦ (counts, [])
  | some c ↦ check_count g (insert e.mntns_id c counts) e c
]

-- The loop over what the reader returns, until it returns an error.
unfoldable pub run : Gadgets → Counts → List Read → Counts × List Output
unfolding handle_sample
run g counts [] = (counts, [])
run g counts (closed ∷ rs) = (counts, [])
run g counts (failed msg ∷ rs) = (counts, err msg ∷ [])
run g counts (lost n ∷ rs) = let (counts', out) = run g counts rs in (counts', warn n ∷ out)
run g counts (sample e ∷ rs) =
    let (counts', out) = handle_sample g counts e in
    let (counts'', out') = run g counts' rs in (counts'', out ++ out')
