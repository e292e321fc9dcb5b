-- ===== src/Tracing/Detected.antt =====
-- What is known of the container runtime that `DetectContainerRuntime` and
-- `setupContainerCollection` choose, whatever the order in which Go ranges over the map.
use mathlib.Core.List.{Perm}
use mathlib.Core.List.Perm
use mathlib.Core.List.{Mem}
use kapprofiler.Base.{
  ◌∷◌, String, ◌==◌, string_comparable, any, Option, none, some, true, false, List, ◌≡◌, ◌∷◌, ◌⊎◌,
  not,
}
use kapprofiler.Tracing.Runtime.{
  FileInfo, RuntimeConfig, on_host, is_available, CollectionOption, Environment, base_options,
  enriched, from_environment,
}

-- What a detection may answer for some runtimes: one of them, at its place on the host, where a
-- socket is; and no runtime only if there is no socket at any of the places.
abbrev pub Detected :
    (String → FileInfo) → String → List RuntimeConfig → Option RuntimeConfig → Type 0
Detected stat mount rs none = any (λ r. is_available stat (on_host mount r)) rs ≡ false
Detected stat mount rs (some c) =
    (r : RuntimeConfig) × (Mem r rs
      × ((c ≡ on_host mount r) × (is_available stat (on_host mount r) ≡ true)))

-- The runtime that an environment asks for: the one that it names, or one that is detected.
abbrev pub Chosen :
    (String → FileInfo) → Environment → List RuntimeConfig → Option RuntimeConfig → Type 0
Chosen stat e rs c =
    ((e.container_runtime_name == "") ≡ false)
      × (((e.container_runtime_socket == "") ≡ false) × (c ≡ some (from_environment e)))
    ⊎ ((e.container_runtime_name == "") ≡ true)
      × (((e.container_runtime_socket == "") ≡ true) × Detected stat e.host_root rs c)

-- What the options may be.
abbrev pub Enriches :
    (String → FileInfo)
    → Environment
    → List RuntimeConfig
    → String
    → Option (List CollectionOption)
    → Type 0
Enriches stat e rs node_name none =
    (e.container_runtime_name == "") ≡ not (e.container_runtime_socket == "")
Enriches stat e rs node_name (some opts) =
    (c : Option RuntimeConfig) × ((opts ≡ enriched (base_options node_name) c) × Chosen stat e rs c)
