-- ===== src/Tracing/Runtime.antt =====
-- Finding the container runtime: pkg/tracing/container.go, and the choice of the options of the
-- container collection in `setupContainerCollection` of pkg/tracing/tracing.go. What `os.Stat` and
-- the environment answer are arguments, and so are the runtimes that the library knows.
use Prim.Native.String.{String, ◌++◌}
use mathlib.Core.List as List
use mathlib.Core.Option as Option
use kapprofiler.Base.{
  List, [], ◌∷◌, ℕ, ◌==◌, string_comparable, eqb, ◌/◌, ◌%◌, ◌*◌, or_else, Option, Bool, none, false,
  some, if◌then◌else◌, not, ◌&&◌, ◌||◌,
}

-- What `os.Stat` answers: an error, or the mode where the file has a `Stat_t`.
pub data FileInfo : Type 0 where
  failed : FileInfo
  not_unix : FileInfo
  stat_of : ℕ → FileInfo

-- `stat.Mode & syscall.S_IFMT`, whose mask is the four bits from bit 12 on.
abbrev pub file_type : ℕ → ℕ
file_type mode = mode / 4096 % 16 * 4096

abbrev pub s_ifsock : ℕ
s_ifsock = 49152

-- The answer, and no answer for an error.
unfoldable pub is_unix_socket : (String → FileInfo) → String → Option Bool
is_unix_socket stat path = elim (stat path) [
  | failed ↦ none
  | not_unix ↦ none
  | stat_of mode ↦ some (eqb (file_type mode) s_ifsock)
]

-- A runtime with the path of its socket.
pub record RuntimeConfig : Type 0 where
  pub name : String
  pub socket_path : String

-- The runtimes of the client library with their default paths.
pub record Defaults : Type 0 where
  pub docker : RuntimeConfig
  pub crio : RuntimeConfig
  pub containerd : RuntimeConfig
  pub podman : RuntimeConfig

-- The entries of the map `runtimes`, which Go ranges over in some order.
abbrev pub runtimes : Defaults → List RuntimeConfig
runtimes d = d.docker ∷ d.crio ∷ d.containerd ∷ d.podman ∷ []

abbrev pub on_host : String → RuntimeConfig → RuntimeConfig
on_host mount r = record { name = r.name; socket_path = mount ++ r.socket_path }

-- `isSocket, err := isUnixSocket(socketPath); err == nil && isSocket`
abbrev pub is_available : (String → FileInfo) → RuntimeConfig → Bool
is_available stat r = or_else false (is_unix_socket stat r.socket_path)

-- The loop, over the entries in the order of the range.
unfoldable pub detect_container_runtime :
    (String → FileInfo) → String → List RuntimeConfig → Option RuntimeConfig
detect_container_runtime stat mount [] = none
detect_container_runtime stat mount (r ∷ rs) =
    let rest = detect_container_runtime stat mount rs in
    if is_available stat (on_host mount r) then some (on_host mount r) else rest

-- The variables of the environment that are read.
pub record Environment : Type 0 where
  pub container_runtime_name : String
  pub container_runtime_socket : String
  pub host_root : String

pub data CollectionOption : Type 0 where
  with_runc_fanotify : CollectionOption
  with_cgroup_enrichment : CollectionOption
  with_linux_namespace_enrichment : CollectionOption
  with_kubernetes_enrichment : String → CollectionOption
  with_pub_sub : CollectionOption
  with_container_runtime_enrichment : RuntimeConfig → CollectionOption

abbrev pub base_options : String → List CollectionOption
base_options node_name =
    with_runc_fanotify
    ∷ with_cgroup_enrichment
    ∷ with_linux_namespace_enrichment
    ∷ with_kubernetes_enrichment node_name
    ∷ with_pub_sub
    ∷ []

-- `append(opts, ...)` where there is a runtime.
abbrev pub enriched : List CollectionOption → Option RuntimeConfig → List CollectionOption
enriched opts none = opts
enriched opts (some r) = List.◌++◌ opts (with_container_runtime_enrichment r ∷ [])

abbrev pub from_environment : Environment → RuntimeConfig
from_environment e = record {
  name = e.container_runtime_name;
  socket_path = e.container_runtime_socket;
}

-- The options that the collection is initialized with, and none for the error when one of the two
-- variables is set only.
unfoldable pub collection_options :
    (String → FileInfo) → Environment → List RuntimeConfig → String → Option (List CollectionOption)
unfolding detect_container_runtime
collection_options stat e order node_name =
    let opts = base_options node_name in
    if not (e.container_runtime_name == "") && not (e.container_runtime_socket == "")
    then some (enriched opts (some (from_environment e)))
    else if not (e.container_runtime_name == "") || not (e.container_runtime_socket == "")
    then none
    else some (enriched opts (detect_container_runtime stat e.host_root order))

-- Whether `setupContainerCollection` succeeds, with the answer of `Initialize`.
unfoldable pub sets_up :
    (List CollectionOption → Bool)
    → (String → FileInfo)
    → Environment
    → List RuntimeConfig
    → String
    → Bool
unfolding collection_options
sets_up initialize stat e order node_name =
    or_else false (Option.map initialize (collection_options stat e order node_name))
