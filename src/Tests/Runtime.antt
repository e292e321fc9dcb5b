-- ===== src/Tests/Runtime.antt =====
-- A host with the sockets of Docker and containerd.
use mathlib.Core.List.{Perm}
use mathlib.Core.List.Perm
use kapprofiler.Base.{
  ◌≡◌, refl, String, none, some, List, [], ◌∷◌, ◌==◌, if◌then◌else◌, string_comparable, ◌||◌,
}
use kapprofiler.Tracing.Runtime.{
  FileInfo, stat_of, failed, RuntimeConfig, Defaults, Environment, runtimes, collection_options,
  detect_container_runtime, is_unix_socket,
}
use kapprofiler.Tracing.Detected

abbrev runtime : String → String → RuntimeConfig
runtime name path = record { name = name; socket_path = path }

abbrev defaults : Defaults
defaults = record {
  docker = runtime "docker" "/run/docker.sock";
  crio = runtime "cri-o" "/run/crio/crio.sock";
  containerd = runtime "containerd" "/run/containerd/containerd.sock";
  podman = runtime "podman" "/run/podman/podman.sock";
}

-- Modes of a socket and of a plain file.
abbrev stat : String → FileInfo
stat path =
    if path == "/host/run/docker.sock" || path == "/host/run/containerd/containerd.sock"
    then stat_of 49590
    else if path == "/host/run/crio/crio.sock"
    then stat_of 33188
    else failed

abbrev environment : Environment
environment = record {
  container_runtime_name = "";
  container_runtime_socket = "";
  host_root = "/host";
}

-- Another order of the range.
abbrev containerd_first : List RuntimeConfig
containerd_first = defaults.containerd ∷ defaults.docker ∷ defaults.crio ∷ defaults.podman ∷ []

-- The two orders find two runtimes.
detect_forwards :
    detect_container_runtime stat "/host" (runtimes defaults)
    ≡ some (runtime "docker" "/host/run/docker.sock")
unfolding detect_container_runtime is_unix_socket
detect_forwards = refl

detect_containerd_first :
    detect_container_runtime stat "/host" containerd_first
    ≡ some (runtime "containerd" "/host/run/containerd/containerd.sock")
unfolding detect_container_runtime is_unix_socket
detect_containerd_first = refl

-- The name without the socket is an error.
name_alone :
    collection_options stat
      (record environment { container_runtime_name = "docker" })
      containerd_first
      "node"
    ≡ none
unfolding collection_options
name_alone = refl
