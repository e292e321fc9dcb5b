-- ===== src/Lib.antt =====
-- A verification library for kapprofiler, which records what the containers of a Kubernetes node
-- do (executions, opened files, network connections, DNS requests, capabilities, system calls) and
-- writes application profiles from it.
--
-- The eBPF program pkg/ebpf/gadgets/randomx/tracer/bpf/randomx.bpf.c looks at the FPU state of a
-- task that leaves the CPU and hands an event to the tracer,
-- pkg/ebpf/gadgets/randomx/tracer/tracer.go, which counts the events of each mount namespace and
-- raises an alert. The event sink, pkg/eventsink/es.go, keeps the events of the containers that
-- the collector asks for, in maps of pkg/inmemorymapdb/in-memory-map-db.go. The collector,
-- pkg/collector, makes a profile for each pod of them, and the controller, pkg/controller, merges
-- the profiles of the pods of a workload.
--
-- Layout models how C lays out types, Layout.Within has lemmas on the places of members, and
-- Vmlinux holds the types of pkg/ebpf/include/amd64/vmlinux.h that the program reads, with all
-- that they embed and the records that a task points to (credentials, namespaces, signals, memory,
-- files, mounts, cgroups, perf events), member by member; a pointer keeps the C text of its
-- target. Bpf is the program: Bpf.Kernel has the memory and the helpers' results as parameters,
-- Bpf.Filter is pkg/ebpf/include/mntns_filter.h and mntns.h, Bpf.Buffer is
-- pkg/ebpf/include/buffer.h, Bpf.Program is the tracepoint itself, Bpf.Event is the event record
-- on both sides, Bpf.Raw has the reads as offsets and the bits of the mask, and Bpf.Access has
-- lemmas on the steps of BPF_CORE_READ. The offsets of BPF_CORE_READ are computed from the
-- layouts, so the running kernel is the one of vmlinux.h.
--
-- Randomx is `Tracer.run` of tracer.go: Randomx.Defs.run reads a list of what the perf reader
-- returns, and Randomx.Defs.handle_sample is the body of the loop for an event. The functions of
-- inspektor-gadget that it calls are the fields of a record.
--
-- MapDb is `InMemoryMapDB`: each method is one function, since it holds the lock throughout.
-- Tracing.Events has the events of pkg/tracing/events.go, Tracing.Defs has `StartTraceContainer`
-- and `StopTraceContainer` of pkg/tracing/tracing.go with `ebpf.Map.Put` as a parameter, on a map
-- that holds a given number of keys at most and whose errors change nothing; Tracing.Counts,
-- Tracing.Kept, Tracing.Kinds and Tracing.Traces have what is proved of them, and
-- Tracing.Listeners is the lists of listeners and sinks and `containerEventHandler`.
-- Tracing.Gadgets is `Start` and `Stop` with the functions of pkg/tracing/ig.go that start and
-- stop the gadgets: a step keeps what it did before an error, what the constructors of the gadgets
-- answer is an argument, and the tracers that run are counted. Tracing.Starts and Tracing.Loop
-- read it as loops over the kinds, Tracing.Leaks runs histories of it and Tracing.Balance has the
-- proof; Tracing.Silent puts the tracer and the BPF program together. Tracing.Runtime is
-- pkg/tracing/container.go and the choice of options in `setupContainerCollection`, whose answer
-- is the `collection` of a start's outcomes, and Tracing.Peek is `PeekSyscallInContainer`.
-- Tracing.Callbacks has the callbacks of the gadgets, given what they read of an event, and
-- EventSink.Arrival follows an open event from its callback to the collector. EventSink is es.go
-- from `Start` on: EventSink.Pipe is the channel, the worker and the map of one kind of events,
-- and EventSink.Defs has the methods for the five kinds. A call that waits on a full or empty
-- channel is `blocked`, one that panics `panicked`. EventSink.Worker is the loop of a worker as a
-- whole.
--
-- Collector is pkg/collector: Collector.Calls has the records of types.go and the tests for events
-- that are known, Collector.Build the part of `CollectContainerEvents` of collector.go that makes
-- a profile of events, and Collector.Merge is `mergeApplicationProfiles`, which is given the
-- mounts of the pod. Collector.Equals has the `Equals` methods of types.go, Collector.Names the
-- names of profiles, and Collector.Exists `doesApplicationProfileExists` and
-- `FinalizeApplicationProfile`. Collector.Execs, Collector.Capabilities, Collector.Opens,
-- Collector.Merged, Collector.Network, Collector.Again, Collector.Lost and Collector.Dns have the
-- proofs.
--
-- Manager is the `CollectorManager` of collector.go: Manager.Defs has `ContainerStarted`,
-- `ContainerStopped` and `OnContainerActivityEvent`, and Manager.Collect is
-- `CollectContainerEvents`. What they ask of the tracer, of timers and of the API server is a list
-- of effects, and what the API server answers is an argument; the name of a profile is left out.
--
-- Kubernetes is what the API server stores and answers, a record of functions with `none` for an
-- error. Controller is pkg/controller/controller.go: Controller.Defs.handle_application_profile is
-- the handler, with its requests as a list; Controller.Merge is its merging of containers, where
-- the order in which Go ranges over the map is a parameter. Controller.Facts says what a profile
-- records, and Controller.Union, Controller.Once, Controller.Requests, Controller.Names,
-- Controller.Owners and Controller.Agreement have the proofs. The functions of package strings are
-- in Base.Strings, for ASCII text.
--
-- Main is main.go, as commands that end with `os.Exit`.
--
-- Finalizer is pkg/collector/pod_finalizer.go: Finalizer.Defs has the table of the pods and the
-- handlers, with the timers that run as a list and `rand.Intn` as a parameter; Finalizer.Timers
-- and Finalizer.Handlers have the lemmas, and Finalizer.History runs histories of events.
--
-- Watcher is `Start` of pkg/watcher/watcher.go: Watcher.Defs.watch reads a list of what the result
-- channel gives, with `strconv.ParseInt` as a parameter, with Watcher.Versions for the proofs, and
-- Watcher.Listing is the listing before it. Watcher.Stops is `Stop` beside the goroutine of
-- `Start`, as moves of a schedule, where the restart after a closed channel is one move;
-- Watcher.Stopped has the proofs.
--
-- Only EventSink.Worker.event_worker takes fuel, one for each round, and more rounds than events
-- that wait are enough. Loops over collections are structural recursion, and the endless loops of
-- the tracer and of the workers are modelled by their rounds, over a list of inputs or as a step
-- relation. Numbers of fixed width keep their wrap-around written out. Go slices are lists, maps
-- are association lists, and strings are native strings.
--
-- Not modelled: loading and attaching of eBPF programs, the clients of Kubernetes and of the
-- container runtimes, logging, and the capacity of slices.
mod Base
pub mod Layout
pub mod Vmlinux
pub mod Bpf
pub mod Randomx
pub mod MapDb
pub mod Tracing
pub mod EventSink
pub mod Collector
pub mod Finalizer
pub mod Manager
pub mod Watcher
pub mod Kubernetes
pub mod Controller
pub mod Main
mod Tests
