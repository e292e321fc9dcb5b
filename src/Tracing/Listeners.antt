-- ===== src/Tracing/Listeners.antt =====
-- The event sinks and the container activity listeners of the tracer, and the notifications that
-- `containerEventHandler` of pkg/tracing/tracing.go sends to them. An interface value of Go is a
-- value of a type that can be compared.
use kapprofiler.Base.{
  ℕ, ◌+◌, ◌-◌, ◌≡◌, refl, Bool, not, List, [], ◌∷◌, ◌++◌, Comparable, ◌==◌, String, if◌then◌else◌,
  arith,
}

-- `append` of one element: `AddEventSink` and `AddContainerActivityListener`.
unfoldable pub add_listener {ℓ} : {L : Type ℓ} → L → List L → List L
add_listener l ls = ls ++ l ∷ []

-- The first equal element is cut out: `RemoveEventSink` and `RemoveContainerActivityListener`.
unfoldable pub remove_listener {ℓ} : {L : Type ℓ} → ⦃c : Comparable L⦄ → L → List L → List L
remove_listener l [] = []
remove_listener l (x ∷ xs) = let rest = remove_listener l xs in if x == l then xs else x ∷ rest

-- What the container collection notifies of: the two types that the handler tests for, or another.
pub data PubSubType : Type 0 where
  add_container : PubSubType
  remove_container : PubSubType
  another_event : PubSubType

pub record Container : Type 0 where
  pub pod_name : String
  pub namespace : String
  pub container_name : String
  pub mntns : ℕ
  pub container_id : String
  pub pid : ℕ

pub record ContainerActivityEvent : Type 0 where
  pub container_name : String
  pub pod_name : String
  pub namespace : String
  pub activity : String
  pub container_id : String
  pub ns_mnt_id : ℕ
  pub pid : ℕ

abbrev pub activity_of : PubSubType → String
activity_of add_container = "start"
activity_of remove_container = "stop"
activity_of another_event = ""

unfoldable pub activity_event : String → Container → ContainerActivityEvent
activity_event activity c = record {
  container_name = c.container_name;
  pod_name = c.pod_name;
  namespace = c.namespace;
  activity = activity;
  container_id = c.container_id;
  ns_mnt_id = c.mntns;
  pid = c.pid;
}

-- The calls of `OnContainerActivityEvent` of one event, in order.
unfoldable pub notify {ℓ} :
    {L : Type ℓ} → List L → ContainerActivityEvent → List (L × ContainerActivityEvent)
notify [] e = []
notify (l ∷ ls) e = (l, e) ∷ notify ls e

-- `containerEventHandler`
unfoldable pub container_event_handler {ℓ} :
    {L : Type ℓ} → Bool → List L → PubSubType → Container → List (L × ContainerActivityEvent)
unfolding notify activity_event
container_event_handler running ls kind c =
    if not running then [] else notify ls (activity_event (activity_of kind) c)

-- The calls that `GenerateContainerEventsOnStart` makes for the running containers.
unfoldable pub generate_container_events_on_start {ℓ} :
    {L : Type ℓ} → List L → List Container → List (L × ContainerActivityEvent)
unfolding notify activity_event
generate_container_events_on_start ls [] = []
generate_container_events_on_start ls (c ∷ cs) =
    notify ls (activity_event "attached" c) ++ generate_container_events_on_start ls cs

-- A registration of a listener or its removal.
pub data Registration {ℓ} (L : Type ℓ) : Type ℓ where
  adds : L → Registration L
  removes : L → Registration L

module _ {ℓ} {L : Type ℓ} ⦃comparable : Comparable L⦄ where
  -- The listeners after a history of registrations, the newest first.
  unfoldable pub listeners : List (Registration L) → List L
  unfolding add_listener remove_listener
  listeners [] = []
  listeners (adds l ∷ h) = add_listener l (listeners h)
  listeners (removes l ∷ h) = remove_listener l (listeners h)

  -- How many registrations of a listener no removal has undone.
  unfoldable pub registered : L → List (Registration L) → ℕ
  registered l [] = 0
  registered l (adds x ∷ h) = if x == l then registered l h + 1 else registered l h
  registered l (removes x ∷ h) = if x == l then registered l h - 1 else registered l h

  unfoldable pub occurrences : L → List L → ℕ
  occurrences l [] = 0
  occurrences l (x ∷ xs) = if x == l then occurrences l xs + 1 else occurrences l xs

  -- How many of some calls are calls of a listener.
  unfoldable pub calls_of : L → List (L × ContainerActivityEvent) → ℕ
  calls_of l [] = 0
  calls_of l (call ∷ calls) = if call.0 == l then calls_of l calls + 1 else calls_of l calls

  occurrences-add_listener :
      (l x : L) (xs : List L)
      → occurrences l (add_listener x xs)
        ≡ (if x == l then occurrences l xs + 1 else occurrences l xs)
  unfolding occurrences add_listener
  occurrences-add_listener l x [] = refl
  occurrences-add_listener l x (y ∷ ys) = ground (arith, occurrences-add_listener l x ys)

  occurrences-remove_listener :
      (l x : L) (xs : List L)
      → occurrences l (remove_listener x xs)
        ≡ (if x == l then occurrences l xs - 1 else occurrences l xs)
  unfolding occurrences remove_listener
  occurrences-remove_listener l x [] = ground arith
  occurrences-remove_listener l x (y ∷ ys) = ground (
    arith,
    occurrences-remove_listener l x ys,
    comparable.equal_iff y x,
    comparable.equal_iff x l,
    comparable.equal_iff y l,
  )

  occurrences-listeners :
      (l : L) (h : List (Registration L)) → occurrences l (listeners h) ≡ registered l h
  unfolding listeners registered occurrences
  occurrences-listeners l [] = refl
  occurrences-listeners l (adds x ∷ h) =
      ground (arith, occurrences-add_listener l x (listeners h), occurrences-listeners l h)
  occurrences-listeners l (removes x ∷ h) =
      ground (arith, occurrences-remove_listener l x (listeners h), occurrences-listeners l h)

  calls_of-notify :
      (l : L) (ls : List L) (e : ContainerActivityEvent)
      → calls_of l (notify ls e) ≡ occurrences l ls
  unfolding calls_of notify occurrences
  calls_of-notify l [] e = refl
  calls_of-notify l (x ∷ xs) e = ground (arith, calls_of-notify l xs e)

  -- After any history of registrations and removals, `containerEventHandler` of a running tracer
  -- calls each listener once for each of its registrations that no removal has undone, and that
  -- of a tracer that does not run calls nobody.
  pub calls_of-container_event_handler :
      (l : L) (h : List (Registration L)) (running : Bool) (kind : PubSubType) (c : Container)
      → calls_of l (container_event_handler running (listeners h) kind c)
        ≡ (if running then registered l h else 0)
  unfolding container_event_handler calls_of
  calls_of-container_event_handler l h running kind c = ground (
    arith,
    calls_of-notify l (listeners h) (activity_event (activity_of kind) c),
    occurrences-listeners l h,
  )
