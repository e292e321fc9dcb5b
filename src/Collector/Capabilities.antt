-- ===== src/Collector/Capabilities.antt =====
-- The capabilities of a profile, against the events that it was made of.
use kapprofiler.Base.{
  one_if, ℕ, ◌+◌, max, ◌≡◌, ◌≤◌, refl, Bool, true, false, ◌&&◌, List, [], ◌∷◌, ◌++◌, String, ◌==◌,
  string_comparable, slices_contains, any, if◌then◌else◌, arith, ltb, ◌∙◌,
}
use kapprofiler.Tracing.Events.{CapabilitiesEvent}
use kapprofiler.Collector.Calls.{CapabilitiesCalls}
use kapprofiler.Collector.Build.{add_capability, add_capabilities}

unfoldable pub times : String → List String → ℕ
times k [] = 0
times k (x ∷ xs) = one_if (x == k) (times k xs)

-- The number of entries of a syscall.
unfoldable pub entries : String → List CapabilitiesCalls → ℕ
entries s [] = 0
entries s (c ∷ cs) = one_if (c.syscall == s) (entries s cs)

-- How often a capability stands in the entries of a syscall.
unfoldable pub times_under : String → String → List CapabilitiesCalls → ℕ
unfolding times
times_under s k [] = 0
times_under s k (c ∷ cs) =
    if c.syscall == s then times k c.capabilities + times_under s k cs else times_under s k cs

-- Whether some event is of a syscall, and of a syscall with a capability.
unfoldable pub uses_syscall : String → List CapabilitiesEvent → Bool
uses_syscall s [] = false
uses_syscall s (e ∷ es) = if e.syscall == s then true else uses_syscall s es

unfoldable pub uses_capability : String → String → List CapabilitiesEvent → Bool
uses_capability s k [] = false
uses_capability s k (e ∷ es) =
    if e.syscall == s && e.capability_name == k then true else uses_capability s k es

times-append :
    (k x : String) (xs : List String) → times k (xs ++ x ∷ []) ≡ one_if (x == k) (times k xs)
unfolding times
times-append k x [] = refl
times-append k x (y ∷ ys) = ground (arith, times-append k x ys)

slices_contains-times : (k : String) (xs : List String) → slices_contains xs k ≡ ltb 0 (times k xs)
unfolding times slices_contains any
slices_contains-times k [] = refl
slices_contains-times k (x ∷ xs) = ground (arith, slices_contains-times k xs)

entries-add_capability :
    (s : String) (cs : List CapabilitiesCalls) (e : CapabilitiesEvent)
    → entries s (add_capability cs e)
      ≡ (if e.syscall == s then max 1 (entries s cs) else entries s cs)
unfolding entries add_capability
entries-add_capability s [] e = ground arith
entries-add_capability s (c ∷ cs) e = ground (
  arith,
  entries-add_capability s cs e,
  string_comparable.equal_iff c.syscall e.syscall,
  string_comparable.equal_iff c.syscall s,
  string_comparable.equal_iff e.syscall s,
)

times_under-none :
    (s k : String) (cs : List CapabilitiesCalls) → entries s cs ≡ 0 → times_under s k cs ≡ 0
unfolding entries times_under
times_under-none s k [] h = refl
times_under-none s k (c ∷ cs) h = ground (arith, times_under-none s k cs)

times_under-add_capability :
    (s k : String) (cs : List CapabilitiesCalls) (e : CapabilitiesEvent)
    → entries s cs ≤ 1
    → times_under s k (add_capability cs e) ≡ (
        if e.syscall == s && e.capability_name == k
        then max 1 (times_under s k cs)
        else times_under s k cs)
unfolding entries times_under add_capability
times_under-add_capability s k [] e h = ground arith
times_under-add_capability s k (c ∷ cs) e h = ground (
  arith,
  times_under-add_capability s k cs e,
  times_under-none s k cs,
  times-append k e.capability_name c.capabilities,
  slices_contains-times e.capability_name c.capabilities,
  string_comparable.equal_iff c.syscall e.syscall,
  string_comparable.equal_iff c.syscall s,
  string_comparable.equal_iff e.syscall s,
  string_comparable.equal_iff e.capability_name k,
)

entries-add_capabilities :
    (s : String) (cs : List CapabilitiesCalls) (es : List CapabilitiesEvent)
    → entries s (add_capabilities cs es)
      ≡ (if uses_syscall s es then max 1 (entries s cs) else entries s cs)
unfolding add_capabilities uses_syscall
entries-add_capabilities s cs [] = refl
entries-add_capabilities s cs (e ∷ es) =
    ground
      (arith, entries-add_capabilities s (add_capability cs e) es, entries-add_capability s cs e)

times_under-add_capabilities :
    (s k : String) (cs : List CapabilitiesCalls) (es : List CapabilitiesEvent)
    → entries s cs ≤ 1
    → times_under s k (add_capabilities cs es)
      ≡ (if uses_capability s k es then max 1 (times_under s k cs) else times_under s k cs)
unfolding add_capabilities uses_capability
times_under-add_capabilities s k cs [] h = refl
times_under-add_capabilities s k cs (e ∷ es) h =
    let stays = entries-add_capability s cs e in
    ground (
      arith,
      times_under-add_capabilities s k (add_capability cs e) es (ground (arith, stays)),
      times_under-add_capability s k cs e h,
    )

-- In the profile that is made of some events, each syscall has one entry if an event is of it and
-- else none, and each capability stands once in the entry of each syscall that an event names
-- together with it, and nowhere else.
pub add_capabilities-once :
    (s k : String) (es : List CapabilitiesEvent)
    → (entries s (add_capabilities [] es) ≡ one_if (uses_syscall s es) 0)
      × (times_under s k (add_capabilities [] es) ≡ one_if (uses_capability s k es) 0)
unfolding entries times_under
add_capabilities-once s k es = (
  entries-add_capabilities s [] es ∙ ground arith,
  times_under-add_capabilities s k [] es (ground arith) ∙ ground arith,
)
