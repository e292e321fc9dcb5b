-- ===== src/Collector/Network.antt =====
-- The merging of network connections, whose loop tests against what it has appended so far.
use kapprofiler.Base.{
  every, subst, sym, ◌≡◌, refl, Bool, true, not, ◌||◌, List, [], ◌∷◌, ◌++◌, string_comparable, any,
  any-append, if◌then◌else◌, arith, ltb, ◌∙◌, length, length-append, ==_refl, ap,
}
use kapprofiler.Collector.Calls.{
  NetworkCalls, network_event_exists, max_network_events, is_network_call,
}
use kapprofiler.Collector.Merged.{and_true}
use kapprofiler.Collector.Merge.{merge_network, network_event_of}

-- A connection that is there, or beyond the limit.
unfoldable is_merged : List NetworkCalls → NetworkCalls → Bool
unfolding network_event_exists
is_merged calls call =
    network_event_exists (network_event_of call) calls
    || not (ltb (length calls) max_network_events)

unfoldable step : List NetworkCalls → NetworkCalls → List NetworkCalls
unfolding is_merged
step calls call = if is_merged calls call then calls else calls ++ call ∷ []

merge_network-step :
    (calls : List NetworkCalls) (c : NetworkCalls) (cs : List NetworkCalls)
    → merge_network calls (c ∷ cs) ≡ merge_network (step calls c) cs
unfolding merge_network step is_merged
merge_network-step calls c cs = ap (λ l. merge_network l cs) (ground arith)

network_event_exists-append :
    (c x : NetworkCalls) (calls : List NetworkCalls)
    → network_event_exists (network_event_of c) (calls ++ x ∷ [])
      ≡ (network_event_exists (network_event_of c) calls || is_network_call (network_event_of c) x)
unfolding network_event_exists any
network_event_exists-append c x calls =
    any-append (is_network_call (network_event_of c)) calls (x ∷ []) ∙ ground arith

is_network_call_refl : (c : NetworkCalls) → is_network_call (network_event_of c) c ≡ true
is_network_call_refl c = ground (arith, ==_refl c.dst_endpoint, ==_refl c.protocol)

step-is_merged : (calls : List NetworkCalls) (c : NetworkCalls) → is_merged (step calls c) c ≡ true
unfolding step is_merged
step-is_merged calls c =
    ground (arith, network_event_exists-append c c calls, is_network_call_refl c)

step-keeps :
    (calls : List NetworkCalls) (x c : NetworkCalls)
    → is_merged calls c ≡ true
    → is_merged (step calls x) c ≡ true
unfolding step is_merged
step-keeps calls x c h =
    ground (arith, network_event_exists-append c x calls, length-append calls (x ∷ []))

stays :
    (calls : List NetworkCalls) (c : NetworkCalls) → is_merged calls c ≡ true → step calls c ≡ calls
unfolding step
stays calls c h = rw h

merge_network-keeps :
    (calls cs : List NetworkCalls) (c : NetworkCalls)
    → is_merged calls c ≡ true
    → is_merged (merge_network calls cs) c ≡ true
unfolding merge_network
merge_network-keeps calls [] c h = h
merge_network-keeps calls (x ∷ xs) c h =
    rw (merge_network-step calls x xs)
      (merge_network-keeps (step calls x) xs c (step-keeps calls x c h))

merge_network-every :
    (calls cs : List NetworkCalls) → every (is_merged (merge_network calls cs)) cs ≡ true
unfolding merge_network every
merge_network-every calls [] = refl
merge_network-every calls (x ∷ xs) =
    subst (λ l. every (is_merged l) (x ∷ xs) ≡ true) (sym (merge_network-step calls x xs))
      (and_true (merge_network-keeps (step calls x) xs x (step-is_merged calls x))
        (merge_network-every (step calls x) xs))

merge_network-merged :
    (calls cs : List NetworkCalls)
    → every (is_merged calls) cs ≡ true
    → merge_network calls cs ≡ calls
unfolding merge_network every
merge_network-merged calls [] h = refl
merge_network-merged calls (x ∷ xs) h =
    merge_network-step calls x xs
    ∙ ap (λ l. merge_network l xs) (stays calls x (ground arith))
    ∙ merge_network-merged calls xs (ground arith)

pub merge_network-again :
    (calls cs : List NetworkCalls)
    → merge_network (merge_network calls cs) cs ≡ merge_network calls cs
merge_network-again calls cs =
    merge_network-merged (merge_network calls cs) cs (merge_network-every calls cs)
