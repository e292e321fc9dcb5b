-- ===== src/Tracing/Counts.antt =====
-- The reference counts of a gadget against a history of starts and stops.
use kapprofiler.Base.{
  any, length, ltb, not, ◌&&◌, ◌≤◌, Bool-cases, inr, ℕ, ◌+◌, ◌-◌, ◌≡◌, refl, Bool, true, false,
  ◌||◌, Option, none, some, List, [], ◌∷◌, lookup, lookup-insert, nat_comparable, ◌==◌, eqb,
  if◌then◌else◌, arith, inl, insert, ◌⊎◌, length, ◌&&◌, ◌≤◌, ltb, not,
}
use kapprofiler.Bpf.Filter.{is_some}
use kapprofiler.Tracing.Defs.{TracingState, EbpfPut, usage, start_one, stop_one}

-- Whether a map that holds `max_entries` keys at most takes a key: it has it, or there is room.
abbrev pub fits : ℕ → ℕ → List (ℕ × ℕ) → Bool
fits max_entries k m = is_some (lookup k m) || ltb (length m) max_entries

-- What is relied on of `ebpf.Map.Put` on a hash map, whose error the program ignores: it writes the
-- value of its key and no other if the key fits, with one entry more for a new key, and else it
-- fails and changes nothing.
pub record IsPut (max_entries : ℕ) (put : EbpfPut) : Type 0 where
  pub writes :
      (k j v : ℕ) (m : List (ℕ × ℕ))
      → fits max_entries k m ≡ true
      → lookup j (put k v m) ≡ (if k == j then some v else lookup j m)
  pub grows :
      (k v : ℕ) (m : List (ℕ × ℕ))
      → fits max_entries k m ≡ true
      → length (put k v m) ≡ (if is_some (lookup k m) then length m else length m + 1)
  pub refuses : (k v : ℕ) (m : List (ℕ × ℕ)) → fits max_entries k m ≡ false → put k v m ≡ m

-- A start or a stop of a container with its mount namespace and its process.
pub data Use : Type 0 where
  starts : ℕ → ℕ → Use
  stops : ℕ → ℕ → Use

abbrev or_same : TracingState → Option TracingState → TracingState
or_same st none = st
or_same st (some st') = st'

-- The state after a history, the newest call first.
unfoldable pub after : EbpfPut → TracingState → List Use → TracingState
unfolding start_one stop_one
after put st [] = st
after put st (starts mntns pid ∷ h) =
    let before = after put st h in or_same before (start_one put mntns pid before)
after put st (stops mntns pid ∷ h) =
    let before = after put st h in or_same before (stop_one put mntns pid before)

-- How many starts of a mount namespace are not yet matched by a stop.
unfoldable pub users : ℕ → List Use → ℕ
users i [] = 0
users i (starts mntns pid ∷ h) = if mntns == i then users i h + 1 else users i h
users i (stops mntns pid ∷ h) = if mntns == i then users i h - 1 else users i h

-- The namespaces that a map of a size has taken in after a history, the newest first: those that
-- were started first, as many as there is room for. A namespace is never taken out.
unfoldable pub taken_in : ℕ → List Use → List ℕ
unfolding any
taken_in max_entries [] = []
taken_in max_entries (starts mntns pid ∷ h) =
    let before = taken_in max_entries h in
    if any (λ k. k == mntns) before || not (ltb (length before) max_entries)
    then before
    else mntns ∷ before
taken_in max_entries (stops mntns pid ∷ h) = taken_in max_entries h

abbrev pub admitted : ℕ → ℕ → List Use → Bool
admitted max_entries i h = any (λ k. k == i) (taken_in max_entries h)

abbrev pub entries : ℕ → List Use → ℕ
entries max_entries h = length (taken_in max_entries h)

-- What the filter map holds: 1 for a namespace in use, 0 for one that was, else nothing.
abbrev pub filter_value : Bool → ℕ → Option ℕ
filter_value taken n = if taken then some (if eqb n 0 then 0 else 1) else none

-- The state of a gadget that nobody uses yet.
abbrev pub fresh : TracingState
fresh = record {
  usage_reference_count = [];
  ebpf_container_filter_map = [];
  gadget = true;
  attachable = none;
  peekable = false;
}

-- The count and the filter value of a namespace after a history.
pub record Agrees (max_entries : ℕ) (st : TracingState) (i : ℕ) (h : List Use) : Type 0 where
  pub usage : usage i st ≡ users i h
  pub filter :
      lookup i st.ebpf_container_filter_map ≡ filter_value (admitted max_entries i h) (users i h)
  pub unused :
      (users i h ≡ 0) ⊎ ((admitted max_entries i h ≡ true) ⊎ (max_entries ≤ entries max_entries h))

-- That for each namespace, and the size of the map.
pub record AllAgree (max_entries : ℕ) (st : TracingState) (h : List Use) : Type 0 where
  pub gadget : st.gadget ≡ true
  pub size : length st.ebpf_container_filter_map ≡ entries max_entries h
  pub at : (i : ℕ) → Agrees max_entries st i h

module _ (max_entries : ℕ) (put : EbpfPut) (is_put : IsPut max_entries put) where
  usage-write :
      (i mntns n : ℕ) (st : TracingState) (m : List (ℕ × ℕ))
      → usage i (record st {
        usage_reference_count = insert mntns n st.usage_reference_count;
        ebpf_container_filter_map = m;
      })
        ≡ (if mntns == i then n else usage i st)
  unfolding usage
  usage-write i mntns n st m = ground (arith, lookup-insert mntns i n st.usage_reference_count)

  -- What `put` leaves at a key, and the size of the map, in both cases.
  put_lem :
      (k j v : ℕ) (m : List (ℕ × ℕ))
      → (lookup j (put k v m) ≡ (if fits max_entries k m && k == j then some v else lookup j m))
        × (length (put k v m) ≡ (
            if fits max_entries k m && not (is_some (lookup k m)) then length m + 1 else length m))
  put_lem k j v m = elim (Bool-cases (fits max_entries k m)) [
    | inl there ↦ (
      ground (arith, there, is_put.writes k j v m there),
      ground (arith, there, is_put.grows k v m there),
    )
    | inr full ↦ rw (full, is_put.refuses k v m full) (refl, refl)
  ]

  starts-AllAgree :
      (mntns pid : ℕ) (st : TracingState) (h : List Use)
      → AllAgree max_entries st h
      → AllAgree max_entries (or_same st (start_one put mntns pid st)) (starts mntns pid ∷ h)
  unfolding start_one users taken_in any
  starts-AllAgree mntns pid st h a =
      let own = a.at mntns in
      let old = st.ebpf_container_filter_map in
      record {
        gadget = ground (arith, a.gadget);
        size = ground (arith, a.gadget, a.size, own.filter, put_lem mntns mntns 1 old);
        at = λ i.
            let facts = a.at i in
            record {
              usage = ground (
                arith,
                a.gadget,
                usage-write i mntns (usage mntns st + 1) st (put mntns 1 old),
                own.usage,
                facts.usage,
              );
              filter = ground (
                arith,
                a.gadget,
                a.size,
                own.filter,
                facts.filter,
                own.unused,
                facts.unused,
                put_lem mntns i 1 old,
              );
              unused = ground (arith, facts.unused, own.unused);
            };
      }

  stops-AllAgree :
      (mntns pid : ℕ) (st : TracingState) (h : List Use)
      → AllAgree max_entries st h
      → AllAgree max_entries (or_same st (stop_one put mntns pid st)) (stops mntns pid ∷ h)
  unfolding stop_one users taken_in any
  stops-AllAgree mntns pid st h a =
      let own = a.at mntns in
      let old = st.ebpf_container_filter_map in
      let written = if eqb (usage mntns st - 1) 0 then put mntns 0 old else old in
      record {
        gadget = ground (arith, a.gadget);
        size =
            ground (
              arith,
              a.gadget,
              a.size,
              own.usage,
              own.filter,
              own.unused,
              put_lem mntns mntns 0 old,
            );
        at = λ i.
            let facts = a.at i in
            record {
              usage = ground (
                arith,
                a.gadget,
                usage-write i mntns (usage mntns st - 1) st written,
                own.usage,
                facts.usage,
              );
              filter = ground (
                arith,
                a.gadget,
                a.size,
                own.usage,
                own.filter,
                facts.filter,
                own.unused,
                facts.unused,
                put_lem mntns i 0 old,
              );
              unused = ground (arith, facts.unused, own.unused);
            };
      }

  -- After any history of starts and stops of containers of a gadget, from the state that nobody
  -- uses yet on: the reference count of a mount namespace is the number of its starts that no stop
  -- matches; the filter map holds an entry for a namespace exactly if it is one of the first that
  -- were started, as many as the map has room for, with 1 while it is in use and 0 after its last
  -- stop; and the map has as many entries as namespaces were taken in.
  pub after-AllAgree : (h : List Use) → AllAgree max_entries (after put fresh h) h
  unfolding after users taken_in any usage lookup
  after-AllAgree [] = record {
    gadget = refl;
    size = refl;
    at = λ i. record { usage = refl; filter = refl; unused = inl refl };
  }
  after-AllAgree (starts mntns pid ∷ h) =
      starts-AllAgree mntns pid (after put fresh h) h (after-AllAgree h)
  after-AllAgree (stops mntns pid ∷ h) =
      stops-AllAgree mntns pid (after put fresh h) h (after-AllAgree h)
