-- ===== src/Watcher/Versions.antt =====
-- The resource version from which a watch is opened again.
use kapprofiler.Base.{
  sym, ==→≡, ℕ, max, ◌≡◌, Bool, true, false, not, ◌&&◌, ◌||◌, String, Option, none, some, List, [],
  ◌∷◌, string_comparable, ◌==◌, eqb, if◌then◌else◌, arith, ap, ◌∙◌, Bool-cases, inl, inr, ==→≡,
  refl,
}
use kapprofiler.Watcher.Defs.{
  with_notice, restarts, on_error, ParseInt, WatchEvent, added, modified, deleted, bookmark, error,
  closed, is_resource_version_higher, see_version, retry, watch, receive_event, Watcher,
}

-- What is relied on of `strconv.ParseInt`: the empty string is an error.
abbrev pub RejectsEmpty : ParseInt → Type 0
RejectsEmpty parse_int = parse_int "" ≡ none

abbrev pub parses : Option ℕ → Bool
parses none = false
parses (some n) = true

abbrev pub larger : Option ℕ → Option ℕ → Option ℕ
larger none b = b
larger (some a) none = some a
larger (some a) (some b) = some (max a b)

-- An event of a watch that the API server may send: its version is empty or a number.
unfoldable pub is_regular : ParseInt → WatchEvent → Bool
is_regular parse_int (added o) = o.resource_version == "" || parses (parse_int o.resource_version)
is_regular parse_int (modified o) =
    o.resource_version == "" || parses (parse_int o.resource_version)
is_regular parse_int (deleted o) = o.resource_version == "" || parses (parse_int o.resource_version)
is_regular parse_int (bookmark o) =
    o.resource_version == "" || parses (parse_int o.resource_version)
is_regular parse_int (error code version) = version == "" || parses (parse_int version)
is_regular parse_int (closed attempts) = true

unfoldable pub are_regular : ParseInt → List WatchEvent → Bool
unfolding is_regular
are_regular parse_int [] = true
are_regular parse_int (e ∷ es) = is_regular parse_int e && are_regular parse_int es

-- The largest version seen since the last error 410, from a number on, while the loop goes on.
unfoldable pub largest : ParseInt → Option ℕ → List WatchEvent → Option ℕ
unfolding retry
largest parse_int n [] = n
largest parse_int n (added o ∷ es) = largest parse_int (larger n (parse_int o.resource_version)) es
largest parse_int n (modified o ∷ es) =
    largest parse_int (larger n (parse_int o.resource_version)) es
largest parse_int n (deleted o ∷ es) =
    largest parse_int (larger n (parse_int o.resource_version)) es
largest parse_int n (bookmark o ∷ es) =
    largest parse_int (larger n (parse_int o.resource_version)) es
largest parse_int n (error code version ∷ es) =
    largest parse_int (if eqb code 410 then none else larger n (parse_int version)) es
largest parse_int n (closed attempts ∷ es) =
    let rest = largest parse_int n es in if retry 5 attempts then rest else n

-- A version that the watcher may have: empty or a number.
abbrev is_version : ParseInt → String → Bool
is_version parse_int v = v == "" || parses (parse_int v)

module _ (parse_int : ParseInt) (rejects : RejectsEmpty parse_int) where
  empty-none : (v : String) → (v == "") ≡ true → parse_int v ≡ none
  empty-none v h = ap parse_int (==→≡ v "" h) ∙ rejects

  see_version-larger :
      (last v : String)
      → is_version parse_int last ≡ true
      → is_version parse_int v ≡ true
      → (parse_int (see_version parse_int last v) ≡ larger (parse_int last) (parse_int v))
        × (is_version parse_int (see_version parse_int last v) ≡ true)
  unfolding see_version is_resource_version_higher
  see_version-larger last v h k =
      elim (Bool-cases (not (v == "") && is_resource_version_higher parse_int v last)) [
        | inl taken ↦
            rw (taken, see_version) (ground (arith, taken, empty-none v, empty-none last, h, k), k)
        | inr kept ↦
            rw (kept, see_version) (ground (arith, kept, empty-none v, empty-none last, h, k), h)
      ]

  watch-step :
      (e : WatchEvent) (es : List WatchEvent) (w : Watcher)
      → w.goes_on ≡ true
      → watch parse_int (e ∷ es) w ≡ watch parse_int es (receive_event parse_int e w)
  unfolding watch
  watch-step e es w h = ground arith

  watch-ended : (es : List WatchEvent) (w : Watcher) → w.goes_on ≡ false → watch parse_int es w ≡ w
  unfolding watch
  watch-ended [] w h = refl
  watch-ended (e ∷ es) w h = ground arith

  -- What an event with a version does, when the rest of the watch does what is claimed of it.
  after_version :
      (version : String) (e : WatchEvent) (es : List WatchEvent) (w : Watcher)
      → w.goes_on ≡ true
      → parse_int (watch parse_int es (receive_event parse_int e w)).last_resource_version
        ≡ largest parse_int (parse_int (see_version parse_int w.last_resource_version version)) es
      → is_version parse_int w.last_resource_version ≡ true
      → is_version parse_int version ≡ true
      → parse_int (watch parse_int (e ∷ es) w).last_resource_version
        ≡ largest parse_int (larger (parse_int w.last_resource_version) (parse_int version)) es
  after_version version e es w h rest seen valid =
      ap (λ x. parse_int x.last_resource_version) (watch-step e es w h)
      ∙ rest
      ∙ ap (λ n. largest parse_int n es)
          ((see_version-larger w.last_resource_version version seen valid).0)

  receive_event-gone :
      (code : ℕ) (version : String) (w : Watcher)
      → eqb code 410 ≡ true
      → receive_event parse_int (error code version) w ≡ record w { last_resource_version = "" }
  unfolding receive_event
  receive_event-gone code version w h = rw h

  receive_event-error :
      (code : ℕ) (version : String) (w : Watcher)
      → eqb code 410 ≡ false
      → receive_event parse_int (error code version) w
        ≡ record w { last_resource_version = see_version parse_int w.last_resource_version version }
  unfolding receive_event
  receive_event-error code version w h = rw h

  receive_event-again :
      (attempts : List Bool) (w : Watcher)
      → retry 5 attempts ≡ true
      → receive_event parse_int (closed attempts) w
        ≡ with_notice (restarts w.last_resource_version) w
  unfolding receive_event
  receive_event-again attempts w h = ground (arith, h)

  receive_event-over :
      (attempts : List Bool) (w : Watcher)
      → retry 5 attempts ≡ false
      → receive_event parse_int (closed attempts) w
        ≡ record (with_notice on_error w) { goes_on = false }
  unfolding receive_event
  receive_event-over attempts w h = ground (arith, h)

  largest-gone :
      (code : ℕ) (version : String) (es : List WatchEvent) (n : Option ℕ)
      → eqb code 410 ≡ true
      → largest parse_int n (error code version ∷ es) ≡ largest parse_int none es
  unfolding largest
  largest-gone code version es n h = rw h

  largest-error :
      (code : ℕ) (version : String) (es : List WatchEvent) (n : Option ℕ)
      → eqb code 410 ≡ false
      → largest parse_int n (error code version ∷ es)
        ≡ largest parse_int (larger n (parse_int version)) es
  unfolding largest
  largest-error code version es n h = rw h

  largest-again :
      (attempts : List Bool) (es : List WatchEvent) (n : Option ℕ)
      → retry 5 attempts ≡ true
      → largest parse_int n (closed attempts ∷ es) ≡ largest parse_int n es
  unfolding largest
  largest-again attempts es n h = ground (arith, h)

  largest-over :
      (attempts : List Bool) (es : List WatchEvent) (n : Option ℕ)
      → retry 5 attempts ≡ false
      → largest parse_int n (closed attempts ∷ es) ≡ n
  unfolding largest
  largest-over attempts es n h = ground (arith, h)

  watch-last :
      (es : List WatchEvent) (w : Watcher)
      → w.goes_on ≡ true
      → is_version parse_int w.last_resource_version ≡ true
      → are_regular parse_int es ≡ true
      → parse_int (watch parse_int es w).last_resource_version
        ≡ largest parse_int (parse_int w.last_resource_version) es
  unfolding largest are_regular is_regular receive_event watch
  watch-last [] w h seen regular = refl
  watch-last (added o ∷ es) w h seen regular =
      after_version o.resource_version (added o) es w h
        (watch-last es (receive_event parse_int (added o) w) h
          ((see_version-larger w.last_resource_version o.resource_version seen (ground arith)).1)
          (ground arith))
        seen (ground arith)
  watch-last (modified o ∷ es) w h seen regular =
      after_version o.resource_version (modified o) es w h
        (watch-last es (receive_event parse_int (modified o) w) h
          ((see_version-larger w.last_resource_version o.resource_version seen (ground arith)).1)
          (ground arith))
        seen (ground arith)
  watch-last (deleted o ∷ es) w h seen regular =
      after_version o.resource_version (deleted o) es w h
        (watch-last es (receive_event parse_int (deleted o) w) h
          ((see_version-larger w.last_resource_version o.resource_version seen (ground arith)).1)
          (ground arith))
        seen (ground arith)
  watch-last (bookmark o ∷ es) w h seen regular =
      after_version o.resource_version (bookmark o) es w h
        (watch-last es (receive_event parse_int (bookmark o) w) h
          ((see_version-larger w.last_resource_version o.resource_version seen (ground arith)).1)
          (ground arith))
        seen (ground arith)
  watch-last (error code version ∷ es) w h seen regular = elim (Bool-cases (eqb code 410)) [
    | inl gone ↦
        ap (λ x. parse_int x.last_resource_version)
          (watch-step (error code version) es w h
            ∙ ap (watch parse_int es) (receive_event-gone code version w gone))
        ∙ watch-last es (record w { last_resource_version = "" }) h refl (ground arith)
        ∙ ap (λ n. largest parse_int n es) rejects
        ∙ sym (largest-gone code version es (parse_int w.last_resource_version) gone)
    | inr other ↦
        after_version version (error code version) es w h
          (ap (λ x. parse_int (watch parse_int es x).last_resource_version)
              (receive_event-error code version w other)
            ∙ watch-last es
                (record w {
                  last_resource_version = see_version parse_int w.last_resource_version version;
                })
                h ((see_version-larger w.last_resource_version version seen (ground arith)).1)
                (ground arith))
          seen (ground arith)
        ∙ sym (largest-error code version es (parse_int w.last_resource_version) other)
  ]
  watch-last (closed attempts ∷ es) w h seen regular = elim (Bool-cases (retry 5 attempts)) [
    | inl again ↦
        ap (λ x. parse_int x.last_resource_version)
          (watch-step (closed attempts) es w h
            ∙ ap (watch parse_int es) (receive_event-again attempts w again))
        ∙ watch-last es (with_notice (restarts w.last_resource_version) w) h seen regular
        ∙ sym (largest-again attempts es (parse_int w.last_resource_version) again)
    | inr over ↦
        ap (λ x. parse_int x.last_resource_version)
          (watch-step (closed attempts) es w h
            ∙ ap (watch parse_int es) (receive_event-over attempts w over)
            ∙ watch-ended es (record (with_notice on_error w) { goes_on = false }) refl)
        ∙ sym (largest-over attempts es (parse_int w.last_resource_version) over)
  ]

-- The state of a watch that starts without a list.
abbrev pub fresh_watch : Watcher
fresh_watch = record { goes_on = true; last_resource_version = ""; notices = [] }

-- When the versions of the objects and of the error statuses are empty or numbers, the version from
-- which a watch is opened again is the largest one that was seen since the last error 410, and none
-- if there was none.
pub watch-largest :
    (parse_int : ParseInt)
    → RejectsEmpty parse_int
    → (es : List WatchEvent) → are_regular parse_int es ≡ true
    → parse_int (watch parse_int es fresh_watch).last_resource_version ≡ largest parse_int none es
watch-largest parse_int rejects es regular =
    watch-last parse_int rejects es fresh_watch refl refl regular
    ∙ ap (λ n. largest parse_int n es) rejects
