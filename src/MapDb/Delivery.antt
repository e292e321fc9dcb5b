-- ===== src/MapDb/Delivery.antt =====
-- Clients that put values in and take them out: every value is handed out once, in order.
use kapprofiler.MapDb.Defs.{put_entries}
use kapprofiler.Base.{
  inl, inr, Option-cases, Bool-cases, ==→≡, ◌∙◌, lookup, false, String, string_comparable, Option,
  none, some, List, [], ◌∷◌, ◌++◌, ◌≡◌, refl, arith, if◌then◌else◌, ◌==◌, append_assoc, append-nil,
}
use kapprofiler.MapDb.Defs.{InMemoryMapDb, put, get, is_closed, get_n_clean}
use kapprofiler.MapDb.Keys.{get-put, get-get_n_clean, get_n_clean-get}

pub data Call (T : Type 0) : Type 0 where
  puts : String → T → Call T
  takes : String → Call T

module _ {T : Type 0} where
  abbrev pub answered :
      String
      → List T
      → Option (InMemoryMapDb T × List (String × List T))
      → Option (InMemoryMapDb T × List (String × List T))
  answered k vs none = none
  answered k vs (some (db, out)) = some (db, (k, vs) ∷ out)

  -- The calls one after another, with the answers to the calls of `get_n_clean`; `none` if one of
  -- them panics.
  unfoldable pub run :
      List (Call T) → InMemoryMapDb T → Option (InMemoryMapDb T × List (String × List T))
  run [] db = some (db, [])
  run (puts k v ∷ cs) db = elim (put k v db) [ none ↦ none | some db' ↦ run cs db' ]
  run (takes k ∷ cs) db = answered k (get_n_clean k db).0 (run cs (get_n_clean k db).1)

  -- The values that are put at a key.
  unfoldable pub given : String → List (Call T) → List T
  given j [] = []
  given j (puts k v ∷ cs) = if k == j then v ∷ given j cs else given j cs
  given j (takes k ∷ cs) = given j cs

  -- The values that are handed out for a key.
  unfoldable pub taken : String → List (String × List T) → List T
  taken j [] = []
  taken j ((k, vs) ∷ out) = if k == j then vs ++ taken j out else taken j out

  put-open :
      (k : String) (v : T) (db : InMemoryMapDb T)
      → is_closed db ≡ false
      → (db' : InMemoryMapDb T) × (put k v db ≡ some db') × (is_closed db' ≡ false)
  unfolding put is_closed
  put-open k v db h = elim (Option-cases db.m) [
    | inl e ↦ absurd (ground arith)
    | inr (es, e) ↦ (record db { m = some (put_entries k v es) }, rw (e, put) refl, refl)
  ]

  get_n_clean-open :
      (k : String) (db : InMemoryMapDb T)
      → is_closed db ≡ false
      → is_closed (get_n_clean k db).1 ≡ false
  unfolding get_n_clean is_closed
  get_n_clean-open k db h = elim (Option-cases db.m) [
    | inl e ↦ absurd (ground arith)
    | inr (es, e) ↦ elim (Option-cases (lookup k es)) [
      | inl f ↦ ground arith
      | inr (vs, f) ↦ ground arith
    ]
  ]

  put-step :
      (k j : String) (v : T) (db db' : InMemoryMapDb T) (rest left : List T)
      → put k v db ≡ some db'
      → left ≡ get j db' ++ rest
      → left ≡ get j db ++ (if k == j then v ∷ rest else rest)
  put-step k j v db db' rest left e h = elim (Bool-cases (k == j)) [
    | inl same ↦
        rw (h, get-put k j v db db' e, same, ==→≡ k j same) (append_assoc (get j db) (v ∷ []) rest)
    | inr other ↦ rw (h, get-put k j v db db' e, other) refl
  ]

  take-step :
      (k j : String) (db : InMemoryMapDb T) (out kept rest : List T)
      → out ++ kept ≡ get j (get_n_clean k db).1 ++ rest
      → (if k == j then (get_n_clean k db).0 ++ out else out) ++ kept ≡ get j db ++ rest
  take-step k j db out kept rest h = elim (Bool-cases (k == j)) [
    | inl same ↦
        let all : out ++ kept ≡ rest = h ∙ rw (get-get_n_clean k j db, same) refl in
        rw (same, get_n_clean-get, ==→≡ k j same, append_assoc, all) refl
    | inr other ↦ rw (other, h, get-get_n_clean k j db, other) refl
  ]

  -- On a map that is not closed no call panics, and what is handed out for a key, with what is
  -- still there at the end, is what was there at first, with what was put: nothing is lost, handed
  -- out twice or out of order, and no key's values are mixed with another's.
  pub run-delivers :
      (cs : List (Call T)) (db : InMemoryMapDb T)
      → is_closed db ≡ false
      → (db' : InMemoryMapDb T) × (out : List (String × List T)) × (run cs db ≡ some (db', out))
        × (is_closed db' ≡ false)
        × ((j : String) → taken j out ++ get j db' ≡ get j db ++ given j cs)
  unfolding run given taken
  run-delivers [] db h = (db, [], refl, h, λ j. rw append-nil)
  run-delivers (puts k v ∷ cs) db h =
      let (db₁, e, o) = put-open k v db h in
      let (db', out, r, c, d) = run-delivers cs db₁ o in
      (db', out, rw (e, run) r, c, λ j. put-step k j v db db₁ (given j cs) _ e (d j))
  run-delivers (takes k ∷ cs) db h =
      let (db', out, r, c, d) = run-delivers cs (get_n_clean k db).1 (get_n_clean-open k db h) in
      (
        db',
        (k, (get_n_clean k db).0) ∷ out,
        rw r,
        c,
        λ j. take-step k j db (taken j out) (get j db') (given j cs) (d j),
      )
