-- ===== src/MapDb/Keys.antt =====
-- What one call changes: the values of its own key, and nothing of the others.
use text.Mathlib.TextEquality.{eq_iff}
use kapprofiler.Base.{
  lookup-insert, lookup-insert_self, Option-cases, inl, inr, String, string_comparable, some, List,
  [], ◌∷◌, ◌++◌, ◌≡◌, refl, arith, lookup, if◌then◌else◌, ◌==◌, insert,
}
use kapprofiler.MapDb.Defs.{put_entries, values_at, InMemoryMapDb, put, get, get_n_clean}

module _ {T : Type 0} where
  lookup-put_entries :
      (k j : String) (v : T) (es : List (String × List T))
      → lookup j (put_entries k v es)
        ≡ (if k == j then some (values_at (lookup k es) ++ v ∷ []) else lookup j es)
  lookup-put_entries k j v es = elim (Option-cases (lookup k es)) [
    | inl e ↦ ground (
      arith,
      lookup-insert k j [] es,
      lookup-insert_self {V = List T} k [] es,
      lookup-insert k j (v ∷ []) (insert k [] es),
    )
    | inr (vs, e) ↦ rw (e, lookup-insert, e) refl
  ]

  -- A call of `put` that does not panic adds the value behind the others of its key.
  pub get-put :
      (k j : String) (v : T) (db db' : InMemoryMapDb T)
      → put k v db ≡ some db'
      → get j db' ≡ (if k == j then get k db ++ v ∷ [] else get j db)
  unfolding put get
  get-put k j v db db' h = elim (Option-cases db.m) [
    | inl e ↦ absurd (ground arith)
    | inr (es, e) ↦ ground (arith, lookup-put_entries k j v es)
  ]

  pub get-get_n_clean :
      (k j : String) (db : InMemoryMapDb T)
      → get j (get_n_clean k db).1 ≡ (if k == j then [] else get j db)
  unfolding get_n_clean get
  get-get_n_clean k j db = elim (Option-cases db.m) [
    | inl e ↦ ground arith
    | inr (es, e) ↦ elim (Option-cases (lookup k es)) [
      | inl f ↦ ground (arith, eq_iff k j)
      | inr (vs, f) ↦ ground (arith, lookup-insert k j [] es)
    ]
  ]

  pub get_n_clean-get : (k : String) (db : InMemoryMapDb T) → (get_n_clean k db).0 ≡ get k db
  unfolding get_n_clean get
  get_n_clean-get k db = ground arith
