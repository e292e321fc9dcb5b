-- ===== src/MapDb/Defs.antt =====
-- `InMemoryMapDB[T]` and its methods. The map is nil after `Close`; a nil slice and an empty slice
-- are both the empty list, and capacities are left out.
use kapprofiler.Base.{
  ℕ, Bool, String, string_comparable, Option, none, some, List, [], ◌∷◌, ◌++◌, map, lookup, insert,
  delete, length, if◌then◌else◌, eqb, true, false,
}

pub record InMemoryMapDb (T : Type 0) : Type 0 where
  pub m : Option (List (String × List T))
  pub default_inital_cap : ℕ

module _ {T : Type 0} where
  -- The field `defaultInitalCap` keeps its zero value, whatever the argument is.
  unfoldable pub new_in_memory_map_db : ℕ → InMemoryMapDb T
  new_in_memory_map_db default_inital_cap = record { m = some []; default_inital_cap = 0 }

  abbrev pub values_at : Option (List T) → List T
  values_at none = []
  values_at (some vs) = vs

  -- A read of a nil map finds nothing.
  abbrev pub entries : Option (List (String × List T)) → List (String × List T)
  entries none = []
  entries (some es) = es

  abbrev pub is_some : Option (List T) → Bool
  is_some none = false
  is_some (some vs) = true

  abbrev pub put_entries : String → T → List (String × List T) → List (String × List T)
  put_entries key value es =
      let made = if is_some (lookup key es) then es else insert key [] es in
      insert key (values_at (lookup key made) ++ value ∷ []) made

  -- `none` is a panic: a write to a nil map.
  unfoldable pub put : String → T → InMemoryMapDb T → Option (InMemoryMapDb T)
  unfolding lookup insert
  put key value db = elim db.m [
    | none ↦ none
    | some es ↦ some (record db { m = some (put_entries key value es) })
  ]

  unfoldable pub get : String → InMemoryMapDb T → List T
  unfolding lookup
  get key db = values_at (lookup key (entries db.m))

  unfoldable pub delete_key : String → InMemoryMapDb T → InMemoryMapDb T
  unfolding delete
  delete_key key db = elim db.m [ none ↦ db | some es ↦ record db { m = some (delete key es) } ]

  unfoldable pub exist : String → InMemoryMapDb T → Bool
  unfolding lookup
  exist key db = is_some (lookup key (entries db.m))

  unfoldable pub len : InMemoryMapDb T → ℕ
  len db = length (entries db.m)

  -- Go fixes no order; here it is that of the association list.
  unfoldable pub keys : InMemoryMapDb T → List String
  keys db = map (λ e. e.0) (entries db.m)

  unfoldable pub values : InMemoryMapDb T → List (List T)
  values db = map (λ e. e.1) (entries db.m)

  unfoldable pub clear : InMemoryMapDb T → InMemoryMapDb T
  clear db = record db { m = some [] }

  unfoldable pub close : InMemoryMapDb T → InMemoryMapDb T
  close db = record db { m = none }

  unfoldable pub is_closed : InMemoryMapDb T → Bool
  is_closed db = elim db.m [ none ↦ true | some es ↦ false ]

  unfoldable pub is_empty : InMemoryMapDb T → Bool
  is_empty db = eqb (length (entries db.m)) 0

  abbrev pub clean_entries :
      String → Option (List T) → List (String × List T) → Option (List (String × List T))
  clean_entries key none es = some es
  clean_entries key (some vs) es = some (insert key [] es)

  -- The values of a key; the entry stays, empty.
  unfoldable pub get_n_clean : String → InMemoryMapDb T → List T × InMemoryMapDb T
  unfolding lookup insert
  get_n_clean key db = elim db.m [
    | none ↦ ([], db)
    | some es ↦ (values_at (lookup key es), record db { m = clean_entries key (lookup key es) es })
  ]
