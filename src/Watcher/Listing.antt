-- ===== src/Watcher/Listing.antt =====
-- The first part of `Watcher.Start` of pkg/watcher/watcher.go: the listing of the objects of each
-- namespace before the watch.
use kapprofiler.Base.{
  every, both, ◌≡◌, refl, Bool, true, false, ◌&&◌, String, Option, none, some, List, [], ◌∷◌, ◌++◌,
  map, string_comparable, ◌==◌, if◌then◌else◌, arith, ap, ◌∙◌, Bool-cases, inl, inr, sym, ◌>>=◌,
  if_true, if_false, append_assoc, append-nil, ==→≡,
}
use kapprofiler.Watcher.Defs.{
  ParseInt, Object, add, Watcher, with_notice, is_resource_version_higher, is_greater,
}
use kapprofiler.Watcher.Versions.{RejectsEmpty, parses, fresh_watch}

-- The body of the loop over the objects of a namespace.
unfoldable pub list_object : ParseInt → Object → Watcher → Watcher
unfolding is_resource_version_higher
list_object parse_int item w =
    if is_resource_version_higher parse_int item.resource_version w.last_resource_version
    then with_notice (add item) (record w { last_resource_version = item.resource_version })
    else w

unfoldable pub list_objects : ParseInt → List Object → Watcher → Watcher
unfolding list_object
list_objects parse_int [] w = w
list_objects parse_int (item ∷ items) w =
    list_objects parse_int items (list_object parse_int item w)

-- The loop over the namespaces, each with the objects that `List` returns or an error.
unfoldable pub list_namespaces : ParseInt → List (Option (List Object)) → Watcher → Option Watcher
unfolding list_objects
list_namespaces parse_int [] w = some w
list_namespaces parse_int (answer ∷ answers) w = do
  items ← answer
  list_namespaces parse_int answers (list_objects parse_int items w)

-- `Start` up to the goroutine; `none` is an error. `namespaces` is what the listing of the
-- namespaces returns, and `opens` whether the watch is opened.
unfoldable pub start :
    ParseInt → Bool → Option (List (Option (List Object))) → Bool → Option Watcher
unfolding list_namespaces
start parse_int pre_list namespaces opens = do
  answers ← namespaces
  listed ← if pre_list then list_namespaces parse_int answers fresh_watch else some fresh_watch
  if opens then some listed else none

-- The objects of a list whose version is above those of all that came before.
abbrev is_above : ParseInt → Object → Object → Bool
is_above parse_int item old =
    is_greater (parse_int item.resource_version) (parse_int old.resource_version)

unfoldable pub highs : ParseInt → List Object → List Object → List Object
unfolding every
highs parse_int before [] = []
highs parse_int before (item ∷ items) =
    let rest = highs parse_int (before ++ item ∷ []) items in
    if every (is_above parse_int item) before then item ∷ rest else rest

abbrev pub is_numbered : ParseInt → Object → Bool
is_numbered parse_int item = parses (parse_int item.resource_version)

-- The objects of all namespaces, in the order of the listings.
unfoldable pub all_objects : List (List Object) → List Object
all_objects [] = []
all_objects (items ∷ answers) = items ++ all_objects answers

module _ (parse_int : ParseInt) (rejects : RejectsEmpty parse_int) where
  -- The test of the loop tells whether an object is above all those before.
  unfoldable Above : List Object → Watcher → Type 0
  Above before w =
      (item : Object)
      → is_numbered parse_int item ≡ true
      → is_resource_version_higher parse_int item.resource_version w.last_resource_version
        ≡ every (is_above parse_int item) before

  every-append :
      {A : Type 0} (p : A → Bool) (xs : List A) (x : A)
      → every p (xs ++ x ∷ []) ≡ (every p xs && p x)
  unfolding every
  every-append p [] x = ground arith
  every-append p (y ∷ ys) x = ground (arith, every-append p ys x)

  -- An object above another is above all that the other is above, and an object that is above all
  -- of some is above one that is not.
  every-is_above :
      (a b : Object) (before : List Object)
      → is_above parse_int b a ≡ true
      → every (is_above parse_int a) before ≡ true
      → every (is_above parse_int b) before ≡ true
  unfolding every
  every-is_above a b [] h k = refl
  every-is_above a b (x ∷ xs) h k = ground (arith, every-is_above a b xs)

  is_above-every :
      (a b : Object) (before : List Object)
      → is_numbered parse_int a ≡ true
      → is_numbered parse_int b ≡ true
      → every (is_above parse_int b) before ≡ true
      → every (is_above parse_int a) before ≡ false
      → is_above parse_int b a ≡ true
  unfolding every
  is_above-every a b [] n m h k = ground arith
  is_above-every a b (x ∷ xs) n m h k = ground (arith, is_above-every a b xs)

  not_empty :
      (item : Object) → is_numbered parse_int item ≡ true → (item.resource_version == "") ≡ false
  not_empty item h = elim (Bool-cases (item.resource_version == "")) [
    | inl e ↦ absurd (ground (arith, h, ap parse_int (==→≡ item.resource_version "" e) ∙ rejects))
    | inr e ↦ e
  ]

  higher-not_empty :
      (v last : String)
      → (last == "") ≡ false
      → is_resource_version_higher parse_int v last ≡ is_greater (parse_int v) (parse_int last)
  unfolding is_resource_version_higher
  higher-not_empty v last h =
      if_false (last == "") true (is_greater (parse_int v) (parse_int last)) h

  list_object-higher :
      (item : Object) (w : Watcher)
      → is_resource_version_higher parse_int item.resource_version w.last_resource_version ≡ true
      → list_object parse_int item w
        ≡ with_notice (add item) (record w { last_resource_version = item.resource_version })
  unfolding list_object
  list_object-higher item w h =
      if_true (is_resource_version_higher parse_int item.resource_version w.last_resource_version) _
        w h

  list_object-lower :
      (item : Object) (w : Watcher)
      → is_resource_version_higher parse_int item.resource_version w.last_resource_version ≡ false
      → list_object parse_int item w ≡ w
  unfolding list_object
  list_object-lower item w h =
      if_false (is_resource_version_higher parse_int item.resource_version w.last_resource_version)
        _ w h

  Above-list_object :
      (before : List Object) (item : Object) (w : Watcher)
      → is_numbered parse_int item ≡ true
      → Above before w
      → Above (before ++ item ∷ []) (list_object parse_int item w)
  unfolding Above
  Above-list_object before item w numbered h x n =
      let last = λ (u : Watcher).
        is_resource_version_higher parse_int x.resource_version u.last_resource_version in
      elim (Bool-cases
        (is_resource_version_higher parse_int item.resource_version w.last_resource_version)) [
          | inl higher ↦
              ap last (list_object-higher item w higher)
              ∙ higher-not_empty x.resource_version item.resource_version (not_empty item numbered)
              ∙ ground (
                arith,
                h item numbered,
                higher,
                every-append (is_above parse_int x) before item,
                every-is_above item x before,
              )
          | inr lower ↦
              ap last (list_object-lower item w lower)
              ∙ h x n
              ∙ ground (
                arith,
                h item numbered,
                lower,
                numbered,
                n,
                every-append (is_above parse_int x) before item,
                is_above-every item x before,
              )
        ]

  list_objects-highs :
      (before items : List Object) (w : Watcher)
      → Above before w
      → every (is_numbered parse_int) items ≡ true
      → (list_objects parse_int items w).notices
        ≡ w.notices ++ map add (highs parse_int before items)
  unfolding list_objects highs every Above
  list_objects-highs before [] w h n = sym (append-nil w.notices)
  list_objects-highs before (item ∷ items) w h n =
      let later = highs parse_int (before ++ item ∷ []) items in
      let rest =
        list_objects-highs (before ++ item ∷ []) items (list_object parse_int item w)
          (Above-list_object before item w
            (both (is_numbered parse_int item) (every (is_numbered parse_int) items) n).0 h)
          (both (is_numbered parse_int item) (every (is_numbered parse_int) items) n).1 in
      let own =
        h item (both (is_numbered parse_int item) (every (is_numbered parse_int) items) n).0 in
      elim (Bool-cases
        (is_resource_version_higher parse_int item.resource_version w.last_resource_version)) [
          | inl higher ↦
              rest
              ∙ ap (λ (u : Watcher). u.notices ++ map add later) (list_object-higher item w higher)
              ∙ append_assoc w.notices (add item ∷ []) (map add later)
              ∙ ap (λ l. w.notices ++ map add l)
                  (sym (
                    if_true (every (is_above parse_int item) before) (item ∷ later) later
                      (sym own ∙ higher)))
          | inr lower ↦
              rest
              ∙ ap (λ (u : Watcher). u.notices ++ map add later) (list_object-lower item w lower)
              ∙ ap (λ l. w.notices ++ map add l)
                  (sym (
                    if_false (every (is_above parse_int item) before) (item ∷ later) later
                      (sym own ∙ lower)))
        ]

  list_objects-append :
      (xs ys : List Object) (w : Watcher)
      → list_objects parse_int (xs ++ ys) w
        ≡ list_objects parse_int ys (list_objects parse_int xs w)
  unfolding list_objects
  list_objects-append [] ys w = refl
  list_objects-append (x ∷ xs) ys w = list_objects-append xs ys (list_object parse_int x w)

  list_namespaces-all_objects :
      (answers : List (List Object)) (w : Watcher)
      → list_namespaces parse_int (map some answers) w
        ≡ some (list_objects parse_int (all_objects answers) w)
  unfolding list_namespaces list_objects all_objects
  list_namespaces-all_objects [] w = refl
  list_namespaces-all_objects (items ∷ answers) w =
      list_namespaces-all_objects answers (list_objects parse_int items w)
      ∙ ap some (sym (list_objects-append items (all_objects answers) w))

  Above-fresh : Above [] fresh_watch
  unfolding Above every is_resource_version_higher
  Above-fresh item n = refl

  -- With the listing before the watch, when all listings succeed and every object has a number for
  -- its version, the watch starts after notices for those listed objects only whose version is
  -- above those of all objects listed before, in any namespace.
  pub start-highs :
      (answers : List (List Object))
      → every (is_numbered parse_int) (all_objects answers) ≡ true
      → (w : Watcher) × ((start parse_int true (some (map some answers)) true ≡ some w)
          × (w.notices ≡ map add (highs parse_int [] (all_objects answers))))
  unfolding start
  start-highs answers n = (
    list_objects parse_int (all_objects answers) fresh_watch,
    (
      ap (λ o. o >>= λ listed. some listed) (list_namespaces-all_objects answers fresh_watch),
      list_objects-highs [] (all_objects answers) fresh_watch Above-fresh n,
    ),
  )
