-- ===== src/EventSink/Worker.antt =====
-- The whole loop of a worker, `for event := range ch { db.Put(bucket(event), event) }`, which ends
-- when the channel is closed and empty. The fuel is the number of rounds.
use kapprofiler.Base.{
  ℕ, zero, suc, ◌<◌, ◌≡◌, refl, Bool, true, false, String, string_comparable, Option, none, some,
  List, [], ◌∷◌, ◌++◌, length, arith, ap, ◌∙◌, sym, if◌then◌else◌, Option-cases, inl, inr,
  append-nil,
}
use kapprofiler.MapDb.Defs.{InMemoryMapDb, put, get}
use kapprofiler.EventSink.Pipe.{Pipe}
use kapprofiler.EventSink.Delivery.{in_bucket, put-flow}

-- What became of the loop: it ended, it waits for a sender, it panicked, or the fuel ran out.
pub data Loop (A : Type 0) : Type 0 where
  ended : Pipe A → Loop A
  waits : Pipe A → Loop A
  panics : Loop A
  unfinished : Loop A

-- The pipe without the oldest event, which was put.
abbrev pub without_oldest : {A : Type 0} → Pipe A → List A → InMemoryMapDb A → Pipe A
without_oldest p rest db = record { channel = record (p.channel) { buffer = rest }; db = db }

unfoldable pub event_worker : {A : Type 0} → (A → String) → ℕ → Pipe A → Loop A
unfolding put
event_worker bucket zero p = unfinished
event_worker bucket (suc n) p = elim p.channel.buffer [
  | [] ↦ if p.channel.is_closed then ended p else waits p
  | a ∷ rest ↦ elim (put (bucket a) a p.db) [
    | none ↦ panics
    | some db ↦ event_worker bucket n (without_oldest p rest db)
  ]
]

-- Whether the map was not closed.
abbrev is_open_map : {V : Type 0} → Option V → Bool
is_open_map none = false
is_open_map (some m) = true

abbrev pub is_open : {A : Type 0} → InMemoryMapDb A → Bool
is_open db = is_open_map db.m

module _ {A : Type 0} (bucket : A → String) where
  put-open :
      (k : String) (a : A) (db : InMemoryMapDb A)
      → is_open db ≡ true
      → (db' : InMemoryMapDb A) × ((put k a db ≡ some db') × (is_open db' ≡ true))
  unfolding put
  put-open k a db h = elim (Option-cases (put k a db)) [
    | inl e ↦ absurd (ground arith)
    | inr (db', e) ↦ (db', (e, ground arith))
  ]

  event_worker-nil :
      (n : ℕ) (p : Pipe A)
      → p.channel.buffer ≡ []
      → event_worker bucket (suc n) p ≡ (if p.channel.is_closed then ended p else waits p)
  unfolding event_worker
  event_worker-nil n p h = ground arith

  event_worker-cons :
      (n : ℕ) (p : Pipe A) (a : A) (rest : List A) (db : InMemoryMapDb A)
      → p.channel.buffer ≡ a ∷ rest
      → put (bucket a) a p.db ≡ some db
      → event_worker bucket (suc n) p ≡ event_worker bucket n (without_oldest p rest db)
  unfolding event_worker
  event_worker-cons n p a rest db h k = ground arith

  -- The channel of `q` is empty, and its map has the events that waited in the channel of `p`.
  pub record Drained (p q : Pipe A) : Type 0 where
    pub empty : q.channel.buffer ≡ []
    pub stored : (k : String) → get k q.db ≡ get k p.db ++ in_bucket bucket k p.channel.buffer

  -- With more rounds than events that wait in the channel, and a map that was not closed, the loop
  -- comes to its end if the channel is closed, and to wait for a sender if it is not; by then
  -- every event that waited is in the map, in its bucket behind those that were there.
  pub event_worker-ends :
      (n : ℕ) (buffer : List A) (p : Pipe A)
      → p.channel.buffer ≡ buffer
      → length buffer < n
      → is_open p.db ≡ true
      → (q : Pipe A) × ((event_worker bucket n p
            ≡ (if p.channel.is_closed then ended q else waits q))
          × Drained p q)
  unfolding in_bucket
  event_worker-ends zero buffer p e fuel open_map = absurd (omega (arith, fuel))
  event_worker-ends (suc n) [] p e fuel open_map = (
    p,
    (
      event_worker-nil n p e,
      record { empty = e; stored = λ k. rw e (sym (append-nil (get k p.db))) },
    ),
  )
  event_worker-ends (suc n) (a ∷ rest) p e fuel open_map =
      let (db, was_put) = put-open (bucket a) a p.db open_map in
      let (q, ends) =
        event_worker-ends n rest (without_oldest p rest db) refl (omega (arith, fuel)) was_put.1 in
      (
        q,
        (
          event_worker-cons n p a rest db e was_put.0 ∙ ends.0,
          record {
            empty = ends.1.empty;
            stored = λ k.
                ends.1.stored k
                ∙ put-flow bucket k a p.db db rest was_put.0
                ∙ ap (λ l. get k p.db ++ in_bucket bucket k l) (sym e);
          },
        ),
      )
