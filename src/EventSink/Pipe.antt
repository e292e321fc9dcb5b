-- ===== src/EventSink/Pipe.antt =====
-- One kind of event in the sink: a buffered channel, and the map to which a worker moves the
-- events.
use kapprofiler.Base.{
  ℕ, Bool, true, false, String, Option, none, some, List, [], ◌∷◌, ◌++◌, length, ltb, if◌then◌else◌,
}
use kapprofiler.MapDb.Defs.{InMemoryMapDb, put, get_n_clean, new_in_memory_map_db}

-- A Go channel with a buffer. The oldest value comes first.
pub record Channel (A : Type 0) : Type 0 where
  pub buffer : List A
  pub capacity : ℕ
  pub is_closed : Bool

pub record Pipe (A : Type 0) : Type 0 where
  pub channel : Channel A
  pub db : InMemoryMapDb A

-- What a call does: it returns with the new state, it waits for another goroutine, or it panics.
pub data Outcome (S : Type 0) : Type 0 where
  done : S → Outcome S
  blocked : Outcome S
  panicked : Outcome S

module _ {A : Type 0} where
  -- `make(chan A, 10000)` and `NewInMemoryMapDB[A](100)`
  unfoldable pub make_pipe : Pipe A
  unfolding new_in_memory_map_db
  make_pipe = record {
    channel = record { buffer = []; capacity = 10000; is_closed = false };
    db = new_in_memory_map_db 100;
  }

  -- `ch <- event`
  unfoldable pub send : A → Pipe A → Outcome (Pipe A)
  send a p =
      if p.channel.is_closed
      then panicked
      else if ltb (length p.channel.buffer) p.channel.capacity
      then done (record p { channel = record (p.channel) { buffer = p.channel.buffer ++ a ∷ [] } })
      else blocked

  -- `close(ch)`
  unfoldable pub close_channel : Pipe A → Outcome (Pipe A)
  close_channel p =
      if p.channel.is_closed
      then panicked
      else done (record p { channel = record (p.channel) { is_closed = true } })

  abbrev pub stored : Pipe A → List A → Option (InMemoryMapDb A) → Outcome (Pipe A)
  stored p rest none = panicked
  stored p rest (some db) =
      done (record { channel = record (p.channel) { buffer = rest }; db = db })

  abbrev pub receive : (A → String) → Pipe A → List A → Outcome (Pipe A)
  receive bucket p [] = if p.channel.is_closed then done p else blocked
  receive bucket p (a ∷ rest) = stored p rest (put (bucket a) a p.db)

  -- One round of `for event := range ch { db.Put(bucket(event), event) }`. On a channel that is
  -- closed and empty the loop has ended.
  unfoldable pub work : (A → String) → Pipe A → Outcome (Pipe A)
  unfolding put
  work bucket p = receive bucket p p.channel.buffer

  -- `db.GetNClean(bucket)`
  unfoldable pub collect : String → Pipe A → List A × Pipe A
  unfolding get_n_clean
  collect bucket p = let (events, db) = get_n_clean bucket p.db in (events, record p { db = db })
