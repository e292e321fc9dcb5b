-- ===== src/EventSink/Delivery.antt =====
-- Every event that a channel accepts reaches the collector once, in order, in its own bucket,
-- however sends, workers and the collector interleave.
use kapprofiler.Base.{
  String, string_comparable, some, List, [], ◌∷◌, ◌++◌, ◌≡◌, refl, sym, ap, ◌∙◌, arith,
  if◌then◌else◌, ◌==◌, append_assoc, append-nil, Bool-cases, Option-cases, inl, inr, ==→≡,
}
use kapprofiler.MapDb.Defs.{InMemoryMapDb, put, get, get_n_clean}
use kapprofiler.MapDb.Keys.{get-put, get-get_n_clean, get_n_clean-get}
use kapprofiler.MapDb.Delivery.{taken}
use kapprofiler.EventSink.Pipe.{receive, Pipe, done, make_pipe, send, work, collect}

-- What the sends, the rounds of the worker and the collector make of a pipe, with the events that
-- were accepted and the answers that the collector got. A call that waits is no step.
pub data Reach {A : Type 0} (bucket : A → String)
    : Pipe A → List A → List (String × List A) → Type 0 where
  started : {p : Pipe A} → p ≡ make_pipe → Reach bucket p [] []
  sent :
      {p p' : Pipe A} {s s' : List A} {t : List (String × List A)} (a : A)
      → Reach bucket p s t
      → send a p ≡ done p'
      → s' ≡ s ++ a ∷ []
      → Reach bucket p' s' t
  worked :
      {p p' : Pipe A} {s : List A} {t : List (String × List A)}
      → Reach bucket p s t
      → work bucket p ≡ done p'
      → Reach bucket p' s t
  collected :
      {p p' : Pipe A} {s : List A} {t t' : List (String × List A)} (k : String) (events : List A)
      → Reach bucket p s t
      → collect k p ≡ (events, p')
      → t' ≡ t ++ (k, events) ∷ []
      → Reach bucket p' s t'

module _ {A : Type 0} (bucket : A → String) where
  -- The events of a bucket.
  unfoldable pub in_bucket : String → List A → List A
  in_bucket k [] = []
  in_bucket k (a ∷ xs) = if bucket a == k then a ∷ in_bucket k xs else in_bucket k xs

  pub in_bucket-append :
      (k : String) (xs ys : List A) → in_bucket k (xs ++ ys) ≡ in_bucket k xs ++ in_bucket k ys
  unfolding in_bucket
  in_bucket-append k [] ys = refl
  in_bucket-append k (x ∷ xs) ys = ground (arith, in_bucket-append k xs ys)

  -- What was handed out, what is in the map and what is in the channel, of one bucket.
  abbrev pub flow : String → Pipe A → List (String × List A) → List A
  flow k p t = taken k t ++ get k p.db ++ in_bucket k p.channel.buffer

  send_lem :
      (a : A) (p p' : Pipe A)
      → send a p ≡ done p'
      → (p'.channel.buffer ≡ p.channel.buffer ++ a ∷ []) × (p'.db ≡ p.db)
  unfolding send
  send_lem a p p' h = ground arith

  send-flow :
      (k : String) (a : A) (p p' : Pipe A) (t : List (String × List A))
      → send a p ≡ done p'
      → flow k p' t ≡ flow k p t ++ in_bucket k (a ∷ [])
  send-flow k a p p' t h =
      let (b, d) = send_lem a p p' h in
      rw (b, d, in_bucket-append k p.channel.buffer (a ∷ []), ← append_assoc) refl

  pub put-flow :
      (k : String) (a : A) (db db' : InMemoryMapDb A) (rest : List A)
      → put (bucket a) a db ≡ some db'
      → get k db' ++ in_bucket k rest ≡ get k db ++ in_bucket k (a ∷ rest)
  unfolding in_bucket
  put-flow k a db db' rest h = elim (Bool-cases (bucket a == k)) [
    | inl same ↦
        rw (get-put (bucket a) k a db db' h, same, ==→≡ (bucket a) k same)
          (append_assoc (get k db) (a ∷ []) (in_bucket k rest))
    | inr other ↦ rw (get-put (bucket a) k a db db' h, other) refl
  ]

  receive-flow :
      (k : String) (p p' : Pipe A) (buffer : List A)
      → p.channel.buffer ≡ buffer
      → receive bucket p buffer ≡ done p'
      → get k p'.db ++ in_bucket k p'.channel.buffer ≡ get k p.db ++ in_bucket k buffer
  receive-flow k p p' [] e h = ground arith
  receive-flow k p p' (a ∷ rest) e h = elim (Option-cases (put (bucket a) a p.db)) [
    | inl f ↦ absurd (ground arith)
    | inr (db, f) ↦
        let moved : p' ≡ record { channel = record (p.channel) { buffer = rest }; db = db } =
          ground arith in
        rw moved (put-flow k a p.db db rest f)
  ]

  taken-append :
      (k : String) (t u : List (String × List A)) → taken k (t ++ u) ≡ taken k t ++ taken k u
  unfolding taken
  taken-append k [] u = refl
  taken-append k ((j, vs) ∷ t) u =
      ground (arith, taken-append k t u, append_assoc vs (taken k t) (taken k u))

  collect-step :
      (k j : String) (db : InMemoryMapDb A) (t : List (String × List A))
      → taken k (t ++ (j, (get_n_clean j db).0) ∷ []) ++ get k (get_n_clean j db).1
        ≡ taken k t ++ get k db
  unfolding taken
  collect-step k j db t = elim (Bool-cases (j == k)) [
    | inl same ↦
        rw (taken-append k t, same, get-get_n_clean j k db, same, get_n_clean-get, ==→≡ j k same)
          (simp (append-nil))
    | inr other ↦ rw (taken-append k t, other, get-get_n_clean j k db, other) (simp append-nil)
  ]

  collect-flow :
      (k j : String) (p : Pipe A) (t : List (String × List A))
      → flow k (collect j p).1 (t ++ (j, (collect j p).0) ∷ []) ≡ flow k p t
  unfolding collect taken
  collect-flow k j p t = ap (λ z. z ++ in_bucket k p.channel.buffer) (collect-step k j p.db t)

  -- Of each bucket: what the collector was handed, then what is stored, then what waits in the
  -- channel, is what was accepted, in order; nothing is lost, handed out twice or put in the bucket
  -- of another.
  pub Reach-flow :
      {p : Pipe A} {s : List A} {t : List (String × List A)} (k : String)
      → Reach bucket p s t
      → flow k p t ≡ in_bucket k s
  unfolding in_bucket taken make_pipe get work
  Reach-flow k (started e) = rw e refl
  Reach-flow k (sent {p = q} {p' = q'} {s = s} {t = t} a r e f) =
      send-flow k a q q' t e
      ∙ ap (λ z. z ++ in_bucket k (a ∷ [])) (Reach-flow k r)
      ∙ sym (rw f (in_bucket-append k s (a ∷ [])))
  Reach-flow k (worked {p = q} {p' = q'} {t = t} r e) =
      append_assoc (taken k t) (get k q'.db) _
      ∙ ap (λ z. taken k t ++ z) (receive-flow k q q' q.channel.buffer refl e)
      ∙ sym (append_assoc (taken k t) (get k q.db) _)
      ∙ Reach-flow k r
  Reach-flow k (collected {p = q} {p' = q'} {t = t} j events r e f) =
      let e₀ : (collect j q).0 ≡ events = ap (λ z. z.0) e in
      let e₁ : (collect j q).1 ≡ q' = ap (λ z. z.1) e in
      rw (f, ← e₀, ← e₁) (collect-flow k j q t ∙ Reach-flow k r)
