-- ===== src/Streams/Reading.antt =====
-- The loop `readFromStream` of RedisStreams.ts, with its consumer group.
use startup_api.Base.{
  ℕ, String, ◌≡◌, refl, ap, sym, ◌∙◌, Bool, true, false, not, ◌||◌, Bool-cases, inl, inr, List, [],
  ◌∷◌, ◌++◌, map, if◌then◌else◌, arith,
}
use mathlib.Core.List.{append-nil, append_assoc}
use startup_api.Base.Value.{Fields}
use startup_api.Base.Exec.{
  literal, Error, plain, Result, ok, err, Exec, pure, catch_with, ◌>>◌, result_cases,
}
use startup_api.Streams.Interleave.{Interleave, lefts, rights, all_left}
use startup_api.Streams.{Attempt, Connections, process_batch, schedule_reconnect}

abbrev pub content : String × Fields → Fields
content (id, message) = message

abbrev pub identifier : String × Fields → String
identifier (id, message) = id

-- A stream with its group. `unread` are the messages that no consumer of the group has read, all of them
-- before the group is made; XREADGROUP with `>` gives the next of the unread ones, at most as many as are
-- asked for. A read whose answer does not arrive may have taken messages all the same, which are then
-- pending and not given again: `lost` are those. Acknowledging and making the group may fail; an answer
-- that the group is there already is no failure.
pub record Group : Type 1 where
  pub Db : Type 0
  pub unread : Db → List (String × Fields)
  pub lost : ℕ → Db → List (String × Fields)
  pub read : ℕ → Db → Result (List (String × Fields)) × Db
  pub acknowledge : List String → Db → Result {0} Unit × Db
  pub make : Db → Result {0} Unit × Db
  pub is_no_group : Error → Bool
  pub unread-read :
      (n : ℕ) (ms : List (String × Fields)) (d : Db)
      → (read n d).0 ≡ ok ms
      → ms ++ unread (read n d).1 ≡ unread d
  pub unread-failed :
      (n : ℕ) (e : Error) (d : Db)
      → (read n d).0 ≡ err e
      → lost n d ++ unread (read n d).1 ≡ unread d
  pub unread-acknowledge : (ids : List String) (d : Db) → unread (acknowledge ids d).1 ≡ unread d
  pub unread-make : (d : Db) → unread (make d).1 ≡ unread d

abbrev pub batch_size : ℕ
batch_size = 100

-- `handled` are the messages that the callback was given.
pub record Reader (Db : Type 0) : Type 0 where
  pub db : Db
  pub connections : Connections
  pub handled : List Fields

-- `accepts` says of a message whether the callback returns or throws.
module _ (G : Group) (accepts : Fields → Bool) where
  open G use {Db, unread}

  unfoldable pub callback : Fields → Exec (Reader Db) Unit
  callback message s = (
    if accepts message then ok tt else err (plain (literal "Callback failed")),
    record s { handled = s.handled ++ message ∷ [] },
  )

  unfoldable pub acknowledge_all : List String → Db → Result {0} Unit × Db
  acknowledge_all [] d = (ok tt, d)
  acknowledge_all (id ∷ ids) d = G.acknowledge (id ∷ ids) d

  unfoldable pub handle_batch : List (String × Fields) → Exec (Reader Db) Unit
  handle_batch messages s =
      let (ids, s') = process_batch (λ ms s. s) callback messages s in
      let (r, d) = acknowledge_all ids s'.db in (r, record s' { db = d })

  -- The `catch` of a pass, with the attempts to connect that may follow. What is thrown where the group is
  -- made ends the loop.
  unfoldable pub on_error : List Attempt → Error → Exec (Reader Db) Unit
  on_error attempts e s =
      let (r, d) = G.make s.db in
      if G.is_no_group e
      then (r, record s { db = d })
      else (ok tt, record s { connections = schedule_reconnect attempts s.connections })

  -- One pass of the loop.
  unfoldable pub read_once : List Attempt → Exec (Reader Db) Unit
  read_once attempts s =
      let (r, d) = G.read batch_size s.db in
      let s' : Reader Db = record s { db = d } in
      if s.connections.shutting_down
      then (ok tt, s)
      else if not s.connections.reader_ready
      then (ok tt, record s { connections = schedule_reconnect attempts s.connections })
      else elim r [
        | err e ↦ on_error attempts e s'
        | ok messages ↦ catch_with (handle_batch messages) (on_error attempts) s'
      ]

  unfoldable pub read_from_stream : List (List Attempt) → Exec (Reader Db) Unit
  read_from_stream [] = pure tt
  read_from_stream (attempts ∷ rest) = do read_once attempts; read_from_stream rest

  -- The messages that a pass has lost with an answer that did not arrive.
  abbrev pub lost_once : Reader Db → List Fields
  lost_once s =
      if s.connections.shutting_down
      then []
      else if not s.connections.reader_ready
      then []
      else elim (G.read batch_size s.db).0 [
        | ok ms ↦ []
        | err e ↦ map content (G.lost batch_size s.db)
      ]

  abbrev pub lost_in : List (List Attempt) → Reader Db → List Fields
  lost_in [] s = []
  lost_in (attempts ∷ rest) s =
      let later = lost_in rest (read_once attempts s).1 in
      lost_once s ++ elim (read_once attempts s).0 [ ok _ ↦ later | err e ↦ [] ]

  unread-acknowledge_all :
      (ids : List String) (d : Db) → unread (acknowledge_all ids d).1 ≡ unread d
  unfolding acknowledge_all
  unread-acknowledge_all [] d = refl
  unread-acknowledge_all (id ∷ ids) d = G.unread-acknowledge (id ∷ ids) d

  batch_lem :
      (ms : List (String × Fields)) (s : Reader Db)
      → let (ids, s') = process_batch (λ n s. s) callback ms s in
        (s'.db ≡ s.db) × (s'.handled ≡ s.handled ++ map content ms)
  unfolding process_batch callback
  batch_lem [] s = (refl, sym (append-nil s.handled))
  batch_lem ((id, message) ∷ ms) s =
      let s1 : Reader Db = record s { handled = s.handled ++ message ∷ [] } in
      ground (arith, batch_lem ms s1, append_assoc s.handled (message ∷ []) (map content ms))

  map-append :
      (xs ys : List (String × Fields)) → map content (xs ++ ys) ≡ map content xs ++ map content ys
  map-append [] ys = refl
  map-append ((i, m) ∷ xs) ys = ap (λ ms. m ∷ ms) (map-append xs ys)

  -- What a step does: it hands over `new`, loses `lost`, and leaves the rest unread.
  abbrev Moves : List Fields → List Fields → Reader Db → Reader Db → Type 0
  Moves new lost s s' =
      (s'.handled ≡ s.handled ++ new)
      × (map content (unread s.db) ≡ new ++ (lost ++ map content (unread s'.db)))

  on_error-Moves :
      (attempts : List Attempt) (e : Error) (s : Reader Db)
      → Moves [] [] s (on_error attempts e s).1
  unfolding on_error
  on_error-Moves attempts e s = ground (arith, G.unread-make s.db, append-nil s.handled)

  handle_batch-Moves :
      (ms : List (String × Fields)) (s : Reader Db)
      → ((handle_batch ms s).1.handled ≡ s.handled ++ map content ms)
        × (unread (handle_batch ms s).1.db ≡ unread s.db)
  unfolding handle_batch
  handle_batch-Moves ms s =
      let ids = (process_batch (λ n s. s) callback ms s).0 in
      ground (arith, batch_lem ms s, unread-acknowledge_all ids s.db)

  read_ok :
      (attempts : List Attempt) (ms : List (String × Fields)) (d : Db) (s : Reader Db)
      → G.read batch_size s.db ≡ (ok ms, d)
      → s.connections.shutting_down ≡ false
      → s.connections.reader_ready ≡ true
      → Moves (map content ms) [] s (read_once attempts s).1
  unfolding read_once
  read_ok attempts ms d s h f t =
      let s₁ : Reader Db = record s { db = d } in
      let s₂ = (handle_batch ms s₁).1 in
      let whole = G.unread-read batch_size ms s.db (ap (λ x. x.0) h) in
      elim (result_cases (handle_batch ms s₁).0) [
        | inl (u, e) ↦
            ground (arith, h, f, t, e, handle_batch-Moves ms s₁, whole, map-append ms (unread d))
        | inr (x, e) ↦ ground (
          arith,
          h,
          f,
          t,
          e,
          handle_batch-Moves ms s₁,
          whole,
          map-append ms (unread d),
          on_error-Moves attempts x s₂,
          append-nil (s.handled ++ map content ms),
        )
      ]

  read_failed :
      (attempts : List Attempt) (e : Error) (d : Db) (s : Reader Db)
      → G.read batch_size s.db ≡ (err e, d)
      → s.connections.shutting_down ≡ false
      → s.connections.reader_ready ≡ true
      → Moves [] (map content (G.lost batch_size s.db)) s (read_once attempts s).1
  unfolding read_once
  read_failed attempts e d s h f t = ground (
    arith,
    h,
    f,
    t,
    on_error-Moves attempts e (record s { db = d }),
    G.unread-failed batch_size e s.db (ap (λ x. x.0) h),
    map-append (G.lost batch_size s.db) (unread d),
    append-nil s.handled,
  )

  idle :
      (attempts : List Attempt) (s : Reader Db)
      → (s.connections.shutting_down || not s.connections.reader_ready) ≡ true
      → Moves [] [] s (read_once attempts s).1 × (lost_once s ≡ [])
  unfolding read_once
  idle attempts s h = ground (arith, h, append-nil s.handled)

  running :
      (attempts : List Attempt) (r : Result (List (String × Fields))) (d : Db) (s : Reader Db)
      → G.read batch_size s.db ≡ (r, d)
      → s.connections.shutting_down ≡ false
      → s.connections.reader_ready ≡ true
      → (new : List Fields) × Moves new (lost_once s) s (read_once attempts s).1
  running attempts (ok ms) d s h f t =
      let none_lost : lost_once s ≡ [] = ground (arith, h, f, t) in
      (map content ms, rw none_lost (read_ok attempts ms d s h f t))
  running attempts (err e) d s h f t =
      let all : lost_once s ≡ map content (G.lost batch_size s.db) = ground (arith, h, f, t) in
      ([], rw all (read_failed attempts e d s h f t))

  read_once-Moves :
      (attempts : List Attempt) (s : Reader Db)
      → (new : List Fields) × Moves new (lost_once s) s (read_once attempts s).1
  read_once-Moves attempts s =
      elim (Bool-cases (s.connections.shutting_down || not s.connections.reader_ready)) [
        | inl h ↦ let (moves, nothing) = idle attempts s h in ([], rw nothing moves)
        | inr h ↦ running attempts _ _ s refl (ground (arith, h)) (ground (arith, h))
      ]

  -- What was handled since, and how what is left, what was handled and what was lost make up the stream.
  abbrev Continues : Reader Db → Reader Db → List Fields → Type 0
  Continues s s' lost =
      (new : List Fields) × (s'.handled ≡ s.handled ++ new)
      × Interleave (new ++ map content (unread s'.db)) lost (map content (unread s.db))

  Continues-Moves :
      (new lost : List Fields) (s s₁ s' : Reader Db) (later : List Fields)
      → Moves new lost s s₁
      → Continues s₁ s' later
      → Continues s s' (lost ++ later)
  Continues-Moves new lost s s₁ s' later (h, u) (more, g, i) = (
    new ++ more,
    g ∙ ap (λ xs. xs ++ more) h ∙ append_assoc s.handled new more,
    rw (append_assoc new more (map content (unread s'.db)), u)
        (lefts new (more ++ map content (unread s'.db)) (lost ++ later)
          (lost ++ map content (unread s₁.db))
          (rights lost (more ++ map content (unread s'.db)) later (map content (unread s₁.db)) i)),
  )

  Continues-refl : (s : Reader Db) → Continues s s []
  Continues-refl s = ([], sym (append-nil s.handled), all_left (map content (unread s.db)))

  went_on :
      (attempts : List Attempt) (rest : List (List Attempt)) (s : Reader Db) (u : Unit)
      → (read_once attempts s).0 ≡ ok u
      → read_from_stream (attempts ∷ rest) s ≡ read_from_stream rest (read_once attempts s).1
  unfolding read_from_stream
  went_on attempts rest s u h = ground (arith, h)

  ended :
      (attempts : List Attempt) (rest : List (List Attempt)) (s : Reader Db) (e : Error)
      → (read_once attempts s).0 ≡ err e
      → read_from_stream (attempts ∷ rest) s ≡ (err e, (read_once attempts s).1)
  unfolding read_from_stream
  ended attempts rest s e h = ground (arith, h)

  -- Whatever fails on the way, reading, acknowledging, making the group, the connections or the callback: the
  -- messages that the callback was given since, followed by those that are not read, are those that were not
  -- read before, in their order and none twice, without those that were lost with the answer of a read
  -- that failed; those for which the callback throws were handed to it once and are not again.
  pub handled_in_order :
      (passes : List (List Attempt)) (s : Reader Db)
      → let s' = (read_from_stream passes s).1 in
        (new : List Fields) × (s'.handled ≡ s.handled ++ new)
        × Interleave
            (new ++ map content (unread s'.db))
            (lost_in passes s)
            (map content (unread s.db))
  handled_in_order [] s = unfold read_from_stream in Continues-refl s
  handled_in_order (attempts ∷ rest) s =
      let (new, moves) = read_once-Moves attempts s in
      let s₁ = (read_once attempts s).1 in
      elim (result_cases (read_once attempts s).0) [
        | inl (u, e) ↦ rw (went_on attempts rest s u e) (
            rw e (
              Continues-Moves new (lost_once s) s s₁ (read_from_stream rest s₁).1 (lost_in rest s₁)
                moves (handled_in_order rest s₁)))
        | inr (x, e) ↦
            rw (ended attempts rest s x e)
              (rw e (Continues-Moves new (lost_once s) s s₁ s₁ [] moves (Continues-refl s₁)))
      ]
