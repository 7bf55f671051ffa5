-- ===== src/Streams.antt =====
-- src/providers/redis/RedisStreams.ts: messages on Redis streams, sent with retries, read in
-- batches, over connections that are made again when they are lost.
pub mod Delivery
pub mod Interleave
pub mod Reading
pub mod Groups
pub mod Trimming
pub mod Reconnection
mod Tests
use startup_api.Base.{
  ℕ, zero, suc, ◌+◌, ◌*◌, ◌^◌, min, String, Bool, true, false, not, ◌||◌, ◌&&◌, Option, none, some,
  List, [], ◌∷◌, ◌++◌, str_eq, if◌then◌else◌, length, ltb,
}
use startup_api.Base.Value.{Value, str, Fields, end, field, put}
use startup_api.Base.Exec.{
  Message, literal, Error, plain, Result, ok, err, Exec, pure, raise, raise_if, catch_with, ◌>>=◌,
  ◌>>◌,
}

abbrev pub max_retries : ℕ
max_retries = 3

abbrev pub retry_delay : ℕ
retry_delay = 1000

abbrev pub initial_reconnection_delay : ℕ
initial_reconnection_delay = 5000

abbrev pub max_reconnection_delay : ℕ
max_reconnection_delay = 60000

-- A message as Redis holds it: names and JSON texts in turn.
module _ (stringify : Value → String) (parse : String → Option Value) where
  unfoldable pub serialize_message : Fields → List String
  serialize_message end = []
  serialize_message (field k v fs) = k ∷ stringify v ∷ serialize_message fs

  -- A text that is not JSON is kept as it is.
  abbrev pub parsed : String → Value
  parsed text = elim (parse text) [ none ↦ str text | some v ↦ v ]

  -- The loop, with the message so far. A name without a value adds nothing that can be read.
  unfoldable pub deserialize_from : List String → Fields → Fields
  deserialize_from [] message = message
  deserialize_from (key ∷ []) message = message
  deserialize_from (key ∷ value ∷ rest) message =
      deserialize_from rest (put key (parsed value) message)

  abbrev pub deserialize_message : List String → Fields
  deserialize_message fields = deserialize_from fields end

-- `S` is what the operations work on; `wait` is the time that passes.
module _ {S : Type 0} (wait : ℕ → S → S) where
  -- The loop, with the attempts that are left.
  unfoldable pub retry_from : {R : Type 0} → ℕ → Exec S R → Exec S R
  retry_from zero operation s = (err (plain (literal "Max retries reached")), s)
  retry_from (suc left) operation s =
      let (r, s') = operation s in
      let again = retry_from left operation (wait retry_delay s') in
      elim r [ ok a ↦ (ok a, s') | err e ↦ elim left [ zero ↦ (err e, s') | suc l ↦ again ] ]

  abbrev pub retry_operation : {R : Type 0} → Exec S R → Exec S R
  retry_operation operation = retry_from max_retries operation

  -- The body of `catch`: every pass of the loop starts its own retries, and none ends the loop. The
  -- passes are taken one after the other.
  unfoldable pub retries : ℕ → Exec S Unit → S → S
  retries zero xadd s = s
  retries (suc attempts) xadd s = retries attempts xadd (retry_operation xadd s).1

  unfoldable pub add_to_stream :
      (Value → String)
      → (String → Option Value)
      → Bool
      → (List String → Exec S Unit)
      → Fields
      → Exec S Unit
  add_to_stream stringify parse writer_ready xadd message s =
      if not writer_ready
      then (err (plain (literal "Writer connection is not active.")), s)
      else if ltb 1000 (length (serialize_message stringify parse message))
      then (err (plain (literal "Message size exceeds the allowed limit.")), s)
      else let (r, s') = xadd (serialize_message stringify parse message) s in
        elim r [
          | ok _ ↦ (ok tt, s')
          | err e ↦
              (ok tt, retries max_retries (xadd (serialize_message stringify parse message)) s')
        ]

  -- A batch that was read: the identifiers of the messages whose callback did not throw, to be
  -- acknowledged. The callbacks are taken one after the other.
  unfoldable pub process_batch :
      (Fields → Exec S Unit) → List (String × Fields) → S → List String × S
  process_batch callback [] s = ([], s)
  process_batch callback ((id, message) ∷ rest) s =
      let (r, s') = callback message s in
      let (ids, s'') = process_batch callback rest s' in
      elim r [ ok _ ↦ (id ∷ ids, s'') | err e ↦ (ids, s'') ]

-- The connections; `waits` are the delays that have been waited for, the last one first.
pub record Connections : Type 0 where
  pub reader_ready : Bool
  pub writer_ready : Bool
  pub shutting_down : Bool
  pub trim_interval : Bool
  pub reconnection_attempts : ℕ
  pub waits : List ℕ

unfoldable pub reconnection_delay : ℕ → ℕ
reconnection_delay attempts = min (initial_reconnection_delay * 2 ^ attempts) max_reconnection_delay

unfoldable pub shutdown : Connections → Connections
shutdown c = record c {
  shutting_down = true;
  trim_interval = false;
  reader_ready = false;
  writer_ready = false;
}

-- An attempt to connect after a wait: whether the service was shut down during the wait, and whether
-- the attempt succeeds.
pub record Attempt : Type 0 where
  pub shut_down : Bool
  pub succeeds : Bool

-- The wait before an attempt; the attempt is made whether or not the service was shut down in it.
unfoldable pub waited : Attempt → Connections → Connections
unfolding shutdown
waited a c =
    let attempts = suc c.reconnection_attempts in
    let c' = record c {
      reconnection_attempts = attempts;
      waits = reconnection_delay attempts ∷ c.waits;
    } in
    if a.shut_down then shutdown c' else c'

abbrev pub connected : Connections → Connections
connected c = record c { reader_ready = true; writer_ready = true; reconnection_attempts = 0 }

-- `scheduleReconnect`, with the `connectToRedis` after its wait, for the attempts to come; it is still
-- waiting when they are used up.
unfoldable pub schedule_reconnect : List Attempt → Connections → Connections
unfolding waited
schedule_reconnect [] c = if c.shutting_down then c else record c {
  reconnection_attempts = suc c.reconnection_attempts;
  waits = reconnection_delay (suc c.reconnection_attempts) ∷ c.waits;
}
schedule_reconnect (a ∷ rest) c =
    let again = schedule_reconnect rest (waited a c) in
    if c.shutting_down then c else if a.succeeds then connected (waited a c) else again

-- `connectToRedis`, whose first attempt succeeds or not.
unfoldable pub connect_to_redis : Bool → List Attempt → Connections → Connections
connect_to_redis succeeds attempts c =
    if succeeds then connected c else schedule_reconnect attempts c

-- `handleRedisError` and `handleRedisClose`
unfoldable pub connection_lost : List Attempt → Connections → Connections
connection_lost attempts c = if c.shutting_down then c else schedule_reconnect attempts c

unfoldable pub init : Bool → Bool → Bool → List Attempt → Exec Connections Unit
init redis redis_streams succeeds attempts = do
  raise_if (not redis || not redis_streams)
      (plain (literal "Redis or RedisStreams modules are not enabled."))
  λ c. (ok tt, record (connect_to_redis succeeds attempts c) { trim_interval = true })

-- `MAXLEN ~ n` on a stream whose length is the state; nothing happens without a writer.
unfoldable pub trim_stream : {S : Type 0} → (ℕ → Exec S Unit) → ℕ → Connections → S → S
trim_stream xtrim max_len c s = if c.writer_ready then (xtrim max_len s).1 else s

unfoldable pub delete_stream : {S : Type 0} → Exec S Unit → Connections → S → S
delete_stream del c s = if c.writer_ready then (del s).1 else s
