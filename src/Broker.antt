-- ===== src/Broker.antt =====
-- src/providers/rabbitmq/RabbitMQ.ts: a connection to the message broker that is made again when
-- it is lost, commands that are tried again, and consumers.
pub mod Last
pub mod Acks
pub mod Failure
pub mod Recovery
pub mod Messaging
pub mod Routing
mod Tests
use startup_api.Base.{
  ℕ, zero, suc, ◌+◌, ◌-◌, String, Bool, true, false, not, ◌&&◌, ◌||◌, Option, none, some, List, [],
  ◌∷◌, ◌++◌, get_elem?, if◌then◌else◌,
}
use startup_api.Base.Exec.{
  literal, Error, plain, Result, ok, err, Exec, pure, raise, raise_if, catch_with, ◌>>=◌, ◌>>◌,
}

abbrev pub retry_delay : ℕ
retry_delay = 5000

abbrev pub max_retries : ℕ
max_retries = 10

abbrev pub connect_retries : ℕ
connect_retries = 5

-- What `isChannelValid` reads of a channel.
pub record Channel : Type 0 where
  pub closing : Bool
  pub closed : Bool
  pub has_connection : Bool
  pub close_emitted : Bool
  pub destroyed : Bool

abbrev pub open_channel : Channel
open_channel = record {
  closing = false;
  closed = false;
  has_connection = true;
  close_emitted = false;
  destroyed = false;
}

unfoldable pub is_channel_valid : Option Channel → Bool
is_channel_valid none = false
is_channel_valid (some c) =
    not c.closing
    && (not c.closed && (c.has_connection && (not c.close_emitted && not c.destroyed)))

-- A channel of a connection that has closed.
abbrev pub cut : Option Channel → Option Channel
cut none = none
cut (some c) = some (record c { close_emitted = true })

-- A channel that has closed itself.
abbrev pub shut : Option Channel → Option Channel
shut none = none
shut (some c) = some (record c { closed = true })

-- The entries but for the one of this number.
abbrev pub drop_at {ℓ} : {A : Type ℓ} → ℕ → List A → List A
drop_at n [] = []
drop_at zero (x ∷ xs) = xs
drop_at (suc n) (x ∷ xs) = x ∷ drop_at n xs

-- `IConsumerConfig`, without its callback.
pub record Consumer : Type 0 where
  pub exchange : String
  pub queue : String
  pub routing_key : String

-- What is asked of the publishing channel.
pub data Command : Type 0 where
  sends asserts_exchange : String → String → Command
  publishes binds : String → String → String → Command
  creates_queue asserts_queue deletes_queue : String → Command

-- `consuming` are the entries of `consumerChannels`; `asked` counts the calls of the broker, and
-- `commands` and `waits` are the commands that it took and the delays, the last ones first.
pub record Rabbit : Type 0 where
  pub connection : Bool
  pub publish_channel : Option Channel
  pub consumer_channel : Option Channel
  pub consumers : List Consumer
  pub consuming : List Consumer
  pub reconnecting : Bool
  pub current_retries : ℕ
  pub asked : ℕ
  pub commands : List Command
  pub waits : List ℕ

abbrev pub Action : Type 0 → Type 0
Action R = Exec Rabbit R

abbrev pub delay : ℕ → Rabbit → Rabbit
delay ms s = record s { waits = ms ∷ s.waits }

-- The loop, with the rounds that are left: a delay follows each failure, the last one too.
unfoldable pub retry_operation : {R : Type 0} → ℕ → ℕ → Action R → Action R
retry_operation zero ms operation s =
    (err (plain (literal "Operation failed after multiple retries")), s)
retry_operation (suc retries) ms operation s =
    let (r, s') = operation s in
    let again = retry_operation retries ms operation (delay ms s') in
    elim r [ ok a ↦ (ok a, s') | err e ↦ again ]

abbrev pub change : (Rabbit → Rabbit) → Action Unit
change f s = (ok tt, f s)

unfoldable pub cleanup : Rabbit → Rabbit
cleanup s = record s { connection = false; publish_channel = none; consuming = [] }

-- `enabled` is the module's setting, and the call number `n` of the broker succeeds if `answers n`.
module _ (enabled : Bool) (answers : ℕ → Bool) where
  unfoldable pub ask : Action Unit
  ask s = (
    if answers s.asked then ok tt else err (plain (literal "Broker call failed")),
    record s { asked = suc s.asked },
  )

  -- A channel is made on the connection, of which there may be none.
  abbrev pub renew_consumer_channel : Action Unit
  renew_consumer_channel = do
    λ s. (if s.connection then ok tt else err (plain (literal "Cannot read properties of null")), s)
    ask
    change (λ s. record s { consumer_channel = some open_channel })

  unfoldable pub ready_channel : Action Unit
  ready_channel s =
      if not s.connection || not (is_channel_valid s.consumer_channel)
      then renew_consumer_channel s
      else (ok tt, s)

  -- The queue is asserted and bound, the number of messages ahead is set, and consuming starts;
  -- what any of them throws is logged.
  unfoldable pub start_consuming : Consumer → Action Unit
  start_consuming consumer =
      catch_with
        (do ask; ask; ask; ask; change (λ s. record s { consuming = s.consuming ++ consumer ∷ [] }))
        (λ e. pure tt)

  unfoldable pub setup_consumer : Consumer → Action Unit
  setup_consumer consumer = do ready_channel; start_consuming consumer

  unfoldable pub reestablish : List Consumer → Action Unit
  reestablish [] = pure tt
  reestablish (consumer ∷ rest) = do setup_consumer consumer; reestablish rest

  unfoldable pub consume_messages : Consumer → Action Unit
  consume_messages consumer = do
    change (λ s. record s { consumers = s.consumers ++ consumer ∷ [] })
    setup_consumer consumer

  -- One attempt of `connect`.
  unfoldable pub establish : Action Unit
  establish = do
    ask
    change (λ s. record s { connection = true })
    ask
    change (λ s. record s { publish_channel = some open_channel })
    λ s. reestablish s.consumers s

  unfoldable pub connect : Action Unit
  connect s =
      if not enabled || s.connection && is_channel_valid s.publish_channel
      then (ok tt, s)
      else retry_operation connect_retries retry_delay establish s

  -- The loop, with the rounds that are left.
  unfoldable pub reconnect : ℕ → Rabbit → Rabbit
  reconnect zero s = record s { reconnecting = false }
  reconnect (suc rounds) s =
      let (r, s') = connect s in
      let again =
        reconnect rounds
          (delay retry_delay (record s' { current_retries = suc s'.current_retries })) in
      elim r [ ok _ ↦ record s' { reconnecting = false; current_retries = 0 } | err e ↦ again ]

  unfoldable pub handle_reconnection : Rabbit → Rabbit
  handle_reconnection s =
      let done = reconnect (max_retries - s.current_retries) (record s { reconnecting = true }) in
      if s.reconnecting then s else done

  -- The handlers of the connection's events `error` and `close`; by then the connection says that
  -- it has closed, which the consumer's channel, being one of its own, shares.
  unfoldable pub connection_lost : Rabbit → Rabbit
  connection_lost s =
      handle_reconnection (cleanup (record s { consumer_channel = cut s.consumer_channel }))

  -- The constructor: a first connection, and reconnecting where it fails.
  unfoldable pub construct : Bool → Rabbit → Rabbit
  construct unit_test s =
      let (r, s') = connect s in
      if unit_test && not enabled then s else elim r [ ok _ ↦ s' | err e ↦ handle_reconnection s' ]

  -- The handler of the event `close` of a consumer's channel, for the entry number `n`: the consumer is
  -- set up again.
  unfoldable pub consumer_channel_closed : ℕ → Action Unit
  consumer_channel_closed n s = elim (get_elem? s.consuming n) [
    | none ↦ (ok tt, s)
    | some consumer ↦
        setup_consumer consumer (record s {
          consuming = drop_at n s.consuming;
          consumer_channel = shut s.consumer_channel;
        })
  ]

  -- A command on the publishing channel, which has to be valid.
  unfoldable pub issue : Command → Action Unit
  issue command = retry_operation max_retries retry_delay (do
    λ s. (
      if is_channel_valid s.publish_channel
          then ok tt
          else err (plain (literal "RabbitMQ publish channel not initialized or invalid")),
      s,
    )
    ask
    change (λ s. record s { commands = command ∷ s.commands }))

  abbrev pub send_message : String → String → Action Unit
  send_message queue message = issue (sends queue message)

  abbrev pub assert_exchange : String → String → Action Unit
  assert_exchange exchange kind = issue (asserts_exchange exchange kind)

  -- The data are given as their JSON text.
  abbrev pub publish_message : String → String → String → Action Unit
  publish_message exchange routing_key data_text = issue (publishes exchange routing_key data_text)

  abbrev pub create_queue : String → Action Unit
  create_queue queue = issue (creates_queue queue)

  abbrev pub assert_queue : String → Action Unit
  assert_queue queue = issue (asserts_queue queue)

  abbrev pub bind_queue : String → String → String → Action Unit
  bind_queue queue exchange routing_key = issue (binds queue exchange routing_key)

  abbrev pub delete_queue : String → Action Unit
  delete_queue queue = issue (deletes_queue queue)

  -- The consumers' channels are closed one by one; what one throws is logged. What the library
  -- notes on a closed channel is left out.
  unfoldable pub close_channels : List Consumer → Rabbit → Rabbit
  close_channels [] s = s
  close_channels (consumer ∷ rest) s = close_channels rest (ask s).1

  abbrev close_publishing : Action Unit
  close_publishing s = elim s.publish_channel [
    | none ↦ (ok tt, s)
    | some c ↦ (ask >> change (λ s. record s { publish_channel = none })) s
  ]

  abbrev close_connection : Action Unit
  close_connection s =
      if s.connection then (ask >> change (λ s. record s { connection = false })) s else (ok tt, s)

  abbrev forget_channels : Action Unit
  forget_channels = change (λ s. record (close_channels s.consuming s) { consuming = [] })

  unfoldable pub close : Action Unit
  close = catch_with (forget_channels >> close_publishing >> close_connection) (λ e. pure tt)
