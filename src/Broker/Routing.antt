-- ===== src/Broker/Routing.antt =====
-- Listening and sending agree on the queue, the exchange and the routing key.
use startup_api.Base.{
  ℕ, suc, ◌≤◌, String, ◌≡◌, Bool, true, List, [], ◌∷◌, ◌++◌, arith, if◌then◌else◌,
}
use startup_api.Base.Exec.{ok}
use startup_api.Broker.{
  is_channel_valid, Consumer, Command, publishes, binds, asserts_queue, asserts_exchange, Rabbit,
  ask, issue, retry_operation, consume_messages, connect,
}
use startup_api.Broker.Recovery.{setup-Succeeds}
use startup_api.Broker.Messaging.{
  Messaging, ensure_initialized, initialize_in, initialize, send_message, listen_for_messages,
  exchange_name, routing_key_of, queue_of,
}

module _ (answers : ℕ → Bool) where
  issue_succeeds :
      (command : Command) (s : Rabbit)
      → is_channel_valid s.publish_channel ≡ true
      → answers s.asked ≡ true
      → issue true answers command s
        ≡ (ok tt, record s { asked = suc s.asked; commands = command ∷ s.commands })
  unfolding issue ask retry_operation
  issue_succeeds command s v a = ground (arith, v, a)

  -- A broker that is up, and that takes every later call.
  record Working (s : Messaging) : Type 0 where
    pub connected : s.rabbit.connection ≡ true
    pub valid : is_channel_valid s.rabbit.publish_channel ≡ true
    pub answered : (i : ℕ) → s.rabbit.asked ≤ i → answers i ≡ true

  connect_up :
      (s : Rabbit)
      → s.connection ≡ true
      → is_channel_valid s.publish_channel ≡ true
      → connect true answers s ≡ (ok tt, s)
  unfolding connect
  connect_up s c v = ground (arith, c, v)

  -- What was asked of the broker once it is initialized.
  abbrev before : Messaging → List Command
  before s =
      if s.initialized
      then s.rabbit.commands
      else asserts_exchange exchange_name "topic" ∷ s.rabbit.commands

  initialize_works :
      (s : Messaging)
      → Working s
      → let (r, s') = initialize true answers s in
        (r ≡ ok tt)
        × (s'.initialized ≡ true)
        × (s'.rabbit.commands ≡ before s)
        × ((s'.rabbit.consuming ≡ s.rabbit.consuming) × (s'.rabbit.consumers ≡ s.rabbit.consumers))
        × Working s'
  unfolding initialize initialize_in
  initialize_works s w = ground (
    arith,
    w.connected,
    w.valid,
    connect_up s.rabbit w.connected w.valid,
    issue_succeeds (asserts_exchange exchange_name "topic") s.rabbit w.valid
        (w.answered s.rabbit.asked (omega arith)),
    w.answered,
  )

  ensure_works :
      (s : Messaging)
      → Working s
      → let (r, s') = ensure_initialized true answers s in
        (r ≡ ok tt)
        × (s'.initialized ≡ true)
        × (s'.rabbit.commands ≡ before s)
        × ((s'.rabbit.consuming ≡ s.rabbit.consuming) × (s'.rabbit.consumers ≡ s.rabbit.consumers))
        × Working s'
  unfolding ensure_initialized
  ensure_works s w =
      let (r, i, b, k, w') = initialize_works s w in
      ground
        (arith, r, i, b, k, w'.connected, w'.valid, w'.answered, w.connected, w.valid, w.answered)

  listen_works :
      (service action : String) (s : Messaging)
      → Working s
      → let queue = queue_of service action in
        let key = routing_key_of service action in
        let consumer : Consumer = record {
          exchange = exchange_name;
          queue = queue;
          routing_key = key;
        } in
        let (r, s') = listen_for_messages true answers service action s in
        (r ≡ ok tt)
        × (s'.rabbit.commands ≡ binds queue exchange_name key ∷ asserts_queue queue ∷ before s)
        × (s'.rabbit.consuming ≡ s.rabbit.consuming ++ consumer ∷ [])
        × (s'.rabbit.consumers ≡ s.rabbit.consumers ++ consumer ∷ [])
        × ((s'.initialized ≡ true) × Working s')
  unfolding listen_for_messages consume_messages
  listen_works service action s w =
      let queue = queue_of service action in
      let key = routing_key_of service action in
      let consumer : Consumer = record {
        exchange = exchange_name;
        queue = queue;
        routing_key = key;
      } in
      let (r, i, b, k, w') = ensure_works s w in
      let s0 = (ensure_initialized true answers s).1.rabbit in
      let s1 : Rabbit = record s0 {
        asked = suc s0.asked;
        commands = asserts_queue queue ∷ s0.commands;
      } in
      let s2 : Rabbit = record s1 {
        asked = suc s1.asked;
        commands = binds queue exchange_name key ∷ s1.commands;
      } in
      let s3 : Rabbit = record s2 { consumers = s2.consumers ++ consumer ∷ [] } in
      let c =
        setup-Succeeds answers consumer s3 w'.connected (λ i x. w'.answered i (omega (arith, x))) in
      ground (
        arith,
        r,
        i,
        b,
        k,
        w'.connected,
        w'.valid,
        w'.answered,
        issue_succeeds (asserts_queue queue) s0 w'.valid (w'.answered s0.asked (omega arith)),
        issue_succeeds (binds queue exchange_name key) s1 w'.valid
            (w'.answered s1.asked (omega arith)),
        c.result,
        c.connected,
        c.publishing,
        c.kept,
        c.consumes,
        c.quiet,
        c.later,
      )

  send_works :
      (service action data_text : String) (s : Messaging)
      → Working s
      → (send_message true answers service action data_text s).1.rabbit.commands
        ≡ publishes exchange_name (routing_key_of service action) data_text ∷ before s
  unfolding send_message
  send_works service action data_text s w =
      let (r, i, b, k, w') = ensure_works s w in
      let s0 = (ensure_initialized true answers s).1.rabbit in
      ground (
        arith,
        r,
        i,
        b,
        k,
        issue_succeeds (publishes exchange_name (routing_key_of service action) data_text) s0
            w'.valid (w'.answered s0.asked (omega arith)),
      )

-- The module is enabled, the connection is up, with a valid publishing channel, and the broker takes every later call.
-- Listening for an action of a service succeeds and adds one consumer, which consumes; a message that
-- is sent for this action of this service afterwards is published to the exchange and with the
-- routing key by which the consumer's queue was bound just before, after the queue was asserted and,
-- where it was not yet, the exchange.
pub listens_for_what_is_sent :
    (answers : ℕ → Bool) (service action data_text : String) (s : Messaging)
    → s.rabbit.connection ≡ true
    → is_channel_valid s.rabbit.publish_channel ≡ true
    → ((i : ℕ) → s.rabbit.asked ≤ i → answers i ≡ true)
    → let queue = queue_of service action in
      let key = routing_key_of service action in
      let consumer : Consumer = record {
        exchange = exchange_name;
        queue = queue;
        routing_key = key;
      } in
      let (r, s') = listen_for_messages true answers service action s in
      let s'' = (send_message true answers service action data_text s').1 in
      (r ≡ ok tt)
      × (s'.rabbit.consuming ≡ s.rabbit.consuming ++ consumer ∷ [])
      × (s''.rabbit.commands
          ≡ publishes exchange_name key data_text
            ∷ binds queue exchange_name key
            ∷ asserts_queue queue
            ∷ (if s.initialized
                then s.rabbit.commands
                else asserts_exchange exchange_name "topic" ∷ s.rabbit.commands))
listens_for_what_is_sent answers service action data_text s c v h =
    let w : Working answers s = record { connected = c; valid = v; answered = h } in
    let (r, k, n, _, last) = listen_works answers service action s w in
    let (i, w') = last in
    let s' = (listen_for_messages true answers service action s).1 in
    (r, n, ground (arith, send_works answers service action data_text s' w', i, k))
