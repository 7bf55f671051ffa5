-- ===== src/Broker/Tests.antt =====
-- The broker on concrete states.
use startup_api.Base.{ℕ, ◌≡◌, refl, Bool, true, false, none, some, List, [], ◌∷◌, leb, arith}
use startup_api.Base.Exec.{ok}
use startup_api.Broker.{
  Rabbit, Consumer, open_channel, is_channel_valid, connection_lost, max_retries, publishes, binds,
  asserts_queue, asserts_exchange,
}
use startup_api.Broker.Acks.{Event, arrives, fires, Inv, start, run, history-Inv}
use startup_api.Broker.Failure.{stays_down}
use startup_api.Broker.Recovery.{recovers}
use startup_api.Broker.Messaging.{Messaging, listen_for_messages, send_message}
use startup_api.Broker.Routing.{listens_for_what_is_sent}

abbrev some_arrivals : List Event
some_arrivals =
    arrives ("a", 1) true ∷ arrives ("b", 1) true ∷ fires false ∷ arrives ("a", 2) true ∷ []

history-Inv_example : Inv (("a", 1) ∷ ("b", 1) ∷ ("a", 2) ∷ []) (run some_arrivals start)
history-Inv_example = history-Inv some_arrivals

abbrev orders : Consumer
orders = record {
  exchange = "rpg_microservices";
  queue = "map_find_queue";
  routing_key = "map.find";
}

abbrev up : Rabbit
up = record {
  connection = true;
  publish_channel = some open_channel;
  consumer_channel = none;
  consumers = orders ∷ [];
  consuming = orders ∷ [];
  reconnecting = false;
  current_retries = 0;
  asked = 0;
  commands = [];
  waits = [];
}

stays_down_example :
    let s' = connection_lost true (λ n. false) up in
    (s'.connection ≡ false)
    × (s'.current_retries ≡ max_retries)
    × (connection_lost true (λ n. true) s' ≡ s')
stays_down_example = stays_down (λ n. false) (λ n. true) up refl (omega arith) (λ i l. refl)

-- The broker is away for the first seven calls.
away : ℕ → Bool
away n = leb 7 n

recovers_example :
    let s' = connection_lost true away up in
    (s'.connection ≡ true)
    × (is_channel_valid s'.publish_channel ≡ true)
    × (s'.consuming ≡ orders ∷ [])
    × (s'.current_retries ≡ 0)
    × (s'.reconnecting ≡ false)
recovers_example =
    recovers away 7 up refl (omega arith) (λ i a b. unfold away in ground (arith, b))
      (λ i a. unfold away in ground (arith, a))

abbrev fresh : Messaging
fresh = record {
  initialized = false;
  waited = [];
  rabbit = record up { consumers = []; consuming = [] };
}

listens_for_what_is_sent_example :
    let find : Consumer = orders in
    let (r, s') = listen_for_messages true (λ n. true) "map" "find" fresh in
    let s'' = (send_message true (λ n. true) "map" "find" "{}" s').1 in
    (r ≡ ok tt)
    × (s'.rabbit.consuming ≡ find ∷ [])
    × (s''.rabbit.commands
        ≡ publishes "rpg_microservices" "map.find" "{}"
          ∷ binds "map_find_queue" "rpg_microservices" "map.find"
          ∷ asserts_queue "map_find_queue"
          ∷ asserts_exchange "rpg_microservices" "topic"
          ∷ [])
listens_for_what_is_sent_example =
    listens_for_what_is_sent (λ n. true) "map" "find" "{}" fresh refl
      (unfold is_channel_valid in refl) (λ i l. refl)
