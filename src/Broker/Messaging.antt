-- ===== src/Broker/Messaging.antt =====
-- src/providers/microservice/messaging-broker/MessagingBrokerMessaging.ts: messages between services,
-- by the broker.
use startup_api.Base.{ℕ, zero, suc, String, Bool, true, List, ◌∷◌, leb, if◌then◌else◌}
use Prim.Native.String.{◌++◌}
use startup_api.Base.Exec.{literal, plain, ok, Exec, pure, raise, catch_with, ◌>>◌}
use startup_api.Broker.{
  Rabbit, connect, assert_exchange, publish_message, assert_queue, bind_queue, consume_messages,
  close,
}

abbrev pub exchange_name : String
exchange_name = "rpg_microservices"

-- The broker's own state: the flag `initialized`, the seconds that it waited, and the connection.
pub record Messaging : Type 0 where
  pub initialized : Bool
  pub waited : List ℕ
  pub rabbit : Rabbit

abbrev Action : Type 0 → Type 0
Action R = Exec Messaging R

abbrev change : (Messaging → Messaging) → Action Unit
change f s = (ok tt, f s)

abbrev pub routing_key_of : String → String → String
routing_key_of service action = service ++ ("." ++ action)

abbrev pub queue_of : String → String → String
queue_of service action = service ++ ("_" ++ (action ++ "_queue"))

module _ (enabled : Bool) (answers : ℕ → Bool) where
  -- A call of the connection.
  abbrev on_rabbit : {R : Type 0} → Exec Rabbit R → Action R
  on_rabbit a s = let (r, rabbit) = a s.rabbit in (r, record s { rabbit = rabbit })

  -- The loop, with the rounds that are left; it waits between two attempts.
  unfoldable pub initialize_in : ℕ → Action Unit
  initialize_in zero =
      raise (plain (literal "Failed to initialize RabbitMQ connection after multiple retries"))
  initialize_in (suc retries) =
      catch_with
        (do
          on_rabbit (connect enabled answers)
          on_rabbit (assert_exchange enabled answers exchange_name "topic")
          change (λ s. record s { initialized = true }))
        (λ e. do
          change (λ s. record s { waited = if leb 1 retries then 5 ∷ s.waited else s.waited })
          initialize_in retries)

  unfoldable pub initialize : Action Unit
  initialize s = if s.initialized then (ok tt, s) else initialize_in 5 s

  unfoldable pub ensure_initialized : Action Unit
  ensure_initialized s = if s.initialized then (ok tt, s) else initialize s

  -- What is thrown is logged.
  unfoldable pub send_message : String → String → String → Action Unit
  send_message service action data_text =
      catch_with
        (do
          ensure_initialized
          on_rabbit (
              publish_message enabled answers exchange_name (routing_key_of service action)
                data_text))
        (λ e. pure tt)

  unfoldable pub listen_for_messages : String → String → Action Unit
  listen_for_messages service action = do
    ensure_initialized
    on_rabbit (assert_queue enabled answers (queue_of service action))
    on_rabbit (
        bind_queue enabled answers (queue_of service action) exchange_name
          (routing_key_of service action))
    on_rabbit (
        consume_messages enabled answers (record {
          exchange = exchange_name;
          queue = queue_of service action;
          routing_key = routing_key_of service action;
        }))

  abbrev pub close_broker : Action Unit
  close_broker = on_rabbit (close enabled answers)
