-- ===== src/Sockets/Messaging.antt =====
-- src/providers/sockets/SocketMessaging.ts: events for users, which one of the services puts on a stream
-- and the other sends to the socket.
use startup_api.Base.{
  String, ◌≡◌, ◌≢◌, refl, Bool, false, Option, none, some, str_eq, if◌then◌else◌, or_else, arith,
  eq_iff,
}
use startup_api.Base.Value.{Value, str, obj, Fields, end, field, get, truthy?}
use startup_api.Base.Exec.{Exec}
use startup_api.Redis.{Backend}
use startup_api.Repository.Database.{Adapter}
use startup_api.Streams.{serialize_message, deserialize_message}
use startup_api.Streams.Delivery.{Readable, deserialize-serialize}
use startup_api.Sockets.{State, text_of, emit_to_user, emit_to_all_users}

-- `data || {}`
abbrev pub or_empty : Option Value → Value
or_empty d = if truthy? d then or_else d (obj end) else obj end

-- The message for the stream; a channel that is undefined is no entry.
abbrev pub event_message : Option String → String → Option Value → Fields
event_message none event sent = field "eventName" (str event) (field "data" (or_empty sent) end)
event_message (some channel) event sent =
    field "userChannel" (str channel)
      (field "eventName" (str event) (field "data" (or_empty sent) end))

module _ ⦃B : Backend⦄ ⦃A : Adapter⦄ where
  -- `add_to_stream` is the operation of the streams, whose result is not waited for.
  unfoldable pub send_event_to_user :
      (Fields → Exec State Unit)
      → Bool
      → String
      → Option String
      → String
      → Option Value
      → State
      → State
  send_event_to_user add_to_stream unit_test microservice channel event sent s =
      if unit_test
      then emit_to_user channel event (some (or_empty sent)) s
      else if str_eq microservice "startup-npc"
      then (add_to_stream (event_message channel event sent) s).1
      else emit_to_user channel event (some (or_empty sent)) s

  unfoldable pub send_event_to_all_users : String → Option Value → State → State
  send_event_to_all_users event sent s = emit_to_all_users event (some (or_empty sent)) s

  -- The listener on the stream, for a message that was read.
  unfoldable pub receive_event : (Fields → Exec State Unit) → Bool → String → Fields → State → State
  receive_event add_to_stream unit_test microservice message s =
      send_event_to_user add_to_stream unit_test microservice (text_of (get "userChannel" message))
        (or_else (text_of (get "eventName" message)) "undefined") (get "data" message) s

  or_empty_twice : (d : Option Value) → or_empty (some (or_empty d)) ≡ or_empty d
  or_empty_twice none = refl
  or_empty_twice (some v) = ground arith

  -- An event for a channel: the service of the NPCs puts one message on the stream, with the channel, the
  -- event and its data; and this message, written for Redis and read back, is sent to that channel by the service
  -- of the sockets, with that event and data, and is not put on a stream again.
  -- The conditions: the JSON texts of the three values are read back as these values, the receiving
  -- service is not that of the NPCs, and it is no unit test.
  pub events_cross :
      (stringify : Value → String) (parse : String → Option Value)
      (sender_adds receiver_adds : Fields → Exec State Unit) (service channel event : String)
      (sent : Option Value) (s s' : State)
      → service ≢ "startup-npc"
      → Readable stringify parse (event_message (some channel) event sent)
      → let message =
          field "userChannel"
            (str channel)
            (field "eventName" (str event) (field "data" (or_empty sent) end)) in
        (send_event_to_user sender_adds false "startup-npc" (some channel) event sent s
          ≡ (sender_adds message s).1)
        × (receive_event receiver_adds false service
              (deserialize_message stringify parse (serialize_message stringify parse message))
              s'
            ≡ emit_to_user (some channel) event (some (or_empty sent)) s')
  unfolding receive_event send_event_to_user get
  events_cross stringify parse sender_adds receiver_adds service channel event sent s s' n r =
      let m = event_message (some channel) event sent in
      let back : (k : String)
          → get k (deserialize_message stringify parse (serialize_message stringify parse m))
            ≡ get k m =
        λ k. deserialize-serialize stringify parse m k (refl, (refl, (refl, tt))) r in
      (
        refl,
        ground (
          arith,
          eq_iff service "startup-npc",
          n,
          back "userChannel",
          back "eventName",
          back "data",
          or_empty_twice sent,
        ),
      )
