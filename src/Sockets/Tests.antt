-- ===== src/Sockets/Tests.antt =====
-- Connections on a server in memory and records in memory.
use startup_api.Base.{
  Option, none, String, str_eq, if◌then◌else◌, ◌≡◌, refl, true, false, some, [], ◌∷◌, arith, eq_iff,
}
use startup_api.Base.Value.{Value, str, obj, Fields, end, field, put, get}
use startup_api.Base.Exec.{ok}
use startup_api.Redis.Memory.{Server, memory, memory_start, hget, hset}
use startup_api.HashTable.{Table}
use startup_api.Locks.Events.{handlers}
use startup_api.Repository.Database.{Adapter}
use startup_api.Repository.Memory.{memory as records, find, update_all, matches, same_as}
use startup_api.Repository.{populated, with_id, find_by, rewrap}
use startup_api.Sockets.{
  emit_to_user, State, disconnects, to_user, force_disconnect, opens, closes, at,
}
use startup_api.Sockets.Entering.{has_open_session, is_bound}
use startup_api.Sockets.Takeover.{takes_over}
use startup_api.Streams.{serialize_message, deserialize_message}
use startup_api.Sockets.Messaging.{send_event_to_user, receive_event, events_cross}
use startup_api.Sockets.Auth.{socket_io_auth, geckos_auth, bearer, lets_in, admits}
use startup_api.Sockets.Auth.{socket_admission}
use startup_api.Base.Texts.{split}
use startup_api.Sockets.Lifecycle.{comes_and_goes}

-- The records are found by a text.
abbrev people : Adapter
people = record records { find_by_id = λ id options d. ok (find (field "_id" (str id) end) d) }

abbrev hero : String → Fields
hero channel = field "_id" (str "7") (field "channel" (str channel) end)

abbrev table : Table Server
table = record { unit_test = false; reachable = true; connected = true; db = memory_start }

abbrev alone : State ⦃A = people⦄
alone = record {
  table = table;
  users = hero "" ∷ [];
  listeners = λ c. [];
  opened = λ c. false;
  emitted = [];
}

-- The character is connected by the channel "a".
abbrev busy : State ⦃A = people⦄
busy = record {
  table = record table { db = hset "socket-sessions" "7" (str "7") memory_start };
  users = hero "a" ∷ [];
  listeners = λ c. [];
  opened = at "a" true (λ c. false);
  emitted = [];
}

comes_and_goes_example :
    let s' = opens ⦃A = people⦄ (some (some "7")) "a" alone in
    let s'' = closes ⦃A = people⦄ "a" s' in
    (has_open_session ⦃A = people⦄ "7" s' ≡ true)
    × ((has_open_session ⦃A = people⦄ "7" s'' ≡ false)
        × (s''.users ≡ hero "" ∷ [])
        × (s''.opened "a" ≡ false))
    × (is_bound ⦃A = people⦄ "a" s'' ≡ true)
unfolding hget find update_all put
comes_and_goes_example =
    comes_and_goes ⦃A = people⦄ "7" "a" (hero "a") (hero "") (hero "a" ∷ []) (hero "" ∷ []) alone
      refl (ground (arith, eq_iff "7" "")) (ground (arith, eq_iff "7" "undefined")) refl refl refl
      refl

takes_over_example :
    let s' = opens ⦃A = people⦄ (some (some "7")) "b" busy in
    ((has_open_session ⦃A = people⦄ "7" s' ≡ true)
      × (s'.users ≡ hero "b" ∷ [])
      × (is_bound ⦃A = people⦄ "b" s' ≡ true))
    × (handlers "disconnect" (s'.listeners "b") ≡ disconnects (some "7") ∷ [])
    × ((s'.emitted ≡ to_user "a" "ForceDisconnect" force_disconnect ∷ [])
        × (s'.listeners "a" ≡ [])
        × (is_bound ⦃A = people⦄ "a" s' ≡ false))
    × (closes ⦃A = people⦄ "a" s' ≡ record s' { opened = at "a" false s'.opened })
unfolding hget hset find update_all populated with_id
takes_over_example =
    takes_over ⦃A = people⦄ "7" "a" "b" (hero "a") (hero "b") (hero "b" ∷ []) busy refl
      (ground (arith, eq_iff "7" "")) (ground (arith, eq_iff "7" "undefined"))
      (ground (arith, eq_iff "a" "")) (ground (arith, eq_iff "a" "b")) refl refl refl refl refl refl

-- Every token is of a user that is not there.
abbrev stranger : Option String → Option Fields
stranger token = some (field "email" (str "eve@e") end)

socket_admission_example :
    (lets_in (socket_io_auth stranger ⦃A = people⦄ "Bearer t" (hero "" ∷ [])).calls ≡ true)
    × (admits (geckos_auth stranger ⦃A = people⦄ (some "Bearer t") (hero "" ∷ [])) ≡ false)
unfolding bearer split find_by rewrap find matches same_as get
socket_admission_example = socket_admission stranger ⦃A = people⦄ "Bearer t" (hero "" ∷ []) refl

-- Texts are written as they are, and everything else as the empty object.
abbrev written : Value → String
written (str s) = s
written v = "{}"

abbrev read_back : String → Option Value
read_back t = some (if str_eq t "{}" then obj end else str t)

events_cross_example :
    let message =
      field "userChannel" (str "a") (field "eventName" (str "Move") (field "data" (obj end) end)) in
    (send_event_to_user ⦃A = people⦄
        (λ m s. (ok tt, s))
        false
        "startup-npc"
        (some "a")
        "Move"
        none
        busy
      ≡ busy)
    × (receive_event ⦃A = people⦄
          (λ m s. (ok tt, s))
          false
          "startup-api"
          (deserialize_message written read_back (serialize_message written read_back message))
          busy
        ≡ emit_to_user ⦃A = people⦄ (some "a") "Move" (some (obj end)) busy)
events_cross_example =
    events_cross ⦃A = people⦄ written read_back (λ m s. (ok tt, s)) (λ m s. (ok tt, s))
      "startup-api" "a" "Move" none busy busy (ground (arith, eq_iff "startup-api" "startup-npc"))
      (refl, (refl, (refl, tt)))
