-- ===== src/Sockets.antt =====
-- src/providers/sockets/SocketAdapter.ts: the connections of characters, with the channels of
-- SocketIO.ts. It keeps one session per character: a new connection takes the place of the old one.
pub mod Entering
pub mod Takeover
pub mod Lifecycle
pub mod Auth
pub mod Messaging
mod Tests
use mathlib.Core.List.{◌++◌}
use startup_api.Base.{
  ℕ, String, Bool, true, false, not, ◌||◌, ◌&&◌, Option, none, some, List, [], ◌∷◌, str_eq,
  if◌then◌else◌, or_else, is_some,
}
use startup_api.Base.Value.{Value, str, obj, Fields, end, field, get, truthy}
use startup_api.Base.Exec.{
  literal, Error, plain, Result, ok, err, Exec, pure, raise, raise_if, gets, catch_with, ◌>>=◌,
  ◌>>◌,
}
use startup_api.Redis.{Backend}
use startup_api.HashTable.{Table}
use startup_api.HashTable
use startup_api.Locks.{Listeners}
use startup_api.Locks.Events.{handlers}
use startup_api.Sessions.{
  World, set_session, has_session, delete_session, bind_events, unbind_events,
}
use startup_api.Repository.Database.{Adapter, FindOptions}
use startup_api.Repository

-- The listeners that the program installs; the second one is told the character of its channel.
pub data Handler : Type 0 where
  answers_ping : Handler
  disconnects : Option String → Handler

pub data Emission : Type 0 where
  to_user : String → String → Value → Emission
  to_all : String → Value → Emission

abbrev pub character_not_found : Error
character_not_found = plain (literal "Character not found!")

-- `characterId !== "undefined" && characterId !== undefined`
abbrev pub has_character_id : Option String → Bool
has_character_id none = false
has_character_id (some id) = not (str_eq id "undefined")

-- `{ _id: characterId }`, in which `undefined` is as no entry.
abbrev pub id_filter : Option String → Fields
id_filter none = end
id_filter (some id) = field "_id" (str id) end

abbrev pub channel_change : String → Fields
channel_change id = field "channel" (str id) end

abbrev pub select_channel : FindOptions
select_channel = record {
  select = some "channel";
  populate = [];
  virtuals = false;
  defaults = false;
  cache_key = none;
  limit = none;
  hide_sensitive_fields = none;
}

abbrev pub text_of : Option Value → Option String
text_of (some (str s)) = some s
text_of _ = none

abbrev pub force_disconnect : Value
force_disconnect = obj (
    field "reason" (str "You have been disconnected because you logged in from another device!")
      end)

abbrev pub at {ℓ} : {A : Type ℓ} → String → A → (String → A) → String → A
at k x f j = if str_eq k j then x else f j

module _ ⦃B : Backend⦄ ⦃A : Adapter⦄ where
  -- `opened` are the channels that the socket server knows, `listeners` those of each channel, and
  -- `emitted` what was sent, the last one first.
  pub record State : Type 0 where
    pub table : Table B.Db
    pub users : A.Db
    pub listeners : String → Listeners Handler
    pub opened : String → Bool
    pub emitted : List Emission

  abbrev pub Action : Type 0 → Type 0
  Action R = Exec State R

  abbrev change : (State → State) → Action Unit
  change f s = (ok tt, f s)

  abbrev on_table : {R : Type 0} → HashTable.Action R → Action R
  on_table m s = let (r, t) = m s.table in (r, record s { table = t })

  abbrev on_users : {R : Type 0} → Repository.Action R → Action R
  on_users m s = let (r, u) = m s.users in (r, record s { users = u })

  abbrev on_channel : {R : Type 0} → String → Exec (World Handler) R → Action R
  on_channel channel m s =
      let (r, w) = m (record { table = s.table; listeners = s.listeners channel }) in
      (r, record s { table = w.table; listeners = at channel w.listeners s.listeners })

  abbrev set_listeners : String → Listeners Handler → State → State
  set_listeners channel ls s = record s { listeners = at channel ls s.listeners }

  -- The data as they are sent: through JSON, and `{}` in the place of none.
  unfoldable pub as_sent : Option Value → Option Value
  as_sent none = some (obj end)
  as_sent (some v) = if truthy v then B.parse (B.stringify v) else some (obj end)

  -- What is thrown is logged.
  unfoldable pub emit_to_user : Option String → String → Option Value → State → State
  unfolding as_sent
  emit_to_user none event sent s = s
  emit_to_user (some channel) event sent s = elim (as_sent sent) [
    | none ↦ s
    | some v ↦
        if str_eq channel "" then s else record s { emitted = to_user channel event v ∷ s.emitted }
  ]

  unfoldable pub emit_to_all_users : String → Option Value → State → State
  unfolding as_sent
  emit_to_all_users event sent s = elim (as_sent sent) [
    | none ↦ s
    | some v ↦ record s { emitted = to_all event v ∷ s.emitted }
  ]

  unfoldable pub get_channel_by_id : Option String → State → Option String
  get_channel_by_id none s = none
  get_channel_by_id (some id) s = if s.opened id then some id else none

  unfoldable pub disconnect_previous_session : Option String → String → Action Unit
  unfolding unbind_events delete_session
  disconnect_previous_session previous_id character_id s =
      let s' = emit_to_user previous_id "ForceDisconnect" (some force_disconnect) s in
      elim (get_channel_by_id previous_id s') [
        | none ↦ (ok tt, s')
        | some channel ↦
            catch_with
              (do
                change (set_listeners channel [])
                on_channel channel (unbind_events channel)
                on_table (delete_session character_id))
              (λ e. pure tt) s'
      ]

  unfoldable pub handle_existing_character_session : String → Action Unit
  handle_existing_character_session character_id = do
    has_ongoing_session ← on_table (has_session character_id)
    if not has_ongoing_session then pure tt else do
      previous_user ← on_users (Repository.find_by_id character_id (some select_channel))
      elim previous_user [
        | none ↦ raise character_not_found
        | some r ↦ disconnect_previous_session (text_of (get "channel" r)) character_id
      ]

  -- No identifier is rejected as the empty one is.
  unfoldable pub update_character_connection : Option String → String → Action Unit
  update_character_connection character_id channel = do
    updated_user ← on_users (Repository.update_by (id_filter character_id) (channel_change channel))
    raise_if (not (is_some updated_user)) character_not_found
    on_table (set_session (or_else character_id ""))
    on_channel channel (bind_events answers_ping channel)

  unfoldable pub handle_disconnect : String → Action Unit
  handle_disconnect character_id =
      catch_with
        (do
          updated ←
              on_users (Repository.update_by (id_filter (some character_id)) (channel_change ""))
          on_table (delete_session character_id))
        (λ e. pure tt)

  -- The listener of the event `disconnect`.
  unfoldable pub run_handler : Handler → Action Unit
  run_handler answers_ping = pure tt
  run_handler (disconnects none) = pure tt
  run_handler (disconnects (some id)) = handle_disconnect id

  -- The `try` block of the handler of a connection.
  unfoldable pub accept : Option String → String → Action Unit
  accept character_id channel = do
    if has_character_id character_id
        then handle_existing_character_session (or_else character_id "")
        else pure tt
    update_character_connection character_id channel
    change (λ s.
        set_listeners channel
          (s.listeners channel
            ++ (
              "disconnect",
              disconnects (if has_character_id character_id then character_id else none),
            )
              ∷ [])
          s)

  -- The query of the handshake, of which there may be none, and the channel's identifier.
  unfoldable pub on_connect : Option (Option String) → String → Action Unit
  on_connect none channel = pure tt
  on_connect (some character_id) channel =
      catch_with (accept character_id channel)
        (λ e. change (λ s. record s { opened = at channel false s.opened }))

  -- What happens at the socket server: a channel is opened, or closed by its client.
  unfoldable pub opens : Option (Option String) → String → State → State
  opens query channel s =
      (on_connect query channel (record s { opened = at channel true s.opened })).1

  abbrev run_handlers : List Handler → State → State
  run_handlers [] s = s
  run_handlers (h ∷ hs) s = run_handlers hs (run_handler h s).1

  unfoldable pub closes : String → State → State
  closes channel s =
      run_handlers (handlers "disconnect" (s.listeners channel))
        (record s { opened = at channel false s.opened })
