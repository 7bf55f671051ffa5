-- ===== src/Sessions.antt =====
-- Which characters have a socket session (src/providers/sockets/SocketSessionControl.ts) and which
-- channels have their events bound (src/providers/sockets/SocketEventsBinderControl.ts).
use startup_api.Base.{
  ◌∙◌, String, ◌≡◌, ◌≢◌, Bool, true, false, not, [], ◌∷◌, str_eq, if◌then◌else◌, arith, eq_iff,
  eq_refl, is_some, ◌&&◌,
}
use startup_api.Base.Value.{str, bool}
use startup_api.Base.Exec.{Exec, literal, Error, plain, ok, pure, raise_if, ◌>>=◌, ◌>>◌}
use startup_api.Redis.{Backend}
use startup_api.HashTable
use startup_api.HashTable.{Table, Action}
use startup_api.Locks.{Listeners, auth_character_on}
use startup_api.Locks.Events.{handlers, handlers-auth_character_on}

abbrev pub no_character : String → Error
no_character verb = plain (literal verb)

module _ ⦃B : Backend⦄ where
  open B use {Db, hget, hset, hdel, hexists, stringify}

  unfoldable pub set_session : String → Action Unit
  unfolding HashTable.set
  set_session character_id = do
    raise_if (str_eq character_id "")
        (no_character "Failed to set socket session: characterId not found")
    HashTable.set "socket-sessions" character_id (str character_id)

  unfoldable pub has_session : String → Action Bool
  unfolding HashTable.has
  has_session character_id = do
    raise_if (str_eq character_id "")
        (no_character "Failed to check socket session: characterId not found")
    HashTable.has "socket-sessions" character_id

  unfoldable pub delete_session : String → Action Unit
  unfolding HashTable.delete
  delete_session character_id = do
    raise_if (str_eq character_id "")
        (no_character "Failed to delete socket session: characterId not found")
    HashTable.delete "socket-sessions" character_id

  unfoldable pub clear_all_sessions : Action Unit
  unfolding HashTable.delete_all
  clear_all_sessions = HashTable.delete_all "socket-sessions"

  -- Opening the session of one character gives it a session, and closing takes it away; neither
  -- changes the answer for another character. Clearing ends all sessions.
  -- The conditions: the table has its connection, and neither identifier is empty.
  sessions_lem :
      (id other : String) (t : Table Db)
      → t.connected ≡ true
      → id ≢ ""
      → other ≢ ""
      → ((has_session other (set_session id t).1).0
          ≡ (if str_eq id other then ok true else (has_session other t).0))
        × ((has_session other (delete_session id t).1).0
            ≡ (if str_eq id other then ok false else (has_session other t).0))
        × ((has_session other (clear_all_sessions t).1).0 ≡ ok false)
  unfolding has_session set_session delete_session clear_all_sessions
  sessions_lem id other t c e f = (
    ground (
      arith,
      eq_iff id other,
      eq_iff id "",
      eq_iff other "",
      B.hget-hset "socket-sessions" id "socket-sessions" other (stringify (str id)) t.db,
      B.hexists_lem "socket-sessions" other t.db,
      B.hexists_lem "socket-sessions" other (hset "socket-sessions" id (stringify (str id)) t.db),
    ),
    ground (
      arith,
      eq_iff id other,
      eq_iff id "",
      eq_iff other "",
      B.hget-hdel "socket-sessions" id "socket-sessions" other t.db,
      B.hexists_lem "socket-sessions" other t.db,
      B.hexists_lem "socket-sessions" other (hdel "socket-sessions" id t.db),
    ),
    ground (
      arith,
      eq_iff other "",
      B.hget-del "socket-sessions" "socket-sessions" other t.db,
      B.hexists_lem "socket-sessions" other (B.del "socket-sessions" t.db),
    ),
  )

  -- The table, and the listeners of the channel that is bound.
  pub record World (H : Type 0) : Type 0 where
    pub table : Table Db
    pub listeners : Listeners H

  abbrev on_table : {H A : Type 0} → Action A → Exec (World H) A
  on_table m w = let (r, t) = m w.table in (r, record w { table = t })

  -- The binder installs the ping listener, under `CharacterPing`.
  unfoldable pub bind_events : {H : Type 0} → H → String → Exec (World H) Unit
  unfolding HashTable.has HashTable.set auth_character_on
  bind_events ping channel_id = do
    has_bound_events ← on_table (HashTable.has "channel-bound-events" channel_id)
    if has_bound_events then pure tt else do
      λ w. (ok tt, record w { listeners = auth_character_on "CharacterPing" ping w.listeners })
      on_table (HashTable.set "channel-bound-events" channel_id (bool true))

  unfoldable pub unbind_events : {H : Type 0} → String → Exec (World H) Unit
  unfolding HashTable.has HashTable.delete
  unbind_events channel_id = do
    has_bound_events ← on_table (HashTable.has "channel-bound-events" channel_id)
    if not has_bound_events then pure tt else do
      λ w. (ok tt, record w { listeners = [] })
      on_table (HashTable.delete "channel-bound-events" channel_id)

  abbrev pub bound : {H : Type 0} → String → World H → Bool
  bound id w = is_some (hget "channel-bound-events" id w.table.db)

  -- What binding does on each branch.
  pub bind_events_lem :
      {H : Type 0} (ping : H) (id : String) (w : World H)
      → w.table.connected ≡ true
      → bind_events ping id w ≡ (
        ok tt,
        if bound id w then w else record {
          table = record w.table {
            db = hset "channel-bound-events" id (stringify (bool true)) w.table.db;
          };
          listeners = auth_character_on "CharacterPing" ping w.listeners;
        },
      )
  unfolding bind_events
  bind_events_lem ping id w c = ground (arith, B.hexists_lem "channel-bound-events" id w.table.db)

  bound-bind_events :
      {H : Type 0} (ping : H) (id : String) (w : World H)
      → w.table.connected ≡ true
      → let w' = (bind_events ping id w).1 in (bound id w' ≡ true) × (w'.table.connected ≡ true)
  bound-bind_events ping id w c = rw (bind_events_lem ping id w c) (
    ground (
      arith,
      eq_refl id,
      B.hget-hset "channel-bound-events" id "channel-bound-events" id (stringify (bool true))
          w.table.db,
    ),
    ground arith,
  )

  -- Binding a channel again changes nothing, whichever handler is offered. For a channel that was
  -- not bound, its own handler is the only one of the ping event, and other events keep theirs.
  -- The condition is that the table has its connection.
  bind_events_once :
      {H : Type 0} (ping again : H) (id event : String) (w : World H)
      → w.table.connected ≡ true
      → let w' = (bind_events ping id w).1 in
        (bind_events again id w' ≡ (ok tt, w'))
        × (handlers event w'.listeners ≡ (
            if not (bound id w) && str_eq "CharacterPing" event
            then ping ∷ []
            else handlers event w.listeners))
  bind_events_once ping again id event w c =
      let h = bound-bind_events ping id w c in
      (
        bind_events_lem again id (bind_events ping id w).1 h.1 ∙ ground (arith, h.0),
        rw (bind_events_lem ping id w c)
            (ground (arith, handlers-auth_character_on "CharacterPing" event ping w.listeners)),
      )

  pub unbind_events_lem :
      {H : Type 0} (id : String) (w : World H)
      → w.table.connected ≡ true
      → unbind_events id w ≡ (
        ok tt,
        if bound id w
            then record {
              table = record w.table { db = hdel "channel-bound-events" id w.table.db };
              listeners = [];
            }
            else w,
      )
  unfolding unbind_events
  unbind_events_lem id w c = ground (arith, B.hexists_lem "channel-bound-events" id w.table.db)

  -- Unbinding after binding leaves the channel with no listener at all and not bound.
  -- The condition is that the table has its connection.
  unbind_events-bind_events :
      {H : Type 0} (ping : H) (id : String) (w : World H)
      → w.table.connected ≡ true
      → let w' = (unbind_events id (bind_events ping id w).1).1 in
        (w'.listeners ≡ []) × (bound id w' ≡ false)
  unbind_events-bind_events ping id w c =
      let h = bound-bind_events ping id w c in
      rw (unbind_events_lem id (bind_events ping id w).1 h.1) (
        ground (arith, h.0),
        ground (
          arith,
          h.0,
          eq_refl id,
          B.hget-hdel "channel-bound-events" id "channel-bound-events" id
              (bind_events ping id w).1.table.db,
        ),
      )
