-- ===== src/Sockets/Entering.antt =====
-- What it means that a connection was entered, and the sessions' operations in closed form.
use startup_api.Base.{
  String, Bool, true, ◌≡◌, ◌≢◌, refl, some, [], ◌∷◌, if◌then◌else◌, is_some, arith, eq_iff, eq_refl,
}
use mathlib.Core.List.{◌++◌}
use startup_api.Base.Value.{str, bool, Fields}
use startup_api.Base.Exec.{ok}
use startup_api.Redis.{Backend}
use startup_api.HashTable.{Table}
use startup_api.Locks.{Listeners, auth_character_on}
use startup_api.Locks.Events.{handlers, handlers-auth_character_on}
use startup_api.Sessions.{World, set_session, has_session, delete_session, bind_events_lem, bound}
use startup_api.Repository.Database.{Adapter}
use startup_api.Repository
use startup_api.Repository.{populated, rewrap}
use startup_api.Sockets.{
  Handler, answers_ping, State, id_filter, channel_change, at, update_character_connection,
}

pub handlers-last :
    (e : String) (h : Handler) (ls : Listeners Handler)
    → handlers e (ls ++ (e, h) ∷ []) ≡ handlers e ls ++ h ∷ []
handlers-last e h [] = ground (arith, eq_refl e)
handlers-last e h ((n, g) ∷ ls) = ground (arith, handlers-last e h ls)

module _ ⦃B : Backend⦄ where
  open B use {hget, hset, hdel, stringify}

  pub set_session_lem :
      (id : String) (t : Table B.Db)
      → t.connected ≡ true
      → id ≢ ""
      → set_session id t
        ≡ (ok tt, record t { db = hset "socket-sessions" id (stringify (str id)) t.db })
  unfolding set_session
  set_session_lem id t c e = ground (arith, c, eq_iff id "", e)

  pub delete_session_lem :
      (id : String) (t : Table B.Db)
      → t.connected ≡ true
      → id ≢ ""
      → delete_session id t ≡ (ok tt, record t { db = hdel "socket-sessions" id t.db })
  unfolding delete_session
  delete_session_lem id t c e = ground (arith, c, eq_iff id "", e)

  pub has_session_lem :
      (id : String) (t : Table B.Db)
      → t.connected ≡ true
      → id ≢ ""
      → has_session id t ≡ (ok (is_some (hget "socket-sessions" id t.db)), t)
  unfolding has_session
  has_session_lem id t c e =
      ground (arith, c, eq_iff id "", e, B.hexists_lem "socket-sessions" id t.db)

module _ ⦃B : Backend⦄ ⦃A : Adapter⦄ where
  open B use {hget, hset, hdel, stringify}

  abbrev pub has_open_session : String → State → Bool
  has_open_session id s = is_some (hget "socket-sessions" id s.table.db)

  abbrev pub is_bound : String → State → Bool
  is_bound channel s = is_some (hget "channel-bound-events" channel s.table.db)

  -- The state after a connection was entered.
  pub record Entered (id channel : String) (u : A.Db) (s s' : State) : Type 0 where
    pub connected : s'.table.connected ≡ true
    pub users : s'.users ≡ u
    pub session : has_open_session id s' ≡ true
    pub bound : is_bound channel s' ≡ true
    pub others :
        (c e : String) → c ≢ channel → handlers e (s'.listeners c) ≡ handlers e (s.listeners c)
    pub own :
        handlers "disconnect" (s'.listeners channel) ≡ handlers "disconnect" (s.listeners channel)
    pub opened : s'.opened ≡ s.opened
    pub emitted : s'.emitted ≡ s.emitted

  -- The channel's world once the session is open, before its events are bound.
  abbrev pub joining : String → String → State → World Handler
  joining id channel s = record {
    table = record s.table { db = hset "socket-sessions" id (stringify (str id)) s.table.db };
    listeners = s.listeners channel;
  }

  abbrev joined : String → String → State → World Handler
  joined id channel s =
      let w = joining id channel s in
      if bound channel w then w else record {
        table = record w.table {
          db = hset "channel-bound-events" channel (stringify (bool true)) w.table.db;
        };
        listeners = auth_character_on "CharacterPing" answers_ping w.listeners;
      }

  abbrev pub entered : String → String → A.Db → State → State
  entered id channel u s =
      let w = joined id channel s in
      record s { users = u; table = w.table; listeners = at channel w.listeners s.listeners }

  pub update_lem :
      (id channel : String) (r : Fields) (u : A.Db) (s : State)
      → s.table.connected ≡ true
      → id ≢ ""
      → A.update_by (id_filter (some id)) (channel_change channel) s.users ≡ (ok (some r), u)
      → update_character_connection (some id) channel s ≡ (ok tt, entered id channel u s)
  unfolding update_character_connection Repository.update_by rewrap
  update_lem id channel r u s c e h = ground (
    arith,
    h,
    c,
    set_session_lem id s.table c e,
    bind_events_lem answers_ping channel (joining id channel s) c,
  )

  pub entered-Entered :
      (id channel : String) (u : A.Db) (s : State)
      → s.table.connected ≡ true
      → Entered id channel u s (entered id channel u s)
  entered-Entered id channel u s c =
      let w = joining id channel s in
      let session =
        B.hget-hset "socket-sessions" id "socket-sessions" id (stringify (str id)) s.table.db in
      record {
        connected = ground (arith, c);
        users = refl;
        session = ground (
          arith,
          c,
          session,
          eq_refl id,
          B.hget-hset "channel-bound-events" channel "socket-sessions" id (stringify (bool true))
              w.table.db,
        );
        bound = ground (
          arith,
          c,
          eq_refl channel,
          B.hget-hset "channel-bound-events" channel "channel-bound-events" channel
              (stringify (bool true)) w.table.db,
        );
        others = λ c' e n. ground (arith, eq_iff channel c', n);
        own = ground (
          arith,
          eq_refl channel,
          handlers-auth_character_on "CharacterPing" "disconnect" answers_ping
              (s.listeners channel),
        );
        opened = refl;
        emitted = refl;
      }
