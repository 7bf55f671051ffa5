-- ===== src/Sockets/Lifecycle.antt =====
-- Connections that come and go, and those that are refused.
use startup_api.Base.{
  String, true, false, ◌≡◌, ◌≢◌, refl, Option, none, some, [], ◌∷◌, arith, eq_iff, eq_refl,
}
use mathlib.Core.List.{◌++◌}
use startup_api.Base.Value.{Fields}
use startup_api.Base.Exec.{Error, bad_request, message, Result, ok, err}
use startup_api.Redis.{Backend}
use startup_api.Locks.Events.{handlers}
use startup_api.Repository.Database.{Adapter}
use startup_api.Repository
use startup_api.Repository.{populated, rewrap}
use startup_api.Sockets.{
  character_not_found, disconnects, State, id_filter, channel_change, at,
  handle_existing_character_session, update_character_connection, accept, on_connect, opens, closes,
  run_handler, handle_disconnect,
}
use startup_api.Sockets.Entering.{
  handlers-last, delete_session_lem, has_session_lem, has_open_session, is_bound, entered,
  update_lem, entered-Entered,
}

module _ ⦃B : Backend⦄ ⦃A : Adapter⦄ where
  open B use {hget, hset, hdel, stringify}

  -- The update of the record throws or finds none.
  abbrev pub Refuses : Result (Option Fields) → Type 0
  Refuses (err e) = Unit
  Refuses (ok none) = Unit
  Refuses (ok (some r)) = ⊥

  refused_at :
      (id channel : String) (o : Result (Option Fields)) (u : A.Db) (s : State)
      → Refuses o
      → A.update_by (id_filter (some id)) (channel_change channel) s.users ≡ (o, u)
      → (e : Error) × (update_character_connection (some id) channel s
          ≡ (err e, record s { users = u }))
  unfolding update_character_connection Repository.update_by rewrap
  refused_at id channel (err e) u s n h = (bad_request (message e), ground (arith, h))
  refused_at id channel (ok none) u s n h = (character_not_found, ground (arith, h))
  refused_at id channel (ok (some r)) u s n h = absurd n

  no_session_lem :
      (id : String) (s : State)
      → s.table.connected ≡ true
      → id ≢ ""
      → has_open_session id s ≡ false
      → handle_existing_character_session id s ≡ (ok tt, s)
  unfolding handle_existing_character_session
  no_session_lem id s c e h = ground (arith, c, h, has_session_lem id s.table c e)

  -- A character without a session connects, and the update of its record fails or finds none: the
  -- channel is closed, nothing was sent, and neither a session nor a bound channel nor a listener was
  -- added.
  -- The conditions: the table has its connection, and the identifier is neither empty nor "undefined".
  refused_connection :
      (id channel : String) (o : Result (Option Fields)) (u : A.Db) (s : State)
      → s.table.connected ≡ true
      → id ≢ ""
      → id ≢ "undefined"
      → has_open_session id s ≡ false
      → A.update_by (id_filter (some id)) (channel_change channel) s.users ≡ (o, u)
      → Refuses o
      → let s' = opens (some (some id)) channel s in
        (s'.opened channel ≡ false)
        × ((s'.table ≡ s.table) × (s'.emitted ≡ s.emitted))
        × ((c : String) → s'.listeners c ≡ s.listeners c)
  unfolding opens on_connect accept
  refused_connection id channel o u s c e d h m n =
      let s0 : State = record s { opened = at channel true s.opened } in
      let (error, fails) = refused_at id channel o u s0 n m in
      let first = no_session_lem id s0 c e h in
      (
        ground (arith, eq_iff id "undefined", d, first, fails, eq_refl channel),
        (
          ground (arith, eq_iff id "undefined", d, first, fails),
          ground (arith, eq_iff id "undefined", d, first, fails),
        ),
        (λ c'. ground (arith, eq_iff id "undefined", d, first, fails)),
      )

  handle_disconnect_lem :
      (id : String) (r : Fields) (u : A.Db) (s : State)
      → s.table.connected ≡ true
      → id ≢ ""
      → A.update_by (id_filter (some id)) (channel_change "") s.users ≡ (ok (some r), u)
      → handle_disconnect id s ≡ (
        ok tt,
        record s {
          users = u;
          table = record s.table { db = hdel "socket-sessions" id s.table.db };
        },
      )
  unfolding handle_disconnect Repository.update_by rewrap
  handle_disconnect_lem id r u s c e h = ground (arith, h, delete_session_lem id s.table c e)

  abbrev met : String → String → A.Db → State → State
  met id channel u s =
      let s' = entered id channel u s in
      record s' {
        listeners =
            at channel (s'.listeners channel ++ ("disconnect", disconnects (some id)) ∷ [])
              s'.listeners;
      }

  meets_lem :
      (id channel : String) (r : Fields) (u : A.Db) (s : State)
      → s.table.connected ≡ true
      → id ≢ ""
      → id ≢ "undefined"
      → has_open_session id s ≡ false
      → A.update_by (id_filter (some id)) (channel_change channel) s.users ≡ (ok (some r), u)
      → opens (some (some id)) channel s
        ≡ met id channel u (record s { opened = at channel true s.opened })
  unfolding opens on_connect accept
  meets_lem id channel r u s c e d h m =
      let s0 : State = record s { opened = at channel true s.opened } in
      ground (
        arith,
        eq_iff id "undefined",
        d,
        no_session_lem id s0 c e h,
        update_lem id channel r u s0 c e m,
      )

  -- A character without a session connects by a new channel without listeners, and has a session.
  -- When this channel closes, the session has ended and the record has been updated once more; but the
  -- channel is still on the list of the bound ones.
  -- The conditions: the table has its connection, the identifier is neither empty nor "undefined", and
  -- both updates of the record succeed.
  pub comes_and_goes :
      (id channel : String) (r r' : Fields) (u u' : A.Db) (s : State)
      → s.table.connected ≡ true
      → id ≢ ""
      → id ≢ "undefined"
      → s.listeners channel ≡ []
      → has_open_session id s ≡ false
      → A.update_by (id_filter (some id)) (channel_change channel) s.users ≡ (ok (some r), u)
      → A.update_by (id_filter (some id)) (channel_change "") u ≡ (ok (some r'), u')
      → let s' = opens (some (some id)) channel s in
        let s'' = closes channel s' in
        (has_open_session id s' ≡ true)
        × ((has_open_session id s'' ≡ false) × (s''.users ≡ u') × (s''.opened channel ≡ false))
        × (is_bound channel s'' ≡ true)
  unfolding closes run_handler
  comes_and_goes id channel r r' u u' s c e d fresh h m m' =
      let s0 : State = record s { opened = at channel true s.opened } in
      let in' = entered-Entered id channel u s0 c in
      let s1 = met id channel u s0 in
      let s2 : State = record s1 { opened = at channel false s1.opened } in
      let hs : handlers "disconnect" (s1.listeners channel) ≡ disconnects (some id) ∷ [] = ground (
        arith,
        fresh,
        eq_refl channel,
        in'.own,
        handlers-last "disconnect" (disconnects (some id))
            ((entered id channel u s0).listeners channel),
      ) in
      let over = handle_disconnect_lem id r' u' s2 in'.connected e m' in
      let gone : closes channel s1 ≡ record s2 {
        users = u';
        table = record s2.table { db = hdel "socket-sessions" id s2.table.db };
      } =
        ground (arith, hs, over) in
      rw (meets_lem id channel r u s c e d h m, gone)
        (
          in'.session,
          (
            ground (
              arith,
              eq_refl id,
              B.hget-hdel "socket-sessions" id "socket-sessions" id s2.table.db,
            ),
            refl,
            ground (arith, eq_refl channel),
          ),
          ground (
            arith,
            in'.bound,
            B.hget-hdel "socket-sessions" id "channel-bound-events" channel s2.table.db,
          ),
        )
