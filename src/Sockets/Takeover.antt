-- ===== src/Sockets/Takeover.antt =====
-- A connection that takes the place of an older one.
use startup_api.Base.{
  String, true, false, ◌≡◌, ◌≢◌, refl, some, [], ◌∷◌, if◌then◌else◌, arith, eq_iff, eq_refl,
}
use mathlib.Core.List.{◌++◌}
use startup_api.Base.Value.{str, bool, Fields, get}
use startup_api.Base.Exec.{ok}
use startup_api.Redis.{Backend}
use startup_api.Locks.Events.{handlers}
use startup_api.Sessions.{World, unbind_events_lem, bound}
use startup_api.Repository.Database.{Adapter}
use startup_api.Repository
use startup_api.Repository.{populated, rewrap}
use startup_api.Sockets.{
  Handler, disconnects, State, to_user, force_disconnect, id_filter, channel_change, select_channel,
  text_of, at, as_sent, emit_to_user, get_channel_by_id, disconnect_previous_session,
  handle_existing_character_session, accept, on_connect, opens, closes,
}
use startup_api.Sockets.Entering.{
  handlers-last, delete_session_lem, has_session_lem, has_open_session, is_bound, joining, entered,
  update_lem, entered-Entered,
}

module _ ⦃B : Backend⦄ ⦃A : Adapter⦄ where
  open B use {hget, hset, hdel, stringify}

  abbrev cleared : String → State → World Handler
  cleared old s = record { table = s.table; listeners = at old [] s.listeners old }

  abbrev unbound : String → State → World Handler
  unbound old s =
      let w = cleared old s in
      if bound old w
      then record {
        table = record w.table { db = hdel "channel-bound-events" old w.table.db };
        listeners = [];
      }
      else w

  -- The state after the session of an older channel was ended.
  abbrev left : String → String → State → State
  left id old s =
      let w = unbound old s in
      record s {
        emitted = to_user old "ForceDisconnect" force_disconnect ∷ s.emitted;
        listeners = at old w.listeners (at old [] s.listeners);
        table = record w.table { db = hdel "socket-sessions" id w.table.db };
      }

  emit_lem :
      (old : String) (s : State)
      → old ≢ ""
      → emit_to_user (some old) "ForceDisconnect" (some force_disconnect) s
        ≡ record s { emitted = to_user old "ForceDisconnect" force_disconnect ∷ s.emitted }
  unfolding emit_to_user as_sent
  emit_lem old s e = ground (arith, eq_iff old "", e, B.parse-stringify force_disconnect)

  disconnect_lem :
      (id old : String) (s : State)
      → s.table.connected ≡ true
      → id ≢ ""
      → old ≢ ""
      → s.opened old ≡ true
      → disconnect_previous_session (some old) id s ≡ (ok tt, left id old s)
  unfolding disconnect_previous_session get_channel_by_id
  disconnect_lem id old s c e f o = ground (
    arith,
    c,
    o,
    emit_lem old s f,
    unbind_events_lem old (cleared old s) c,
    delete_session_lem id (unbound old s).table (ground (arith, c)) e,
  )

  existing_lem :
      (id old : String) (r : Fields) (s : State)
      → s.table.connected ≡ true
      → id ≢ ""
      → old ≢ ""
      → s.opened old ≡ true
      → has_open_session id s ≡ true
      → A.find_by_id id (some select_channel) s.users ≡ ok (some r)
      → text_of (get "channel" (populated ⦃A = A⦄ r)) ≡ some old
      → handle_existing_character_session id s ≡ (ok tt, left id old s)
  unfolding handle_existing_character_session Repository.find_by_id rewrap
  existing_lem id old r s c e f o h g k =
      ground (arith, c, h, g, k, has_session_lem id s.table c e, disconnect_lem id old s c e f o)

  left_lem :
      (id old : String) (s : State)
      → s.table.connected ≡ true
      → let s' = left id old s in
        (s'.table.connected ≡ true) × (s'.listeners old ≡ []) × (is_bound old s' ≡ false)
  left_lem id old s c =
      let db = (unbound old s).table.db in
      (
        ground (arith, c),
        ground (arith, eq_refl old),
        ground (
          arith,
          eq_refl old,
          B.hget-hdel "channel-bound-events" old "channel-bound-events" old s.table.db,
          B.hget-hdel "socket-sessions" id "channel-bound-events" old db,
        ),
      )

  -- Entering another channel leaves one unbound that was not bound.
  entered-is_bound :
      (id old channel : String) (u : A.Db) (s : State)
      → old ≢ channel
      → is_bound old s ≡ false
      → is_bound old (entered id channel u s) ≡ false
  entered-is_bound id old channel u s n b =
      let w = joining id channel s in
      ground (
        arith,
        b,
        eq_iff channel old,
        n,
        B.hget-hset "socket-sessions" id "channel-bound-events" old (stringify (str id)) s.table.db,
        B.hget-hset "channel-bound-events" channel "channel-bound-events" old
            (stringify (bool true)) w.table.db,
      )

  -- What `accept` does after the session of the older channel was ended.
  abbrev taken_over : String → String → String → A.Db → State → State
  taken_over id old channel u s =
      let s' = entered id channel u (left id old s) in
      record s' {
        listeners =
            at channel (s'.listeners channel ++ ("disconnect", disconnects (some id)) ∷ [])
              s'.listeners;
      }

  opens_lem :
      (id old channel : String) (r r' : Fields) (u : A.Db) (s : State)
      → s.table.connected ≡ true
      → id ≢ ""
      → id ≢ "undefined"
      → old ≢ ""
      → s.opened old ≡ true
      → has_open_session id s ≡ true
      → A.find_by_id id (some select_channel) s.users ≡ ok (some r)
      → text_of (get "channel" (populated ⦃A = A⦄ r)) ≡ some old
      → A.update_by (id_filter (some id)) (channel_change channel) s.users ≡ (ok (some r'), u)
      → opens (some (some id)) channel s
        ≡ taken_over id old channel u (record s { opened = at channel true s.opened })
  unfolding opens on_connect accept
  opens_lem id old channel r r' u s c e d f o h g k m =
      let s0 : State = record s { opened = at channel true s.opened } in
      ground (
        arith,
        eq_iff id "undefined",
        d,
        existing_lem id old r s0 c e f (ground (arith, o)) h g k,
        update_lem id channel r' u (left id old s0) (left_lem id old s0 c).0 e m,
      )

  -- A character that has a session connects again, by a new channel without listeners, while the
  -- channel that its record names is still open. Then it has a session, and the update of the record;
  -- the new channel is bound and will end the session when it closes. The old channel was told to
  -- disconnect, has no listeners and is not bound, so that closing it afterwards does nothing but to
  -- close it: the new session stays.
  -- The conditions: the table has its connection; the identifier is neither empty nor "undefined"; the
  -- old channel's name is not empty and not the new one's; the record is found and its update
  -- succeeds.
  pub takes_over :
      (id old channel : String) (r r' : Fields) (u : A.Db) (s : State)
      → s.table.connected ≡ true
      → id ≢ ""
      → id ≢ "undefined"
      → old ≢ ""
      → old ≢ channel
      → s.listeners channel ≡ []
      → s.opened old ≡ true
      → has_open_session id s ≡ true
      → A.find_by_id id (some select_channel) s.users ≡ ok (some r)
      → text_of (get "channel" (populated ⦃A = A⦄ r)) ≡ some old
      → A.update_by (id_filter (some id)) (channel_change channel) s.users ≡ (ok (some r'), u)
      → let s' = opens (some (some id)) channel s in
        ((has_open_session id s' ≡ true) × (s'.users ≡ u) × (is_bound channel s' ≡ true))
        × (handlers "disconnect" (s'.listeners channel) ≡ disconnects (some id) ∷ [])
        × ((s'.emitted ≡ to_user old "ForceDisconnect" force_disconnect ∷ s.emitted)
            × (s'.listeners old ≡ [])
            × (is_bound old s' ≡ false))
        × (closes old s' ≡ record s' { opened = at old false s'.opened })
  unfolding closes
  takes_over id old channel r r' u s c e d f n fresh o h g k m =
      let s0 : State = record s { opened = at channel true s.opened } in
      let (c', none_left, not_bound) = left_lem id old s0 c in
      let in' = entered-Entered id channel u (left id old s0) c' in
      let still = entered-is_bound id old channel u (left id old s0) n not_bound in
      rw (opens_lem id old channel r r' u s c e d f o h g k m) (
        (in'.session, refl, in'.bound),
        ground (
          arith,
          fresh,
          eq_refl channel,
          eq_iff old channel,
          n,
          in'.own,
          handlers-last "disconnect" (disconnects (some id))
              ((entered id channel u (left id old s0)).listeners channel),
        ),
        (refl, ground (arith, eq_refl channel, eq_iff channel old, n, none_left), still),
        ground (arith, eq_refl channel, eq_iff channel old, n, none_left),
      )
