-- ===== src/Locks/Events.antt =====
-- Handlers under a lock: which of them run, and what is left of the lock.
use mathlib.Core.List.{◌++◌ as append}
use startup_api.Base.{
  ◌∙◌, ℕ, String, ◌≡◌, refl, true, Option, none, List, [], ◌∷◌, str_eq, if◌then◌else◌, arith,
  eq_iff, eq_refl, keep,
}
use startup_api.Base.Value.{bool}
use startup_api.Base.Exec.{ok}
use startup_api.Redis.{Backend}
use startup_api.HashTable.{Table, Action}
use startup_api.Locks.{
  lock, unlock, under_lock, event_lock, channel_lock, perform_locked_event, on_event, Listeners,
  other_event, auth_character_on,
}
use startup_api.Locks.Exclusion.{lock_lem, Held}

module _ ⦃B : Backend⦄ where
  open B use {Db, hget, hset, hdel, stringify}

  abbrev pub taken : String → Table Db → Table Db
  taken name t = record t { db = hset "locks" name (stringify (bool true)) t.db }

  abbrev pub released : String → Table Db → Table Db
  released name t = record t { db = hdel "locks" name t.db }

  under_lock-free :
      (name : String) (callback : Action Unit) (t : Table Db)
      → t.connected ≡ true
      → hget "locks" name t.db ≡ none
      → (callback (taken name t)).1.connected ≡ true
      → under_lock name callback t ≡ (ok tt, released name (callback (taken name t)).1)
  unfolding under_lock unlock lock
  under_lock-free name callback t c f keeps =
      ground (arith, B.hsetnx_lem "locks" name (stringify (bool true)) t.db)

  under_lock-busy :
      (name : String) (callback : Action Unit) (t : Table Db)
      → Held name t
      → under_lock name callback t ≡ (ok tt, released name t)
  unfolding under_lock unlock lock
  under_lock-busy name callback t (c, h) =
      ground (arith, B.hsetnx_lem "locks" name (stringify (bool true)) t.db)

  -- While the lock is free, the handler runs once on the table in which the lock is taken; whether
  -- it returns or throws, the call returns, and the lock is released in what the handler left. The
  -- condition is that the handler does not lose the connection.
  -- The table has its connection at the start, too.
  pub event_runs_locked :
      (id event : String) (callback : Action Unit) (t : Table Db)
      → t.connected ≡ true
      → hget "locks" (event_lock event id) t.db ≡ none
      → (callback (taken (event_lock event id) t)).1.connected ≡ true
      → perform_locked_event id event callback t
        ≡ (ok tt, released (event_lock event id) (callback (taken (event_lock event id) t)).1)
  unfolding perform_locked_event
  event_runs_locked id event callback t c f keeps = under_lock-free _ callback t c f keeps

  -- While another handler holds the lock, the call does not run its own handler, whatever that is,
  -- and yet releases the lock of the other: the next client that asks is given it.
  pub busy_event_frees_lock :
      (id event : String) (callback : Action Unit) (ttl : Option ℕ) (t : Table Db)
      → Held (event_lock event id) t
      → let r = perform_locked_event id event callback t in
        (r ≡ (ok tt, released (event_lock event id) t))
        × ((lock (event_lock event id) ttl r.1).0 ≡ ok true)
  unfolding perform_locked_event
  busy_event_frees_lock id event callback ttl t h =
      rw (under_lock-busy (event_lock event id) callback t h) (
        refl,
        lock_lem (event_lock event id) ttl (released (event_lock event id) t) h.0
            ∙ ground (
              arith,
              eq_refl (event_lock event id),
              B.hget-hdel "locks" (event_lock event id) "locks" (event_lock event id) t.db,
            ),
      )

  -- The same of the listener that SocketAuth installs on a channel.
  busy_listener_frees_lock :
      (channel_id event : String) (callback : Action Unit) (ttl : Option ℕ) (t : Table Db)
      → Held (channel_lock event channel_id) t
      → let r = on_event channel_id event callback t in
        (r ≡ (ok tt, released (channel_lock event channel_id) t))
        × ((lock (channel_lock event channel_id) ttl r.1).0 ≡ ok true)
  unfolding on_event
  busy_listener_frees_lock id event callback ttl t h =
      rw (under_lock-busy (channel_lock event id) callback t h) (
        refl,
        lock_lem (channel_lock event id) ttl (released (channel_lock event id) t) h.0
            ∙ ground (
              arith,
              eq_refl (channel_lock event id),
              B.hget-hdel "locks" (channel_lock event id) "locks" (channel_lock event id) t.db,
            ),
      )

-- The handlers of an event, in the order in which they were added.
abbrev pub handlers : {H : Type 0} → String → Listeners H → List H
handlers e [] = []
handlers e ((n, h) ∷ ls) = let rest = handlers e ls in if str_eq n e then h ∷ rest else rest

handlers-add :
    {H : Type 0} (e n : String) (h : H) (ls : Listeners H)
    → handlers n (append (keep (other_event e) ls) ((e, h) ∷ []))
      ≡ (if str_eq e n then h ∷ [] else handlers n ls)
handlers-add e n h [] = ground arith
handlers-add e n h ((m, g) ∷ ls) =
    ground (arith, eq_iff m e, eq_iff m n, eq_iff e n, handlers-add e n h ls)

-- Installing a handler for an event leaves it as the only one for that event, and every other
-- event with the handlers that it had.
pub handlers-auth_character_on :
    {H : Type 0} (e n : String) (h : H) (ls : Listeners H)
    → handlers n (auth_character_on e h ls) ≡ (if str_eq e n then h ∷ [] else handlers n ls)
unfolding auth_character_on
handlers-auth_character_on e n h ls = handlers-add e n h ls
