-- ===== src/Locks.antt =====
-- Locks in the hash table: src/providers/locks/Locker.ts, and their use around the events of a
-- socket in src/providers/sockets/SocketAuthLock.ts and SocketAuth.ts. A lock is a key of the
-- namespace `locks`; who has written it holds the lock.
pub mod Exclusion
pub mod Refinement
pub mod Events
mod Tests
use Prim.Native.String.{◌++◌}
use mathlib.Core.List.{◌++◌ as append}
use startup_api.Base.{
  ℕ, zero, suc, String, Bool, true, false, Option, none, some, List, [], ◌∷◌, str_eq, if◌then◌else◌,
  ◌&&◌, keep, not,
}
use startup_api.Base.Value.{bool}
use startup_api.Base.Exec.{Exec, ok, err, pure, gets, catch_with, finally_do, ◌>>=◌, ◌>>◌}
use startup_api.Redis.{Backend, nx}
use startup_api.HashTable
use startup_api.HashTable.{Table, Action}

-- `Boolean(ttlSeconds)`
abbrev pub has_ttl : Option ℕ → Bool
has_ttl none = false
has_ttl (some zero) = false
has_ttl (some (suc s)) = true

abbrev pub seconds : Option ℕ → ℕ
seconds none = 0
seconds (some s) = s

abbrev pub event_lock : String → String → String
event_lock event id = "event-" ++ event ++ "-" ++ id

abbrev pub channel_lock : String → String → String
channel_lock event id = "global-lock-event-" ++ event ++ "-" ++ id

module _ ⦃B : Backend⦄ where
  open B use {Db}

  -- The expiry is set on the whole hash `locks`, where each field is a lock.
  unfoldable pub lock : String → Option ℕ → Action Bool
  unfolding HashTable.set_nx HashTable.expire
  lock key ttl = do
    result ← HashTable.set_nx "locks" key (bool true)
    if result && has_ttl ttl then HashTable.expire "locks" (seconds ttl) nx else pure tt
    pure result

  unfoldable pub has_lock : String → Action Bool
  unfolding HashTable.has
  has_lock key = HashTable.has "locks" key

  unfoldable pub unlock : String → Action Unit
  unfolding HashTable.delete
  unlock key = HashTable.delete "locks" key

  unfoldable pub clear : Action Unit
  unfolding HashTable.delete_all
  clear = HashTable.delete_all "locks"

  -- SocketAuthLock
  unfoldable pub acquire_global_lock : String → Action Bool
  unfolding lock
  acquire_global_lock name = lock name none

  unfoldable pub release_global_lock : String → Action Unit
  unfolding unlock
  release_global_lock name = unlock name

  -- The `try` block: the callback runs only if the lock was free.
  unfoldable pub guarded : String → Action Unit → Action Unit
  unfolding acquire_global_lock
  guarded name callback = do
    has_locked ← acquire_global_lock name
    if has_locked then callback else pure tt

  -- `catch` logs; `finally` releases the lock, whether or not it was acquired.
  unfoldable pub under_lock : String → Action Unit → Action Unit
  unfolding guarded release_global_lock
  under_lock name callback =
      finally_do (catch_with (guarded name callback) (λ e. pure tt)) (release_global_lock name)

  unfoldable pub perform_locked_event : String → String → Action Unit → Action Unit
  unfolding under_lock
  perform_locked_event character_id event callback =
      under_lock (event_lock event character_id) callback

  -- The listener that SocketAuth installs.
  unfoldable pub on_event : String → String → Action Unit → Action Unit
  unfolding under_lock
  on_event channel_id event callback = under_lock (channel_lock event channel_id) callback

-- The listeners of a channel, by event. `removeAllListeners(event)`, then `on(event, …)`.
abbrev pub Listeners : Type 0 → Type 0
Listeners H = List (String × H)

abbrev pub other_event : {H : Type 0} → String → String × H → Bool
other_event event (name, h) = not (str_eq name event)

unfoldable pub auth_character_on : {H : Type 0} → String → H → Listeners H → Listeners H
auth_character_on event handler listeners =
    append (keep (other_event event) listeners) ((event, handler) ∷ [])
