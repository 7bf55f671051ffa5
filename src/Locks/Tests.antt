-- ===== src/Locks/Tests.antt =====
-- Examples of the locks.
use startup_api.Base.{String, ◌≡◌, refl, true, false, none, some, List, [], ◌∷◌}
use startup_api.Base.Exec.{ok, pure, ◌>>◌}
use startup_api.Redis.Memory.{Server, memory, memory_start, hget, hset, hsetnx}
use startup_api.HashTable.{Table}
use startup_api.Locks.{lock, event_lock, channel_lock, perform_locked_event}
use startup_api.Locks.Exclusion.{Call, locks, asks, unlocks, run, lock_excludes}
use startup_api.Locks.Refinement.{set_of_keys, answers, is_locked, last}
use startup_api.Locks.Events.{event_runs_locked, busy_event_frees_lock, taken, released}

abbrev table : Table Server
table = record { unit_test = false; reachable = true; connected = true; db = memory_start }

abbrev calls : List Call
calls = locks "door" none ∷ unlocks "door" ∷ asks "gate" ∷ []

-- The table in which the locks of an event and of a channel are held.
abbrev busy : Table Server
busy = taken (channel_lock "Move" "7") (taken (event_lock "Move" "7") table)

lock_excludes_example : (lock "gate" none (run calls (lock "gate" (some 5) table).1)).0 ≡ ok false
lock_excludes_example = lock_excludes "gate" (some 5) none calls table refl (tt, (refl, (tt, tt)))

event_runs_locked_example : perform_locked_event "7" "Move" (lock "gate" none >> pure tt) table ≡ (
  ok tt,
  released
      (event_lock "Move" "7")
      ((lock "gate" none >> pure tt) (taken (event_lock "Move" "7") table)).1,
)
unfolding hget lock hsetnx hset
event_runs_locked_example =
    event_runs_locked "7" "Move" (lock "gate" none >> pure tt) table refl refl refl

busy_event_frees_lock_example :
    let r = perform_locked_event "7" "Move" (pure tt) busy in
    (r ≡ (ok tt, released (event_lock "Move" "7") busy))
    × ((lock (event_lock "Move" "7") none r.1).0 ≡ ok true)
unfolding hget hset
busy_event_frees_lock_example = busy_event_frees_lock "7" "Move" (pure tt) none busy (refl, refl)

set_of_keys_example :
    (answers calls table ≡ ok (some true) ∷ ok none ∷ ok (some false) ∷ [])
    × ((k : String) → is_locked (run calls table) k ≡ last calls (is_locked table) k)
unfolding hget
set_of_keys_example = set_of_keys calls table refl
