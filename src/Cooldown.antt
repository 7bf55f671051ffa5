-- ===== src/Cooldown.antt =====
-- src/providers/time/Cooldown.ts: a key is on cooldown until the time that is stored for it. The
-- clock (`Date.now()`, in milliseconds) is an argument.
use startup_api.Base.{
  ℕ, ◌+◌, ◌-◌, ◌*◌, String, ◌≡◌, Bool, true, false, Option, none, some, str_eq, if◌then◌else◌, ltb,
  arith, eq_iff,
}
use startup_api.Base.Value.{Value, null, bool, num, str, arr, obj}
use startup_api.Base.Exec.{ok, pure, ◌>>=◌}
use startup_api.Redis.{Backend}
use startup_api.HashTable
use startup_api.HashTable.{Table, Action, read}

-- `Math.max(0, cooldown - now)`, where the cast of the value to a number is taken at its word: only
-- numbers are stored. What is falsy counts as no cooldown.
abbrev pub time_left : Option Value → ℕ → ℕ
time_left none now = 0
time_left (some (num t)) now = t - now
time_left (some null) now = 0
time_left (some (bool b)) now = 0
time_left (some (str s)) now = 0
time_left (some (arr xs)) now = 0
time_left (some (obj fs)) now = 0

module _ ⦃B : Backend⦄ where
  open B use {Db}

  unfoldable pub set_cooldown : ℕ → String → ℕ → Action Unit
  unfolding HashTable.set
  set_cooldown now key seconds = do
    let expiry = now + seconds * 1000
    HashTable.set "time-cooldown" key (num expiry)

  unfoldable pub get_remaining_cooldown_time : ℕ → String → Action ℕ
  unfolding HashTable.get
  get_remaining_cooldown_time now key = do
    cooldown ← HashTable.get "time-cooldown" key
    pure (time_left cooldown now)

  unfoldable pub is_on_cooldown : ℕ → String → Action Bool
  unfolding get_remaining_cooldown_time
  is_on_cooldown now key = do
    remaining ← get_remaining_cooldown_time now key
    pure (ltb 0 remaining)

  unfoldable pub clear_cooldown : String → Action Unit
  unfolding HashTable.delete
  clear_cooldown key = HashTable.delete "time-cooldown" key

  unfoldable pub clear_all : Action Unit
  unfolding HashTable.delete_all
  clear_all = HashTable.delete_all "time-cooldown"

  -- After a cooldown of some seconds is set at one time, the key is on cooldown at a later question
  -- exactly if the seconds have not passed by then, and other keys answer as they did before.
  -- The condition is that the table has its connection.
  is_on_cooldown-set :
      (now later seconds : ℕ) (key other : String) (t : Table Db)
      → t.connected ≡ true
      → (is_on_cooldown later other (set_cooldown now key seconds t).1).0 ≡ (
          if str_eq key other
          then ok (ltb later (now + seconds * 1000))
          else (is_on_cooldown later other t).0)
  unfolding is_on_cooldown set_cooldown
  is_on_cooldown-set now later seconds key other t c = ground (
    arith,
    eq_iff key other,
    B.hget-hset "time-cooldown" key "time-cooldown" other (B.stringify (num (now + seconds * 1000)))
        t.db,
    B.is_empty-stringify (num (now + seconds * 1000)),
    B.parse-stringify (num (now + seconds * 1000)),
  )

  -- Clearing one cooldown ends it at every time and leaves the others; clearing all ends each.
  -- The condition is that the table has its connection.
  cleared_cooldowns :
      (later : ℕ) (key other : String) (t : Table Db)
      → t.connected ≡ true
      → ((is_on_cooldown later other (clear_cooldown key t).1).0
          ≡ (if str_eq key other then ok false else (is_on_cooldown later other t).0))
        × ((is_on_cooldown later other (clear_all t).1).0 ≡ ok false)
  unfolding is_on_cooldown clear_cooldown clear_all
  cleared_cooldowns later key other t c = (
    ground (arith, eq_iff key other, B.hget-hdel "time-cooldown" key "time-cooldown" other t.db),
    ground (arith, B.hget-del "time-cooldown" "time-cooldown" other t.db),
  )
