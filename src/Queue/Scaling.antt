-- ===== src/Queue/Scaling.antt =====
-- How many workers and queues there are.
use startup_api.Base.{
  ℕ, ◌+◌, ◌-◌, ◌*◌, ◌≤◌, min, String, ◌≡◌, true, false, str_eq, ltb, arith, eq_refl,
}
use startup_api.Base.Value.{Value, str}
use startup_api.Base.Exec.{ok}
use startup_api.Redis.{Backend}
use startup_api.HashTable
use startup_api.HashTable.{Table}
use startup_api.HashTable.Laws.{read-stringify}
use startup_api.Queue.{
  inactivity_threshold, calculate_concurrency, scale_factor_for, update_queue_activity,
  should_shutdown_queue,
}

-- However many entities are active: a worker that may run jobs side by side runs at least the
-- default number of them and at most twice as many, exactly one more for each entity in between,
-- and never fewer when there are more entities.
calculate_concurrency-bounds :
    (concurrency active more : ℕ)
    → (concurrency ≤ calculate_concurrency concurrency active)
      × (calculate_concurrency concurrency active ≤ concurrency * 2)
      × (calculate_concurrency concurrency active
          ≤ calculate_concurrency concurrency (active + more))
      × (calculate_concurrency concurrency active ≡ concurrency + min active concurrency)
unfolding calculate_concurrency
calculate_concurrency-bounds concurrency active more =
    (omega arith, omega arith, omega arith, omega arith)

-- The factor of a scaled queue is between one and its limit, and is one up to ten entities.
-- The condition is that the limit is at least one.
scale_factor_for-bounds :
    (count limit : ℕ)
    → 1 ≤ limit
    → (1 ≤ scale_factor_for count limit)
      × (scale_factor_for count limit ≤ limit)
      × (scale_factor_for (min count 10) limit ≡ 1)
unfolding scale_factor_for
scale_factor_for-bounds count limit h = (omega (arith, h), omega arith, omega (arith, h))

module _ (text_of : ℕ → String) (number_of : Value → ℕ) ⦃B : Backend⦄ where
  open B use {Db}

  -- A queue that was active at a time is to be shut down exactly when more than a minute has passed since, as
  -- long as the text of that time is not empty and is read back as the time.
  -- The table has its connection.
  should_shutdown-update :
      (earlier now : ℕ) (queue_name : String) (t : Table Db)
      → t.connected ≡ true
      → number_of (str (text_of earlier)) ≡ earlier
      → str_eq (text_of earlier) "" ≡ false
      → (t' : Table Db) × (update_queue_activity text_of number_of earlier queue_name t
          ≡ (ok tt, t'))
        × (should_shutdown_queue text_of number_of now queue_name t'
            ≡ (ok (ltb inactivity_threshold (now - earlier)), t'))
  unfolding update_queue_activity should_shutdown_queue HashTable.set HashTable.get
      HashTable.ensure_connection
  should_shutdown-update earlier now queue_name t c reads not_empty = (
    record t { db = B.hset "queue-activity" queue_name (B.stringify (str (text_of earlier))) t.db },
    ground (arith, c),
    ground (
      arith,
      c,
      B.hget-hset "queue-activity" queue_name "queue-activity" queue_name
          (B.stringify (str (text_of earlier))) t.db,
      eq_refl queue_name,
      read-stringify (str (text_of earlier)),
      reads,
      not_empty,
    ),
  )
