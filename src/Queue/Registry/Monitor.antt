-- ===== src/Queue/Registry/Monitor.antt =====
-- What is set up for a queue, and what is left when it is taken down.
use startup_api.Base.{
  ℕ, String, ◌≡◌, refl, ap, Bool, true, false, none, List, [], ◌∷◌, includes, arith, eq_iff,
  eq_refl,
}
use startup_api.Base.Value.{Value, bool}
use startup_api.Base.Exec.{Result, ok}
use startup_api.Redis.{Backend}
use startup_api.HashTable.{Table}
use startup_api.HashTable
use startup_api.Locks
use startup_api.Locks.Exclusion.{unlock_lem}
use startup_api.Queue.Registry.{
  monitor_lock, with_name, without_name, Registry, monitor_connections, init_or_fetch_worker,
  init_or_fetch_queue, clean_up,
}

includes-with_name :
    (name : String) (names : List String) → includes name (with_name name names) ≡ true
includes-with_name name names = ground (arith, includes name names, eq_refl name)

includes-without_name :
    (name : String) (names : List String) → includes name (without_name name names) ≡ false
includes-without_name name [] = refl
includes-without_name name (n ∷ names) =
    ground (arith, includes-without_name name names, eq_iff n name)

module _ (text_of : ℕ → String) (number_of : Value → ℕ) (enabled : Bool) (pool : Result (Unit {0}))
    ⦃B : Backend⦄ where
  open B use {Db}

  monitor-queues :
      (name : String) (w : Registry Db)
      → (monitor_connections text_of number_of enabled pool name w).1.queues ≡ w.queues
  unfolding monitor_connections
  monitor-queues name w = ground (arith, Locks.lock (monitor_lock name) none w.table)

  worker-queues :
      (scaling : HashTable.Action Unit) (name : String) (w : Registry Db)
      → (init_or_fetch_worker text_of number_of enabled pool scaling name w).1.queues ≡ w.queues
  unfolding init_or_fetch_worker
  worker-queues scaling name w = ground (arith, scaling w.table)

  has_queue :
      (known : Bool) (first : HashTable.Action Unit) (name : String) (w : Registry Db)
      → includes name w.queues ≡ known
      → includes name (init_or_fetch_queue text_of number_of enabled pool first name w).1.queues
        ≡ true
  unfolding init_or_fetch_queue
  has_queue true first name w k = ground (arith, k)
  has_queue false first name w k =
      let w₁ = record w { queues = with_name name w.queues } in
      let w₂ = (monitor_connections text_of number_of enabled pool name w₁).1 in
      ground (
        arith,
        k,
        ap (includes name) (monitor-queues name w₁),
        ap (includes name) (worker-queues first name w₂),
        includes-with_name name w.queues,
      )

  -- Once a queue has been asked for, asking for it again changes nothing, however its set-up ended:
  -- there is one queue, and a worker that could not be made the first time is not made later.
  init_or_fetch_queue_twice :
      (first second : HashTable.Action Unit) (name : String) (w : Registry Db)
      → let w' = (init_or_fetch_queue text_of number_of enabled pool first name w).1 in
        init_or_fetch_queue text_of number_of enabled pool second name w' ≡ (ok tt, w')
  unfolding init_or_fetch_queue
  init_or_fetch_queue_twice first second name w = ground (arith, has_queue _ first name w refl)

  -- Setting up the monitor of a queue with nobody in the way leaves its lock free again, while the
  -- interval runs: the next call sets up a second interval.
  -- The condition is that the table has its connection.
  monitor_lock_is_free :
      (name : String) (w : Registry Db)
      → w.table.connected ≡ true
      → B.hget "locks" (monitor_lock name) w.table.db ≡ none
      → (w' : Registry Db) × (monitor_connections text_of number_of enabled pool name w
          ≡ (ok tt, w'))
        × (w'.intervals ≡ name ∷ w.intervals)
        × (w'.table.connected ≡ true)
        × (B.hget "locks" (monitor_lock name) w'.table.db ≡ none)
  unfolding monitor_connections Locks.lock
  monitor_lock_is_free name w c f =
      let key = monitor_lock name in
      let taken = B.hset "locks" key (B.stringify (bool true)) w.table.db in
      (
        record w {
          table = record w.table { db = B.hdel "locks" key taken };
          connections = with_name name w.connections;
          intervals = name ∷ w.intervals;
        },
        ground (
          arith,
          c,
          f,
          B.hsetnx_lem "locks" key (B.stringify (bool true)) w.table.db,
          unlock_lem key (record w.table { db = taken }) c,
        ),
        refl,
        c,
        ground (arith, B.hget-hdel "locks" key "locks" key taken, eq_refl key),
      )

  -- Taking a queue down, once its worker and the queue itself close, leaves nothing of it in the
  -- three maps; if one of them does not close, its connection is given back all the same.
  pub clean_up_lem :
      (worker_closes queue_closes : Bool) (name : String) (w : Registry Db)
      → let w' = clean_up text_of number_of enabled pool true true name w in
        (includes name w'.workers ≡ false)
        × (includes name w'.queues ≡ false)
        × (includes name w'.connections ≡ false)
        × (includes name
              (clean_up text_of number_of enabled pool worker_closes queue_closes name
                w).connections
            ≡ false)
  unfolding clean_up
  clean_up_lem worker_closes queue_closes name w = (
    ground (arith, includes-without_name name w.workers),
    ground (arith, includes-without_name name w.queues),
    ground (arith, includes-without_name name w.connections),
    ground (arith, includes-without_name name w.connections),
  )
