-- ===== src/Queue/Registry.antt =====
-- The queues, workers and connections of a process: DynamicQueue's maps, and DynamicQueueCleaner.
pub mod Monitor
pub mod Shutdown
use Prim.Native.String.{◌++◌}
use startup_api.Base.{
  ℕ, String, Bool, true, false, not, ◌||◌, ◌&&◌, Option, none, some, List, [], ◌∷◌, str_eq,
  if◌then◌else◌, keep, includes,
}
use startup_api.Base.Value.{Value}
use startup_api.Base.Exec.{
  Message, literal, Error, plain, Result, ok, err, Exec, pure, raise, raise_if, catch_with,
  finally_do, gets, ◌>>=◌, ◌>>◌,
}
use startup_api.Redis.{Backend}
use startup_api.HashTable.{Table}
use startup_api.HashTable
use startup_api.Locks
use startup_api.Queue.{has_queue_activity, should_shutdown_queue, delete_queue_activity}

abbrev pub monitor_lock : String → String
monitor_lock queue_name = "queue-connection-monitor-" ++ queue_name

abbrev pub with_name : String → List String → List String
with_name name names = if includes name names then names else name ∷ names

abbrev pub without_name : String → List String → List String
without_name name names = keep (λ n. not (str_eq n name)) names

-- The keys of the three maps, the names that an interval runs for, and the jobs that were added.
pub record Registry (Db : Type 0) : Type 0 where
  pub table : Table Db
  pub queues : List String
  pub workers : List String
  pub connections : List String
  pub intervals : List String
  pub jobs : List (String × Value)

-- `enabled` is one of the modules Redis and BullMQ; `pool` what the Redis manager answers.
module _ (text_of : ℕ → String) (number_of : Value → ℕ) (enabled : Bool) (pool : Result (Unit {0}))
    ⦃B : Backend⦄ where
  open B use {Db}

  abbrev pub Action : Type 0 → Type 0
  Action R = Exec (Registry Db) R

  abbrev pub on_table : {R : Type 0} → HashTable.Action R → Action R
  on_table m w = let (r, t) = m w.table in (r, record w { table = t })

  unfoldable pub get_queue_connection : String → Action Unit
  get_queue_connection queue_name w =
      if not enabled
      then (err (plain (literal "Redis or BullMQ modules are not enabled.")), w)
      else if includes queue_name w.connections
      then (ok tt, w)
      else elim pool [
        | err e ↦ (err e, w)
        | ok _ ↦ (ok tt, record w { connections = with_name queue_name w.connections })
      ]

  -- The interval is set up and the lock released at once.
  unfoldable pub monitor_connections : String → Action Unit
  monitor_connections queue_name = do
    can_proceed ← on_table (Locks.lock (monitor_lock queue_name) none)
    if not can_proceed
        then pure tt
        else finally_do
            (λ w. (
              ok tt,
              record w {
                connections = with_name queue_name w.connections;
                intervals = queue_name ∷ w.intervals;
              },
            ))
            (on_table (Locks.unlock (monitor_lock queue_name)))

  -- `scaling` reads the number of active entities, which may throw.
  unfoldable pub init_or_fetch_worker : HashTable.Action Unit → String → Action Unit
  init_or_fetch_worker scaling queue_name w =
      if includes queue_name w.workers
      then (ok tt, w)
      else let (r, t) = scaling w.table in
        elim r [
          | err e ↦ (err e, record w { table = t })
          | ok _ ↦ (ok tt, record w { table = t; workers = with_name queue_name w.workers })
        ]

  abbrev pub add_queue : String → Action Unit
  add_queue queue_name w = (ok tt, record w { queues = with_name queue_name w.queues })

  unfoldable pub init_or_fetch_queue : HashTable.Action Unit → String → Action Unit
  init_or_fetch_queue scaling queue_name w =
      if includes queue_name w.queues
      then (ok tt, w)
      else (do
        add_queue queue_name
        monitor_connections queue_name
        init_or_fetch_worker scaling queue_name)
          w

  unfoldable pub add_job : HashTable.Action String → HashTable.Action Unit → Value → Action Unit
  add_job generate_name scaling payload = do
    queue_name ← on_table generate_name
    get_queue_connection queue_name
    init_or_fetch_queue scaling queue_name
    λ w. (ok tt, record w { jobs = (queue_name, payload) ∷ w.jobs })

  -- `closes` says of the worker and of the queue whether closing succeeds; the first failure ends the
  -- cleaning but for the connection.
  unfoldable pub clean_up : Bool → Bool → String → Registry Db → Registry Db
  clean_up worker_closes queue_closes queue_name w =
      let workers = without_name queue_name w.workers in
      let connections = without_name queue_name w.connections in
      if includes queue_name w.workers && not worker_closes
      then record w { connections = connections }
      else if includes queue_name w.queues && not queue_closes
      then record w { workers = workers; connections = connections }
      else record w {
        workers = workers;
        queues = without_name queue_name w.queues;
        connections = connections;
      }

  abbrev pub stop : Bool → Bool → String → Action Unit
  stop worker_closes queue_closes queue_name = do
    λ w. (ok tt, clean_up worker_closes queue_closes queue_name w)
    λ w. (ok tt, record w { intervals = without_name queue_name w.intervals })
    on_table (Locks.unlock (monitor_lock queue_name))

  -- What the interval does.
  unfoldable pub check_activity : ℕ → Bool → Bool → String → Action Unit
  check_activity now worker_closes queue_closes queue_name =
      catch_with
        (do
          has_activity ← on_table (has_queue_activity text_of number_of queue_name)
          should_shutdown ← on_table (should_shutdown_queue text_of number_of now queue_name)
          if should_shutdown || not has_activity
              then stop worker_closes queue_closes queue_name
              else pure tt)
        (λ e. do
          λ w. (ok tt, record w { intervals = without_name queue_name w.intervals })
          on_table (Locks.unlock (monitor_lock queue_name)))

  -- What closing throws is logged.
  unfoldable pub shutdown_each : List String → Action Unit
  shutdown_each [] = pure tt
  shutdown_each (queue_name ∷ rest) = do
    λ w. (
      ok tt,
      record w {
        workers = without_name queue_name w.workers;
        queues = without_name queue_name w.queues;
      },
    )
    on_table (delete_queue_activity text_of number_of queue_name)
    shutdown_each rest

  unfoldable pub shutdown : Action Unit
  shutdown w = shutdown_each w.queues w

  -- `removes` says of a job whether removing it succeeds; what it throws is logged.
  unfoldable pub clear_all_jobs : (String × Value → Bool) → Registry Db → Registry Db
  clear_all_jobs removes w = record w {
    jobs = keep (λ (j : String × Value). not (includes j.0 w.queues && removes j)) w.jobs;
  }
