-- ===== src/Server/Start.antt =====
-- What is left in the hash table after a start.
use startup_api.Base.{
  ℕ, ◌+◌, ◌<◌, String, ◌≡◌, ◌≢◌, Bool, true, false, ◌&&◌, Option, none, some, str_eq, if◌then◌else◌,
  [], ◌∷◌, ◌==◌, arith, eq_iff,
}
use startup_api.Base.Exec.{ok, ◌>>◌}
use startup_api.Redis.{Backend}
use startup_api.HashTable
use startup_api.Queue
use startup_api.HashTable.{Table, Action}
use startup_api.Locks.{has_lock}
use startup_api.Cooldown.{is_on_cooldown}
use startup_api.Poller.{parent_namespace}
use startup_api.Sessions.{has_session}
use startup_api.Server.{
  Settings, development, get_pm2_total_instances, is_chosen, chosen_is_last, schedule_crons,
  exec_one_time_operations, perform_one_time_operations, perform_multiple_instances_operations,
}

module _ ⦃B : Backend⦄ where
  open B use {Db, del, hget}

  -- What the operations do to the database.
  abbrev pub cleared : Settings → Db → Db
  cleared s d = del "locks" (
      del parent_namespace
        (del "time-cooldown" (if s.websocket then del "socket-sessions" d else d)))

  exec_one_time_operations_lem :
      (s : Settings) (t : Table Db)
      → t.connected ≡ true
      → exec_one_time_operations s t ≡ (ok tt, record t { db = cleared s t.db })
  unfolding exec_one_time_operations
  exec_one_time_operations_lem s t c = ground arith

  hget-cleared :
      (s : Settings) (m k : String) (d : Db)
      → hget m k (cleared s d) ≡ (
          if str_eq "locks" m
          then none
          else if str_eq parent_namespace m
          then none
          else if str_eq "time-cooldown" m
          then none
          else if s.websocket && str_eq "socket-sessions" m
          then none
          else hget m k d)
  hget-cleared s m k d = ground (
    arith,
    B.hget-del "locks" m k (
        del parent_namespace
          (del "time-cooldown" (if s.websocket then del "socket-sessions" d else d))),
    B.hget-del parent_namespace m k
        (del "time-cooldown" (if s.websocket then del "socket-sessions" d else d)),
    B.hget-del "time-cooldown" m k (if s.websocket then del "socket-sessions" d else d),
    B.hget-del "socket-sessions" m k d,
  )

  perform_one_time_operations_lem :
      (text_of : ℕ → String) (s : Settings) (pm_id : Option String) (b : Bool) (t : Table Db)
      → t.connected ≡ true
      → is_chosen text_of s pm_id ≡ b
      → perform_one_time_operations text_of s pm_id t
        ≡ (ok tt, if b then record t { db = cleared s t.db } else t)
  unfolding perform_one_time_operations
  perform_one_time_operations_lem text_of s pm_id true t c e =
      rw e (exec_one_time_operations_lem s t c)
  perform_one_time_operations_lem text_of s pm_id false t c e = rw e

  -- A start, of which the last operations are performed by every process.
  unfoldable pub perform_start_operations : (ℕ → String) → Settings → Option String → Action Unit
  perform_start_operations text_of s pm_id = do
    perform_one_time_operations text_of s pm_id
    perform_multiple_instances_operations text_of (λ v. 0) s

  abbrev after : Settings → Bool → Db → Db
  after s b d =
      let d' = if b then cleared s d else d in if s.bull_mq then del "queue-activity" d' else d'

  start_lem :
      (text_of : ℕ → String) (s : Settings) (pm_id : Option String) (b : Bool) (t : Table Db)
      → t.connected ≡ true
      → is_chosen text_of s pm_id ≡ b
      → perform_start_operations text_of s pm_id t ≡ (ok tt, record t { db = after s b t.db })
  unfolding perform_start_operations perform_multiple_instances_operations Queue.clear_all_queues
      HashTable.delete_all
  start_lem text_of s pm_id b t c e =
      ground (arith, c, perform_one_time_operations_lem text_of s pm_id b t c e)

  hget-after :
      (s : Settings) (b : Bool) (m k : String) (d : Db)
      → hget m k (after s b d) ≡ (
          if s.bull_mq && str_eq "queue-activity" m
          then none
          else if b
          then hget m k (cleared s d)
          else hget m k d)
  hget-after s b m k d =
      ground (arith, B.hget-del "queue-activity" m k (if b then cleared s d else d))

  -- What is found in the table after a start, by the last process or another one.
  abbrev pub StartsClean :
      Settings → Bool → ℕ → String → String → String → Table Db → Table Db → Type 0
  StartsClean s b now key id name t t' =
      ((has_lock key t').0 ≡ (if b then ok false else (has_lock key t).0))
      × ((is_on_cooldown now key t').0 ≡ (if b then ok false else (is_on_cooldown now key t).0))
      × ((HashTable.get parent_namespace key t').0
          ≡ (if b then ok none else (HashTable.get parent_namespace key t).0))
      × ((has_session id t').0 ≡ (if b && s.websocket then ok false else (has_session id t).0))
      × ((HashTable.get "queue-activity" key t').0
          ≡ (if s.bull_mq then ok none else (HashTable.get "queue-activity" key t).0))
      × ((HashTable.get name key t').0 ≡ (HashTable.get name key t).0)

  starts_clean :
      (s : Settings) (b : Bool) (now : ℕ) (key id name : String) (t : Table Db)
      → t.connected ≡ true
      → id ≢ ""
      → ◌≢◌ {A = String} name "locks"
      → name ≢ parent_namespace
      → ◌≢◌ {A = String} name "time-cooldown"
      → ◌≢◌ {A = String} name "socket-sessions"
      → ◌≢◌ {A = String} name "queue-activity"
      → StartsClean s b now key id name t (record t { db = after s b t.db })
  unfolding has_lock is_on_cooldown HashTable.get has_session
  starts_clean s b now key id name t c e n1 n2 n3 n4 n5 = (
    ground (
      arith,
      B.hexists_lem "locks" key (after s b t.db),
      B.hexists_lem "locks" key t.db,
      hget-after s b "locks" key t.db,
      hget-cleared s "locks" key t.db,
      eq_iff "queue-activity" "locks",
    ),
    ground (
      arith,
      hget-after s b "time-cooldown" key t.db,
      hget-cleared s "time-cooldown" key t.db,
      eq_iff "queue-activity" "time-cooldown",
      eq_iff "locks" "time-cooldown",
      eq_iff parent_namespace "time-cooldown",
    ),
    ground (
      arith,
      hget-after s b parent_namespace key t.db,
      hget-cleared s parent_namespace key t.db,
      eq_iff "queue-activity" parent_namespace,
    ),
    ground (
      arith,
      eq_iff id "",
      eq_iff "queue-activity" "socket-sessions",
      B.hexists_lem "socket-sessions" id (after s b t.db),
      B.hexists_lem "socket-sessions" id t.db,
      hget-after s b "socket-sessions" id t.db,
      hget-cleared s "socket-sessions" id t.db,
    ),
    ground
        (arith, hget-after s b "queue-activity" key t.db, hget-cleared s "queue-activity" key t.db),
    ground (
      arith,
      hget-after s b name key t.db,
      hget-cleared s name key t.db,
      eq_iff "queue-activity" name,
      eq_iff "locks" name,
      eq_iff parent_namespace name,
      eq_iff "time-cooldown" name,
      eq_iff "socket-sessions" name,
    ),
  )

  -- Outside of development, of the processes that PM2 numbers from zero, only the last one performs the
  -- one-time operations of a start, and schedules the cron jobs. After its start no lock is held, no key is on
  -- cooldown, no result is waiting to be polled, and if the websockets are enabled no character has a
  -- session; after the start of another process these are as before. With BullMQ the start of any process
  -- also clears the activities of the queues. What is kept under other names is as before.
  -- The conditions: the table has its connection, the identifier of the character is not empty,
  -- and the numbers are printed as different texts, zero as "0".
  pub last_process_cleans :
      (text_of : ℕ → String) (s : Settings) (i now : ℕ) (key id name : String) (t : Table Db)
      → s.environment ≢ development
      → i < get_pm2_total_instances s
      → text_of 0 ≡ "0"
      → ((k j : ℕ) → text_of k ≡ text_of j → k ≡ j)
      → t.connected ≡ true
      → id ≢ ""
      → ◌≢◌ {A = String} name "locks"
      → name ≢ parent_namespace
      → ◌≢◌ {A = String} name "time-cooldown"
      → ◌≢◌ {A = String} name "socket-sessions"
      → ◌≢◌ {A = String} name "queue-activity"
      → StartsClean s
          (i + 1 == get_pm2_total_instances s)
          now
          key
          id
          name
          t
          (perform_start_operations text_of s (some (text_of i)) t).1
        × (schedule_crons text_of s (some (text_of i)) ≡ (
            if i + 1 == get_pm2_total_instances s
            then "queue-clean-inactive" ∷ "redis-client-connection-count" ∷ []
            else []))
  unfolding schedule_crons
  last_process_cleans text_of s i now key id name t e lt z inj c f n1 n2 n3 n4 n5 = (
    rw (start_lem text_of s (some (text_of i)) _ t c (chosen_is_last text_of s i e lt z inj))
        (starts_clean s _ now key id name t c f n1 n2 n3 n4 n5),
    rw (chosen_is_last text_of s i e lt z inj),
  )
