-- ===== src/Server/Cron.antt =====
-- src/providers/cronjobs/CronJobScheduler.ts: a task that the timers of several processes start.
pub mod Exclusive
use Prim.Native.String.{◌++◌}
use startup_api.Base.{
  ℕ, String, ◌≡◌, refl, Bool, true, false, not, Option, none, some, if◌then◌else◌, arith, eq_refl,
  is_some, ◌∙◌,
}
use startup_api.Base.Value.{bool}
use startup_api.Base.Exec.{Result, ok, err}
use startup_api.Redis.{Backend}
use startup_api.HashTable.{Table}
use startup_api.Locks.{lock, unlock}
use startup_api.Locks.Exclusion.{lock_lem}
use startup_api.Locks.Events.{taken, released}
use startup_api.Server.Tracking.{Called, throws, promises, Settled, track_transaction}

abbrev pub cron_lock : String → String
cron_lock id = "cron-job-unique-schedule-" ++ id

-- `unit_test` and `sampled` are those of the tracking. A task works on the table.
module _ (unit_test sampled : Bool) ⦃B : Backend⦄ where
  open B use {Db, hget}

  abbrev pub Task : Type 0
  Task = Table Db → Called Unit × Table Db

  -- `async () => { await task(); }`
  abbrev in_async : Task → Task
  in_async task t =
      let (c, t') = task t in
      elim c [ throws e ↦ (promises (err e), t') | promises r ↦ (promises r, t') ]

  unfoldable pub tracked_task : Task → Table Db → Settled Unit × Table Db
  unfolding track_transaction
  tracked_task task = track_transaction unit_test sampled false (in_async task)

  -- What a throw of the task is, is logged. A task that is not settled is waited for.
  unfoldable pub run_locked : String → Task → Table Db → Settled Unit × Table Db
  unfolding tracked_task
  run_locked id task t =
      let (r, t') = tracked_task task t in
      elim r [
        | none ↦ (none, t')
        | some _ ↦ let (q, t'') = unlock (cron_lock id) t' in (some q, t'')
      ]

  -- What the timer calls.
  unfoldable pub unique_schedule : String → Task → Table Db → Settled Unit × Table Db
  unfolding run_locked
  unique_schedule id task t =
      let (r, t') = lock (cron_lock id) none t in
      elim r [
        | err e ↦ (some (err e), t')
        | ok can_proceed ↦ if not can_proceed then (some (ok tt), t') else run_locked id task t'
      ]

  unfoldable pub multiple_schedule : Task → Table Db → Settled Unit × Table Db
  unfolding tracked_task
  multiple_schedule task t =
      let (r, t') = tracked_task task t in
      elim r [ none ↦ (none, t') | some _ ↦ (some (ok tt), t') ]

  ticks :
      (id : String) (task : Task) (t : Table Db)
      → t.connected ≡ true
      → (task (taken (cron_lock id) t)).1.connected ≡ true
      → unique_schedule id task t ≡ (
        some (ok tt),
        if is_some (hget "locks" (cron_lock id) t.db)
            then t
            else released (cron_lock id) (task (taken (cron_lock id) t)).1,
      )
  unfolding unique_schedule lock unlock
  ticks id task t c keeps =
      ground (arith, B.hsetnx_lem "locks" (cron_lock id) (B.stringify (bool true)) t.db)

  given_again :
      (id : String) (b : Bool) (t u : Table Db)
      → t.connected ≡ true
      → u.connected ≡ true
      → is_some (hget "locks" (cron_lock id) t.db) ≡ b
      → (lock (cron_lock id) none (if b then t else released (cron_lock id) u)).0
        ≡ ok (if b then false else true)
  given_again id true t u c keeps h = lock_lem (cron_lock id) none t c ∙ ground (arith, h)
  given_again id false t u c keeps h =
      lock_lem (cron_lock id) none (released (cron_lock id) u) keeps
      ∙ ground (
        arith,
        eq_refl (cron_lock id),
        B.hget-hdel "locks" (cron_lock id) "locks" (cron_lock id) u.db,
      )

  -- While the lock of the job is free, the task runs once, on the table in which the lock is taken;
  -- whether it throws at once, or later, or not at all, and whether or not it is tracked, the call
  -- ends, and the lock is released in what the task left: the timer of another process that is later
  -- than that is given the lock too, and runs the task again. While the lock is held, nothing happens,
  -- and it stays held. The conditions: the table has its connection, and the task does not lose it.
  pub tick_lem :
      (id : String) (task : Task) (t : Table Db)
      → t.connected ≡ true
      → (task (taken (cron_lock id) t)).1.connected ≡ true
      → let held = is_some (hget "locks" (cron_lock id) t.db) in
        (unique_schedule id task t ≡ (
          some (ok tt),
          if held then t else released (cron_lock id) (task (taken (cron_lock id) t)).1,
        ))
        × ((lock (cron_lock id) none (unique_schedule id task t).1).0
            ≡ ok (if held then false else true))
  tick_lem id task t c keeps =
      (ticks id task t c keeps, rw (ticks id task t c keeps) (given_again id _ t _ c keeps refl))
