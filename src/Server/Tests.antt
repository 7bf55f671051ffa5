-- ===== src/Server/Tests.antt =====
-- Examples of starts and of jobs.
use startup_api.Base.{
  ℕ, zero, suc, String, ◌≡◌, refl, ◌≤◌, true, false, none, some, if◌then◌else◌, [], ◌∷◌, arith,
  eq_iff, is_some, ap,
}
use Prim.Native.String.{◌∷◌ as ◌then◌}
use Prim.Native.Char.{Char, code}
use text.Mathlib.TextLemmas.{head-eq_of_cons-eq, tail-eq_of_cons-eq}
use startup_api.Base.Exec.{ok, plain, literal}
use startup_api.HashTable.{Table}
use startup_api.Redis.Memory.{Server, memory, memory_start, hget, hset, hsetnx}
use startup_api.Locks.{lock}
use startup_api.Locks.Events.{taken, released}
use startup_api.Server.{Settings, production, schedule_crons, get_pm2_total_instances}
use startup_api.Server.Start.{perform_start_operations, StartsClean, last_process_cleans}
use startup_api.Server.Tracking.{throws}
use startup_api.Server.Cron.{Task, cron_lock, unique_schedule, tick_lem}
use startup_api.Server.Cron.Exclusive.{Fleet, next, here, starts, one_at_a_time}

abbrev table : Table Server
table = record { unit_test = false; reachable = true; connected = true; db = memory_start }

abbrev production_settings : Settings
production_settings = record {
  environment = production;
  websocket = true;
  bull_mq = true;
  instances = 0;
  cpus = 2;
}

-- The table in which a lock was left.
abbrev left : Table Server
left = taken "door" table

abbrev job : Task true false
job t = (throws (plain (literal "failed")), taken "other" t)

tick_lem_example :
    let held = is_some (hget "locks" (cron_lock "clean") table.db) in
    (unique_schedule true false "clean" job table ≡ (
      some (ok tt),
      if held
          then table
          else released (cron_lock "clean") (job (taken (cron_lock "clean") table)).1,
    ))
    × ((lock (cron_lock "clean") none (unique_schedule true false "clean" job table).1).0
        ≡ ok (if held then false else true))
tick_lem_example = tick_lem true false "clean" job table refl refl

abbrev idle_fleet : Fleet
idle_fleet = record { table = table; running = 0 }

one_at_a_time_example : 1 ≤ 1
unfolding hget lock hsetnx hset
one_at_a_time_example =
    one_at_a_time "clean" idle_fleet
      (record { table = (lock (cron_lock "clean") none table).1; running = 1 }) refl refl
      (next here (starts idle_fleet refl))

abbrev one : Char
one = "1"

-- The numbers in unary, with a zero behind.
abbrev unary : ℕ → String
unary zero = "0"
unary (suc n) = one then unary n

unary_inj : (k j : ℕ) → unary k ≡ unary j → k ≡ j
unary_inj zero zero e = refl
unary_inj zero (suc j) e =
    let h : 48 ≡ 49 = ap code (head-eq_of_cons-eq e) in absurd (omega (arith, h))
unary_inj (suc k) zero e =
    let h : 49 ≡ 48 = ap code (head-eq_of_cons-eq e) in absurd (omega (arith, h))
unary_inj (suc k) (suc j) e = ap suc (unary_inj k j (tail-eq_of_cons-eq e))

last_process_cleans_example :
    let t' = (perform_start_operations unary production_settings (some (unary 1)) left).1 in
    StartsClean production_settings true 5 "door" "7" "other" left t'
    × (schedule_crons unary production_settings (some (unary 1))
        ≡ "queue-clean-inactive" ∷ "redis-client-connection-count" ∷ [])
unfolding get_pm2_total_instances
last_process_cleans_example =
    last_process_cleans unary production_settings 1 5 "door" "7" "other" left (ground arith)
      (omega arith) refl unary_inj refl (ground (arith, eq_iff "7" ""))
      (ground (arith, eq_iff "other" "locks")) (ground (arith, eq_iff "other" "results-poller"))
      (ground (arith, eq_iff "other" "time-cooldown"))
      (ground (arith, eq_iff "other" "socket-sessions"))
      (ground (arith, eq_iff "other" "queue-activity"))
