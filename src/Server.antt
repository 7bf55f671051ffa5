-- ===== src/Server.antt =====
-- The start of a server process: src/providers/server/ServerBootstrap.ts and PM2Helper.ts. All
-- processes share the hash table; `pm_id` is the number that PM2 gives each of them, as a text.
pub mod Start
pub mod Tracking
pub mod Cron
pub mod Limits
pub mod Components
pub mod Heap
mod Tests
use startup_api.Base.{
  ℕ, ◌+◌, ◌-◌, ◌<◌, String, ◌≡◌, refl, ◌≢◌, Bool, true, false, ◌&&◌, Option, none, some, str_eq,
  if◌then◌else◌, List, [], ◌∷◌, ◌==◌, is_some, arith, eq_iff, eq_refl, Bool-cases, inl, inr, sym,
}
use startup_api.Base.Value.{Value}
use startup_api.Base.Exec.{ok, pure, ◌>>=◌, ◌>>◌}
use startup_api.Redis.{Backend}
use startup_api.HashTable
use startup_api.HashTable.{Table, Action}
use startup_api.Locks
use startup_api.Locks.{has_lock}
use startup_api.Cooldown
use startup_api.Cooldown.{is_on_cooldown}
use startup_api.Poller
use startup_api.Poller.{parent_namespace}
use startup_api.Sessions
use startup_api.Sessions.{has_session}
use startup_api.Queue

pub data Environment : Type 0 where
  development staging production : Environment

-- `instances` is the number in pm2.json, and 0 where it is no number; `cpus` is what the system has.
pub record Settings : Type 0 where
  pub environment : Environment
  pub websocket : Bool
  pub bull_mq : Bool
  pub instances : ℕ
  pub cpus : ℕ

unfoldable pub get_pm2_total_instances : Settings → ℕ
get_pm2_total_instances s = if s.instances == 0 then s.cpus else s.instances

-- `text_of` prints a number.
module _ (text_of : ℕ → String) where
  unfoldable pub pick_last_cpu_instance : Settings → String
  unfolding get_pm2_total_instances
  pick_last_cpu_instance s =
      let total = get_pm2_total_instances s in
      if total == 1 then "0" else if total == 0 then "-1" else text_of (total - 1)

  abbrev is_id : String → Option String → Bool
  is_id id none = false
  is_id id (some p) = str_eq p id

  -- Whether a process is the one for what only one of them does.
  unfoldable pub is_chosen : Settings → Option String → Bool
  unfolding pick_last_cpu_instance
  is_chosen s pm_id = elim s.environment [
    | development ↦ true
    | staging ↦ is_id (pick_last_cpu_instance s) pm_id
    | production ↦ is_id (pick_last_cpu_instance s) pm_id
  ]

  pub pick_last_cpu_instance_lem :
      (s : Settings)
      → 0 < get_pm2_total_instances s
      → text_of 0 ≡ "0"
      → pick_last_cpu_instance s ≡ text_of (get_pm2_total_instances s - 1)
  unfolding pick_last_cpu_instance
  pick_last_cpu_instance_lem s pos z = elim (Bool-cases (get_pm2_total_instances s == 1)) [
    | inl e ↦ let one : get_pm2_total_instances s ≡ 1 = ground (arith, e) in rw one (sym z)
    | inr e ↦ ground (arith, e)
  ]

  is_id_lem :
      (n i : ℕ)
      → i < n
      → ((k j : ℕ) → text_of k ≡ text_of j → k ≡ j)
      → str_eq (text_of i) (text_of (n - 1)) ≡ (i + 1 == n)
  is_id_lem n i lt inj = elim (Bool-cases (i + 1 == n)) [
    | inl e ↦ let last : n - 1 ≡ i = ground (arith, e) in rw (e, last) (eq_refl (text_of i))
    | inr e ↦ ground (arith, e, eq_iff (text_of i) (text_of (n - 1)), inj i (n - 1))
  ]

  -- Of the processes that PM2 numbers from zero, the last one is chosen.
  pub chosen_is_last :
      (s : Settings) (i : ℕ)
      → s.environment ≢ development
      → i < get_pm2_total_instances s
      → text_of 0 ≡ "0"
      → ((k j : ℕ) → text_of k ≡ text_of j → k ≡ j)
      → is_chosen s (some (text_of i)) ≡ (i + 1 == get_pm2_total_instances s)
  unfolding is_chosen
  chosen_is_last s i e lt z inj = ground (
    arith,
    e,
    pick_last_cpu_instance_lem s (omega arith) z,
    is_id_lem (get_pm2_total_instances s) i lt inj,
  )

module _ ⦃B : Backend⦄ where
  open B use {Db, del, hget}

  unfoldable pub exec_one_time_operations : Settings → Action Unit
  unfolding Sessions.clear_all_sessions Cooldown.clear_all Poller.clear_all Locks.clear
  exec_one_time_operations s = do
    if s.websocket then Sessions.clear_all_sessions else pure tt
    Cooldown.clear_all
    Poller.clear_all
    Locks.clear

  unfoldable pub perform_one_time_operations : (ℕ → String) → Settings → Option String → Action Unit
  unfolding exec_one_time_operations is_chosen
  perform_one_time_operations text_of s pm_id =
      if is_chosen text_of s pm_id then exec_one_time_operations s else pure tt

  -- What every process does at its start, as far as the table is concerned.
  -- The two functions, of which it uses neither, are the parameters of the queues.
  unfoldable pub perform_multiple_instances_operations :
      (ℕ → String) → (Value → ℕ) → Settings → Action Unit
  unfolding Queue.clear_all_queues
  perform_multiple_instances_operations text_of number_of s =
      if s.bull_mq then Queue.clear_all_queues text_of number_of else pure tt

-- Cronjob: the jobs that a process schedules.
unfoldable pub schedule_crons : (ℕ → String) → Settings → Option String → List String
unfolding is_chosen
schedule_crons text_of s pm_id =
    if is_chosen text_of s pm_id
    then "queue-clean-inactive" ∷ "redis-client-connection-count" ∷ []
    else []
