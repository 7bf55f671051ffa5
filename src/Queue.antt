-- ===== src/Queue.antt =====
-- src/providers/queue: jobs on queues whose number and workers follow the number of active
-- characters or NPCs (DynamicQueue.ts, EntityQueueScalingCalculator.ts, DynamicQueueCleaner.ts), and the
-- record of when each queue was last active (QueueActivityMonitor.ts).
pub mod Scaling
pub mod Jobs
pub mod Inactive
pub mod Registry
mod Tests
use Prim.Native.String.{◌++◌}
use startup_api.Base.{
  ℕ, zero, suc, ◌+◌, ◌-◌, ◌*◌, ◌/◌, ◌%◌, ◌≤◌, min, max, String, Bool, true, false, not, ◌||◌, ◌&&◌,
  Option, none, some, List, [], ◌∷◌, str_eq, if◌then◌else◌, ltb, or_else, length, keep, includes,
}
use startup_api.Base.Value.{Value, null, bool, num, str, arr, obj, Fields, truthy}
use startup_api.Base.Exec.{
  Message, literal, Error, plain, Result, ok, err, Exec, pure, raise, raise_if, gets, ◌>>=◌, ◌>>◌,
}
use startup_api.Redis.{Backend}
use startup_api.HashTable
use startup_api.HashTable.{Table, Action}

abbrev pub inactivity_threshold : ℕ
inactivity_threshold = 60 * 1 * 1000

abbrev pub npc_scale_factor : ℕ
npc_scale_factor = 1

abbrev pub character_scale_factor : ℕ
character_scale_factor = 2

pub data ScaleBy : Type 0 where
  single : ScaleBy
  custom : ScaleBy
  active_characters : ScaleBy
  active_npcs : ScaleBy

-- `IQueueScaleOptions`, without the fields that nothing reads.
pub record ScaleOptions : Type 0 where
  pub scale_by : ScaleBy
  pub scale_factor : Option ℕ
  pub has_concurrency : Bool
  pub stick_to_origin : Bool

-- The limits of QueueConstants.ts, from `PROMISE_DEFAULT_CONCURRENCY`.
module _ (concurrency : ℕ) where
  abbrev pub min_concurrency : ℕ
  min_concurrency = concurrency

  abbrev pub max_concurrency : ℕ
  max_concurrency = concurrency * 2

  abbrev pub min_job_rate : ℕ
  min_job_rate = concurrency * 100 / concurrency

  abbrev pub max_job_rate : ℕ
  max_job_rate = concurrency * 100

  unfoldable pub calculate_concurrency : ℕ → ℕ
  calculate_concurrency active_entities =
      min (max (min_concurrency + active_entities * 1) min_concurrency) max_concurrency

  unfoldable pub calculate_max_limiter : ℕ → ℕ
  calculate_max_limiter active_entities =
      min (max (min_job_rate + active_entities * 1) min_job_rate) max_job_rate

  -- The pair of `maxWorkerLimiter` and `maxWorkerConcurrency`, for a number of active entities.
  unfoldable pub scaled : ScaleBy → ℕ → ℕ × ℕ
  scaled single count = (min_job_rate, min_concurrency)
  scaled custom count = (min_job_rate, min_concurrency)
  scaled active_characters count = (calculate_max_limiter count, calculate_concurrency count)
  scaled active_npcs count = (calculate_max_limiter count, calculate_concurrency count)

  -- `concurrency` in the options of a worker
  unfoldable pub worker_concurrency : Option ScaleOptions → ℕ → ℕ
  worker_concurrency none count = 1
  worker_concurrency (some o) count = if o.has_concurrency then (scaled o.scale_by count).1 else 1

-- `Number(value) || 1` and `Number(value || 1)` of a count that is stored as a number.
abbrev pub count_of : Option Value → ℕ
count_of none = 1
count_of (some (num zero)) = 1
count_of (some (num (suc n))) = suc n
count_of (some v) = 1

-- `Math.ceil(n / 10)`
abbrev pub tenths : ℕ → ℕ
tenths n = (n + 9) / 10

unfoldable pub scale_factor_for : ℕ → ℕ → ℕ
scale_factor_for entity_count default_factor = min (max 1 (tenths entity_count)) default_factor

-- The texts of numbers, lodash's `random`, and the identity of the process.
module _ (text_of : ℕ → String) (random : ℕ → ℕ → ℕ) (machine_id : String)
    (development : Bool) where
  abbrev pub env_suffix : String
  env_suffix = if development then "dev" else "prod"

  abbrev pub build_queue_name : String → ℕ → String
  build_queue_name prefix factor = prefix ++ "-" ++ env_suffix ++ "-" ++ text_of factor

  unfoldable pub dynamic_factor : ℕ → ℕ → ℕ
  dynamic_factor entity_count default_factor =
      random 0 (scale_factor_for entity_count default_factor)

  module _ ⦃B : Backend⦄ where
    open B use {Db}

    unfoldable pub generate_dynamic_queue_name : String → String → ℕ → Action String
    generate_dynamic_queue_name prefix entity_key default_factor = do
      count ← HashTable.get "activity-tracker" entity_key
      pure (build_queue_name prefix (dynamic_factor (count_of count) default_factor))

    abbrev pub custom_name : String → Option ℕ → Result String
    custom_name prefix none =
        err (plain (literal "Queue scale factor is required when scaling by custom"))
    custom_name prefix (some zero) =
        err (plain (literal "Queue scale factor is required when scaling by custom"))
    custom_name prefix (some (suc n)) = ok (build_queue_name prefix (random 1 (suc n)))

    abbrev pub scaled_name : String → ScaleBy → Option ℕ → Action String
    scaled_name prefix single factor = pure prefix
    scaled_name prefix custom factor = λ t. (custom_name prefix factor, t)
    scaled_name prefix active_characters factor =
        generate_dynamic_queue_name prefix "character-count" character_scale_factor
    scaled_name prefix active_npcs factor =
        generate_dynamic_queue_name prefix "npc-count" npc_scale_factor

    unfoldable pub generate_queue_name : String → ScaleOptions → Action String
    generate_queue_name prefix o =
        if o.stick_to_origin
        then pure (prefix ++ "-" ++ env_suffix ++ "-" ++ machine_id)
        else scaled_name prefix o.scale_by o.scale_factor

-- QueueActivityMonitor. `number_of` is `Number` of a text.
module _ (text_of : ℕ → String) (number_of : Value → ℕ) ⦃B : Backend⦄ where
  unfoldable pub update_queue_activity : ℕ → String → Action Unit
  update_queue_activity now queue_name =
      HashTable.set "queue-activity" queue_name (str (text_of now))

  unfoldable pub has_queue_activity : String → Action Bool
  has_queue_activity queue_name = HashTable.has "queue-activity" queue_name

  unfoldable pub get_all_queues : Action (List String)
  get_all_queues = HashTable.get_all_keys "queue-activity"

  unfoldable pub delete_queue_activity : String → Action Unit
  delete_queue_activity queue_name = HashTable.delete "queue-activity" queue_name

  unfoldable pub clear_all_queues : Action Unit
  clear_all_queues = HashTable.delete_all "queue-activity"

  abbrev pub inactive : ℕ → Option Value → Bool
  inactive now none = false
  inactive now (some v) = truthy v && ltb inactivity_threshold (now - number_of v)

  unfoldable pub should_shutdown_queue : ℕ → String → Action Bool
  should_shutdown_queue now queue_name = do
    last_activity ← HashTable.get "queue-activity" queue_name
    pure (inactive now last_activity)
