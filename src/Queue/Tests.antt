-- ===== src/Queue/Tests.antt =====
-- Examples of scaling and of inactive queues.
use startup_api.Base.{
  ℕ, String, Option, some, includes, if◌then◌else◌, ◌&&◌, str_eq, [], ◌∷◌, ◌≡◌, refl, true, false,
  none,
}
use startup_api.Base.Exec.{ok}
use startup_api.Redis.Memory.{Server, memory, memory_start, hget, hset}
use startup_api.HashTable.{Table, get_all, parse_object, ensure_connection}
use startup_api.HashTable.Refinement.{written}
use startup_api.Base.Value.{Value, str, field, end, put}
use startup_api.Queue.Inactive.{Monitor, outdated, close_inactive_queues, close_inactive_queues_lem}
use startup_api.Queue.Registry.{Registry}

abbrev table : Table Server
table = record { unit_test = false; reachable = true; connected = true; db = memory_start }

abbrev registry : Registry Server
registry = record {
  table = table;
  queues = "npc" ∷ [];
  workers = "npc" ∷ [];
  connections = "npc" ∷ [];
  intervals = [];
  jobs = [];
}

-- Two queues, of which the first was active a minute and a half ago.
abbrev activity : Monitor Server
activity = record {
  table = record table {
    db = hset "queue-activity" "new" (str "n") (hset "queue-activity" "old" (str "o") memory_start);
  };
  connection = false;
  taken = 2;
}

abbrev last_active : String → Option Value
last_active k = memory.hget "queue-activity" k activity.table.db

-- The texts "n" and "o" stand for the times 95000 and 10000.
abbrev time_of : Value → ℕ
time_of (str s) = if str_eq s "n" then 95000 else 10000
time_of v = 0

as_written : (o : Option Value) → o ≡ written ⦃B = memory⦄ o
as_written none = refl
as_written (some v) = refl

-- The second queue is looked at later.
abbrev looked_at : String → ℕ
looked_at k = if str_eq k "old" then 100000 else 110000

close_inactive_queues_lem_example :
    let (r, s') =
      close_inactive_queues (λ n. "5") time_of (ok tt) (ok tt) (λ k. true) looked_at activity in
    (r ≡ ok tt)
    × (s'.connection ≡ false)
    × (s'.taken ≡ 2)
    × ((j : String)
        → memory.hget "queue-activity" j s'.table.db ≡ (
            if includes j ("old" ∷ "new" ∷ [])
              && (outdated
                    (λ n. "5")
                    time_of
                    (ok tt)
                    (ok tt)
                    (λ k. true)
                    looked_at
                    j
                    (last_active j)
                  && true)
            then none
            else written (last_active j)))
unfolding hget hset get_all parse_object put ensure_connection
close_inactive_queues_lem_example =
    close_inactive_queues_lem (λ n. "5") time_of (ok tt) (ok tt) (λ k. true) looked_at
      (field "old" (str "o") (field "new" (str "n") end)) activity last_active refl refl refl refl
      (λ k. as_written (last_active k)) refl
