-- ===== src/Poller/Tests.antt =====
-- Examples of polling.
use startup_api.Base.{◌≡◌, refl, true, false, none}
use startup_api.Base.Value.{num}
use startup_api.Base.Exec.{ok}
use startup_api.Redis.Memory.{Server, memory, memory_start, hget}
use startup_api.HashTable.{Table}
use startup_api.Poller.{parent_namespace, full_key, poll_results}
use startup_api.Poller.Arrival.{arrives, poll_results-arrives}

abbrev table : Table Server
table = record { unit_test = false; reachable = true; connected = true; db = memory_start }

poll_results-arrives_example :
    let (r, t') = poll_results (arrives 299 (full_key "path" "npc") (num 4)) "path" "npc" table in
    (r ≡ ok (num 4)) × (memory.hget parent_namespace (full_key "path" "npc") t'.db ≡ none)
unfolding hget
poll_results-arrives_example = poll_results-arrives 299 "path" "npc" (num 4) table refl refl
