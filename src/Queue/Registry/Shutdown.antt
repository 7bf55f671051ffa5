-- ===== src/Queue/Registry/Shutdown.antt =====
-- The shutdown of all queues.
use startup_api.Base.{
  ℕ, String, ◌≡◌, refl, ◌∙◌, Bool, true, false, not, ◌&&◌, List, [], ◌∷◌, str_eq, includes, none,
  if◌then◌else◌, arith, eq_iff, eq_refl,
}
use startup_api.Base.Value.{Value}
use startup_api.Base.Exec.{Result, ok}
use startup_api.Redis.{Backend}
use startup_api.Queue.{delete_queue_activity}
use startup_api.HashTable
use startup_api.Queue.Registry.{Registry, without_name, shutdown_each, shutdown}

-- The names that are left when others were removed one by one.
abbrev removed : List String → List String → List String
removed [] qs = qs
removed (n ∷ ns) qs = removed ns (without_name n qs)

pub includes-without_name :
    (j n : String) (qs : List String)
    → includes j (without_name n qs) ≡ (not (str_eq n j) && includes j qs)
includes-without_name j n [] = ground arith
includes-without_name j n (q ∷ qs) =
    ground (arith, eq_iff q n, eq_iff q j, eq_iff n j, includes-without_name j n qs)

includes-removed :
    (j : String) (ns qs : List String)
    → includes j (removed ns qs) ≡ (not (includes j ns) && includes j qs)
includes-removed j [] qs = ground arith
includes-removed j (n ∷ ns) qs =
    ground (arith, includes-removed j ns (without_name n qs), includes-without_name j n qs)

none_included : (qs : List String) → ((j : String) → includes j qs ≡ false) → qs ≡ []
none_included [] h = refl
none_included (q ∷ qs) h = ground (arith, h q, eq_refl q)

removed_all : (qs : List String) → removed qs qs ≡ []
removed_all qs = none_included (removed qs qs) (λ j. ground (arith, includes-removed j qs qs))

module _ (text_of : ℕ → String) (number_of : Value → ℕ) (enabled : Bool) (pool : Result (Unit {0}))
    ⦃B : Backend⦄ where
  open B use {Db, hget}

  each_lem :
      (ns : List String) (w : Registry Db) (j : String)
      → w.table.connected ≡ true
      → let (r, w') = shutdown_each text_of number_of enabled pool ns w in
        (r ≡ ok tt)
        × (w'.queues ≡ removed ns w.queues)
        × (w'.workers ≡ removed ns w.workers)
        × (hget "queue-activity" j w'.table.db
            ≡ (if includes j ns then none else hget "queue-activity" j w.table.db))
  unfolding shutdown_each delete_queue_activity HashTable.delete HashTable.ensure_connection
  each_lem [] w j c = (refl, refl, refl, refl)
  each_lem (n ∷ ns) w j c =
      let w1 : Registry Db = record w {
        workers = without_name n w.workers;
        queues = without_name n w.queues;
        table = record w.table { db = B.hdel "queue-activity" n w.table.db };
      } in
      ground
        (arith, c, each_lem ns w1 j c, B.hget-hdel "queue-activity" n "queue-activity" j w.table.db)

  -- A shutdown, while the table has its connection, succeeds and leaves no queue; no worker stays that
  -- belongs to one of the queues, and the others do; and the activity is removed for each of the queues,
  -- and for no other name.
  shutdown_empties :
      (w : Registry Db) (j : String)
      → w.table.connected ≡ true
      → let (r, w') = shutdown text_of number_of enabled pool w in
        (r ≡ ok tt)
        × (w'.queues ≡ [])
        × (includes j w'.workers ≡ (not (includes j w.queues) && includes j w.workers))
        × (hget "queue-activity" j w'.table.db
            ≡ (if includes j w.queues then none else hget "queue-activity" j w.table.db))
  unfolding shutdown
  shutdown_empties w j c =
      let (r, q, k, a) = each_lem w.queues w j c in
      (r, q ∙ removed_all w.queues, ground (arith, k, includes-removed j w.queues w.workers), a)
