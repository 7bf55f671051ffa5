-- ===== src/Queue/Inactive.antt =====
-- Closing the queues that were not active lately: `closeInactiveQueues` of QueueActivityMonitor.ts.
use startup_api.Base.{
  ℕ, suc, ◌+◌, ◌-◌, ltb, String, ◌≡◌, refl, Bool, true, false, ◌&&◌, Option, none, some, List, [],
  ◌∷◌, str_eq, if◌then◌else◌, includes, arith, eq_iff,
}
use startup_api.Base.Value.{Value, Fields, end, field, truthy}
use startup_api.Base.Exec.{
  literal, plain, Result, ok, err, Exec, pure, lift, catch_with, ◌>>=◌, ◌>>◌,
}
use startup_api.Redis.{Backend}
use startup_api.HashTable
use startup_api.HashTable.{Table, read}
use startup_api.HashTable.Laws.{read-stringify}
use startup_api.HashTable.Refinement.{written}
use startup_api.Queue.{inactive, should_shutdown_queue, delete_queue_activity}

-- `Object.keys`
abbrev pub keys_of : Fields → List String
keys_of end = []
keys_of (field k v fs) = k ∷ keys_of fs

-- The table, whether the monitor holds a connection of the pool, and how many clients are taken of the pool.
pub record Monitor (Db : Type 0) : Type 0 where
  pub table : Table Db
  pub connection : Bool
  pub taken : ℕ

-- What the Redis manager answers, where a client is taken and where it is given back; `closes` says of a
-- queue whether its active jobs can be asked for and waited for, and `now` at which time it is looked at,
-- which is later for every queue, since jobs are waited for in between.
module _ (text_of : ℕ → String) (number_of : Value → ℕ) (pool give_back : Result (Unit {0}))
    (closes : String → Bool) (now : String → ℕ) ⦃B : Backend⦄ where
  open B use {Db, hget}

  abbrev Action : Type 0 → Type 0
  Action R = Exec (Monitor Db) R

  abbrev on_table : {R : Type 0} → HashTable.Action R → Action R
  on_table m s = let (r, t) = m s.table in (r, record s { table = t })

  unfoldable pub take_connection : Action Unit
  take_connection s = elim pool [
    | ok _ ↦ (ok tt, record s { connection = true; taken = suc s.taken })
    | err e ↦ (err e, s)
  ]

  -- The connection is null only after it was given back.
  unfoldable pub return_connection : Action Unit
  return_connection s = elim give_back [
    | ok _ ↦ (ok tt, record s { connection = false; taken = s.taken - 1 })
    | err e ↦ (err e, s)
  ]

  unfoldable pub shutdown_inactive_queue : String → Action Unit
  unfolding take_connection
  shutdown_inactive_queue queue_name = do
    λ s. if s.connection then (ok tt, s) else take_connection s
    catch_with
        (do
          lift (if closes queue_name then ok tt else err (plain (literal "Queue call failed")))
          on_table (delete_queue_activity text_of number_of queue_name))
        (λ e. pure tt)

  unfoldable pub close_one : String → Action Unit
  close_one queue_name = do
    should_shutdown ← on_table (should_shutdown_queue text_of number_of (now queue_name) queue_name)
    if should_shutdown then shutdown_inactive_queue queue_name else pure tt

  unfoldable pub close_each : List String → Action Unit
  close_each [] = pure tt
  close_each (queue_name ∷ rest) = do close_one queue_name; close_each rest

  unfoldable pub close_inactive_queues : Action Unit
  unfolding return_connection
  close_inactive_queues = do
    queues ← on_table (HashTable.get_all "queue-activity")
    close_each (keys_of queues)
    λ s. if s.connection then return_connection s else (ok tt, s)

  -- The activity of a queue lies more than a minute back where the queue is looked at.
  abbrev pub outdated : String → Option Value → Bool
  outdated k none = false
  outdated k (some v) = truthy v && ltb (number_of v + 60000) (now k)

  inactive-outdated :
      (k : String) (o : Option Value) → inactive text_of number_of (now k) o ≡ outdated k o
  inactive-outdated k none = refl
  inactive-outdated k (some v) = ground arith

  -- What is kept of the values when one of the queues was looked at.
  abbrev after : String → (String → Option Value) → String → Option Value
  after k σ j = if str_eq k j && (outdated k (σ k) && closes k) then none else σ j

  abbrev after_all : List String → (String → Option Value) → String → Option Value
  after_all [] σ = σ
  after_all (k ∷ ks) σ = after_all ks (after k σ)

  -- The table has its connection and holds these values, as JSON; `others` clients of the pool are not the
  -- monitor's.
  record Holds (others : ℕ) (s : Monitor Db) (σ : String → Option Value) : Type 0 where
    pub connected : s.table.connected ≡ true
    pub entry : (k : String) → hget "queue-activity" k s.table.db ≡ written (σ k)
    pub counted : s.taken ≡ (if s.connection then suc others else others)

  read-written : (o : Option Value) → read (written o) ≡ ok o
  unfolding read
  read-written none = refl
  read-written (some v) = read-stringify v

  close_one-Holds :
      (k : String) (n : ℕ) (s : Monitor Db) (σ : String → Option Value)
      → pool ≡ ok tt
      → Holds n s σ
      → ((close_one k s).0 ≡ ok tt) × Holds n (close_one k s).1 (after k σ)
  unfolding close_one should_shutdown_queue shutdown_inactive_queue HashTable.get
      delete_queue_activity HashTable.delete HashTable.ensure_connection
  close_one-Holds k n s σ p h =
      let same = inactive-outdated k (σ k) in
      let found = read-written (σ k) in
      (
        ground (arith, p, h.connected, h.entry k, found, same),
        record {
          connected = ground (arith, p, h.connected, h.entry k, found, same);
          entry = λ j. ground (
            arith,
            p,
            h.connected,
            h.entry k,
            h.entry j,
            found,
            same,
            B.hget-hdel "queue-activity" k "queue-activity" j s.table.db,
          );
          counted = ground (arith, p, h.connected, h.entry k, found, same, h.counted);
        },
      )

  close_each-Holds :
      (ks : List String) (n : ℕ) (s : Monitor Db) (σ : String → Option Value)
      → pool ≡ ok tt
      → Holds n s σ
      → ((close_each ks s).0 ≡ ok tt) × Holds n (close_each ks s).1 (after_all ks σ)
  unfolding close_each
  close_each-Holds [] n s σ p h = (refl, h)
  close_each-Holds (k ∷ ks) n s σ p h =
      let (r, h') = close_one-Holds k n s σ p h in
      let (q, h'') = close_each-Holds ks n (close_one k s).1 (after k σ) p h' in
      (
        ground (arith, r, q),
        record {
          connected = ground (arith, r, h''.connected);
          entry = λ j. ground (arith, r, h''.entry j);
          counted = ground (arith, r, h''.counted);
        },
      )

  after_lem :
      (ks : List String) (σ : String → Option Value) (j : String)
      → after_all ks σ j ≡ (if includes j ks && (outdated j (σ j) && closes j) then none else σ j)
  after_lem [] σ j = refl
  after_lem (k ∷ ks) σ j = ground (arith, eq_iff k j, after_lem ks (after k σ) j)

  -- Closing the inactive queues succeeds, and a client that the monitor takes of the pool for it is given
  -- back; it removes the activity of a queue exactly if its name is among those that were read, it lies more
  -- than a minute back at the time when the queue is looked at, and the jobs of the queue could be
  -- waited for; every other activity stays as it is.
  -- The conditions: the table has its connection and holds values that can be read, the names are read,
  -- the monitor has no client at first, and the pool gives one where it is asked and takes it back.
  pub close_inactive_queues_lem :
      (queues : Fields) (s : Monitor Db) (σ : String → Option Value)
      → pool ≡ ok tt
      → give_back ≡ ok tt
      → s.connection ≡ false
      → s.table.connected ≡ true
      → ((k : String) → hget "queue-activity" k s.table.db ≡ written (σ k))
      → HashTable.get_all "queue-activity" s.table ≡ (ok queues, s.table)
      → let (r, s') = close_inactive_queues s in
        (r ≡ ok tt)
        × (s'.connection ≡ false)
        × (s'.taken ≡ s.taken)
        × ((j : String)
            → hget "queue-activity" j s'.table.db ≡ (
                if includes j (keys_of queues) && (outdated j (σ j) && closes j)
                then none
                else written (σ j)))
  unfolding close_inactive_queues
  close_inactive_queues_lem queues s σ p b o c h g =
      let all : Holds s.taken s σ = record {
        connected = c;
        entry = h;
        counted = ground (arith, o);
      } in
      let (r, h') = close_each-Holds (keys_of queues) s.taken s σ p all in
      (
        ground (arith, g, r, b, h'.counted),
        ground (arith, g, r, b, h'.counted),
        ground (arith, g, r, b, h'.counted),
        λ j. ground (arith, g, r, b, h'.entry j, after_lem (keys_of queues) σ j),
      )
