-- ===== src/Board.antt =====
-- src/providers/queue/BullBoardMonitor.ts: the page that shows the queues, and its periodic refresh.
pub mod Map
pub mod Refresh
mod Tests
use startup_api.Base.{
  String, Bool, true, false, not, List, [], ◌∷◌, if◌then◌else◌, includes, ℕ, suc, ◌-◌,
}
use startup_api.Base.Value.{Value}
use startup_api.Base.Exec.{
  literal, Error, plain, Result, ok, err, Exec, pure, raise_if, lift, gets, modify, catch_with,
  finally_do, ◌>>=◌, ◌>>◌,
}
use startup_api.Redis.{Backend}
use startup_api.HashTable.{Table}
use startup_api.HashTable
use startup_api.Queue.{get_all_queues}
use startup_api.Queue.Registry.{without_name}

-- `monitored` are the keys of the map of adapters, `shown` the queues on the page, `borrowed` counts
-- the clients that are taken of the pool. `scheduled` says that the next refresh is set up.
pub record Board (Db : Type 0) : Type 0 where
  pub table : Table Db
  pub monitored : List String
  pub shown : List String
  pub borrowed : ℕ
  pub is_refreshing : Bool
  pub scheduled : Bool

-- What the libraries answer in one refresh, and what other processes do to the server before it:
-- `makes` says of a name whether its queue can be made, `boards` whether the page takes it.
pub record Round (Db : Type 0) : Type 0 where
  pub others : Db → Db
  pub client : Result (Unit {0})
  pub release : Result (Unit {0})
  pub makes : String → Bool
  pub boards : String → Bool

abbrev pub no_queue : Error
no_queue = plain (literal "The queue cannot be made.")

module _ (text_of : ℕ → String) (number_of : Value → ℕ) ⦃B : Backend⦄ where
  open B use {Db}

  abbrev pub Action : Type 0 → Type 0
  Action R = Exec (Board Db) R

  abbrev on_table : {R : Type 0} → HashTable.Action R → Action R
  on_table m b = let (r, t) = m b.table in (r, record b { table = t })

  unfoldable pub add_queue : Round Db → String → Action Unit
  add_queue o queue_name b =
      if includes queue_name b.monitored
      then (ok tt, b)
      else if not (o.makes queue_name)
      then (err no_queue, b)
      else if not (o.boards queue_name)
      then (err no_queue, record b { monitored = queue_name ∷ b.monitored })
      else (ok tt, record b { monitored = queue_name ∷ b.monitored; shown = queue_name ∷ b.shown })

  unfoldable pub remove_queue : String → Action Unit
  remove_queue queue_name b =
      if includes queue_name b.monitored
      then (
        ok tt,
        record b {
          monitored = without_name queue_name b.monitored;
          shown = without_name queue_name b.shown;
        },
      )
      else (ok tt, b)

  -- The loop over the names that are in the table.
  unfoldable pub add_each : Round Db → List String → Action Unit
  unfolding add_queue
  add_each o [] = pure tt
  add_each o (queue_name ∷ rest) = do
    b ← gets (λ b. includes queue_name b.monitored)
    if b then pure tt else add_queue o queue_name
    add_each o rest

  -- The loop over the keys of the map.
  unfoldable pub remove_each : List String → List String → Action Unit
  unfolding remove_queue
  remove_each queue_names [] = pure tt
  remove_each queue_names (queue ∷ rest) = do
    if includes queue queue_names then pure tt else remove_queue queue
    remove_each queue_names rest

  abbrev sync : Round Db → List String → Action Unit
  sync o queue_names = do add_each o queue_names; λ b. remove_each queue_names b.monitored b

  -- What is thrown while the page is brought up to date, is logged.
  unfoldable pub refresh_queues : Round Db → Action Unit
  unfolding add_each remove_each
  refresh_queues o = do
    queue_names ← on_table (get_all_queues text_of number_of)
    lift o.client
    modify (λ b. record b { borrowed = suc b.borrowed })
    finally_do (catch_with (sync o queue_names) (λ e. pure tt))
        (do lift o.release; modify (λ b. record b { borrowed = b.borrowed - 1 }))

  -- `refreshQueuesPeriodically`: the next one is set up at the end, if it gets there.
  unfoldable pub refresh_periodically : Round Db → Action Unit
  unfolding refresh_queues
  refresh_periodically o = do
    refreshing ← gets (λ b. b.is_refreshing)
    if refreshing then pure tt else do
      modify (λ b. record b { is_refreshing = true })
      finally_do (refresh_queues o) (modify (λ b. record b { is_refreshing = false }))
    modify (λ b. record b { scheduled = true })

  -- The map and the page are made anew; what the first refresh throws is logged.
  unfoldable pub init : Round Db → Action Unit
  unfolding refresh_periodically
  init o b =
      catch_with (refresh_periodically o) (λ e. pure tt) (record b { monitored = []; shown = [] })

  -- The timer: a refresh that is set up is made, on the server as it is then.
  unfoldable pub timer : Round Db → Board Db → Board Db
  unfolding refresh_periodically
  timer o b =
      let b' = record b { table = record b.table { db = o.others b.table.db } } in
      if b.scheduled then (refresh_periodically o (record b' { scheduled = false })).1 else b'
