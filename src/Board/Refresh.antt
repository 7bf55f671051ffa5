-- ===== src/Board/Refresh.antt =====
-- What is on the page after a refresh, and after one that fails.
use startup_api.Base.{
  String, ◌≡◌, refl, ◌∙◌, true, false, List, [], ◌∷◌, includes, ℕ, suc, ◌-◌, arith,
}
use startup_api.Base.Value.{Value}
use startup_api.Base.Exec.{Error, ok, err}
use startup_api.Redis.{Backend}
use startup_api.HashTable.{Table}
use startup_api.HashTable
use startup_api.Queue.{get_all_queues}
use startup_api.Board.{
  Board, Round, add_each, remove_each, refresh_queues, refresh_periodically, timer,
}
use startup_api.Board.Map.{
  Agrees, with_queue, kept, added, removed, synced, synced_lem, added-borrowed, removed-borrowed,
}

module _ (text_of : ℕ → String) (number_of : Value → ℕ) ⦃B : Backend⦄ where
  open B use {Db, hkeys}

  abbrev pub Makes : Round Db → Type 0
  Makes o = (q : String) → (o.makes q ≡ true) × (o.boards q ≡ true)

  add_each_lem :
      (o : Round Db) (ns : List String) (b : Board Db)
      → Makes o
      → add_each text_of number_of o ns b ≡ (ok tt, added ns b)
  unfolding add_each added
  add_each_lem o [] b h = refl
  add_each_lem o (n ∷ ns) b h = ground (arith, h n, add_each_lem o ns (with_queue n b) h)

  remove_each_lem :
      (ns ks : List String) (b : Board Db)
      → remove_each text_of number_of ns ks b ≡ (ok tt, removed ns ks b)
  unfolding remove_each removed
  remove_each_lem ns [] b = refl
  remove_each_lem ns (k ∷ ks) b = ground (arith, remove_each_lem ns ks (kept ns k b))

  abbrev borrowing : Board Db → Board Db
  borrowing b = record b { borrowed = suc b.borrowed }

  abbrev returning : Board Db → Board Db
  returning b = record b { borrowed = b.borrowed - 1 }

  -- The names of the queues that have an activity.
  abbrev pub queue_names : Board Db → List String
  queue_names b = hkeys "queue-activity" b.table.db

  refresh_queues_lem :
      (o : Round Db) (b : Board Db)
      → b.table.connected ≡ true
      → o.client ≡ ok tt
      → o.release ≡ ok tt
      → Makes o
      → refresh_queues text_of number_of o b
        ≡ (ok tt, returning (synced (queue_names b) (borrowing b)))
  unfolding refresh_queues get_all_queues HashTable.get_all_keys
  refresh_queues_lem o b c g r h = ground (
    arith,
    add_each_lem o (queue_names b) (borrowing b) h,
    remove_each_lem (queue_names b) (added (queue_names b) (borrowing b)).monitored
        (added (queue_names b) (borrowing b)),
  )

  abbrev pub on_server : Round Db → Board Db → Board Db
  on_server o b = record b { table = record b.table { db = o.others b.table.db } }

  abbrev starting : Round Db → Board Db → Board Db
  starting o b = record (on_server o b) { is_refreshing = true; scheduled = false }

  abbrev finished : Board Db → Board Db
  finished b = record b { is_refreshing = false; scheduled = true }

  timer_lem :
      (o : Round Db) (b : Board Db)
      → b.table.connected ≡ true
      → b.scheduled ≡ true
      → b.is_refreshing ≡ false
      → o.client ≡ ok tt
      → o.release ≡ ok tt
      → Makes o
      → timer text_of number_of o b
        ≡ finished (returning (synced (queue_names (on_server o b)) (borrowing (starting o b))))
  unfolding timer refresh_periodically
  timer_lem o b c s i g r h = ground (arith, refresh_queues_lem o (starting o b) c g r h)

  -- The timer, when the pool gives a client and takes it back and the libraries make and show every
  -- queue: afterwards the page shows a queue exactly if the server has an activity for it then, and
  -- the map holds the same queues; no more clients of the pool are in use than before, and the next
  -- refresh is set up. The conditions: the table has its connection, a refresh is set up and none is
  -- under way, and the page and the map agree before.
  pub refresh_tracks :
      (o : Round Db) (q : String) (b : Board Db)
      → b.table.connected ≡ true
      → b.scheduled ≡ true
      → b.is_refreshing ≡ false
      → o.client ≡ ok tt
      → o.release ≡ ok tt
      → Makes o
      → Agrees b
      → let b' = timer text_of number_of o b in
        let names = hkeys "queue-activity" (o.others b.table.db) in
        (includes q b'.shown ≡ includes q names)
        × (includes q b'.monitored ≡ includes q names)
        × (b'.borrowed ≡ b.borrowed)
        × (b'.scheduled ≡ true)
        × (b'.is_refreshing ≡ false)
  refresh_tracks o q b c s i g r h a =
      let names = hkeys "queue-activity" (o.others b.table.db) in
      let b0 = borrowing (starting o b) in
      let (m, sh) = synced_lem q names b0 a in
      rw (timer_lem o b c s i g r h) (
        sh,
        m,
        omega (
          arith,
          removed-borrowed names (added names b0).monitored (added names b0),
          added-borrowed names b0,
        ),
        refl,
        refl,
      )

  at_rest :
      (o : Round Db) (b : Board Db)
      → b.scheduled ≡ false
      → ((timer text_of number_of o b).shown ≡ b.shown)
        × ((timer text_of number_of o b).scheduled ≡ false)
  unfolding timer
  at_rest o b s = ground arith

  -- The timers that follow.
  abbrev pub run : List (Round Db) → Board Db → Board Db
  run [] b = b
  run (o ∷ os) b = run os (timer text_of number_of o b)

  unscheduled :
      (os : List (Round Db)) (b : Board Db)
      → b.scheduled ≡ false
      → ((run os b).shown ≡ b.shown) × ((run os b).scheduled ≡ false)
  unscheduled [] b s = (refl, s)
  unscheduled (o ∷ os) b s =
      let (sh, u) = unscheduled os (timer text_of number_of o b) (at_rest o b s).1 in
      (sh ∙ (at_rest o b s).0, u)

  failing :
      (o : Round Db) (e : Error) (b : Board Db)
      → b.scheduled ≡ true
      → b.is_refreshing ≡ false
      → o.client ≡ err e
      → ((timer text_of number_of o b).shown ≡ b.shown)
        × ((timer text_of number_of o b).scheduled ≡ false)
  unfolding timer refresh_periodically refresh_queues get_all_queues HashTable.get_all_keys
  failing o e b s i f = ground (arith, s, i, f)

  -- A timer for which the pool gives no client: whatever the later timers meet, and whatever queues
  -- come and go, nothing is set up again and the page stays as it was.
  -- The conditions: a refresh is set up and none is under way.
  one_failure_ends :
      (o : Round Db) (e : Error) (later : List (Round Db)) (b : Board Db)
      → b.scheduled ≡ true
      → b.is_refreshing ≡ false
      → o.client ≡ err e
      → ((run later (timer text_of number_of o b)).shown ≡ b.shown)
        × ((run later (timer text_of number_of o b)).scheduled ≡ false)
  one_failure_ends o e later b s i f =
      let (sh, u) = failing o e b s i f in
      let (later_shown, later_u) = unscheduled later (timer text_of number_of o b) u in
      (later_shown ∙ sh, later_u)
