-- ===== src/Server/Cron/Exclusive.antt =====
-- The timers of several processes for one job, in any order.
use startup_api.Base.{
  ℕ, suc, ◌≤◌, if◌then◌else◌, Bool, ap, sym, ◌∙◌, String, ◌≡◌, true, false, none, arith,
}
use startup_api.Base.Exec.{Result, ok}
use startup_api.Redis.{Backend}
use startup_api.HashTable.{Table}
use startup_api.Locks.{lock, unlock}
use startup_api.Locks.Exclusion.{
  Held, Call, locks, Spares, perform-connected, perform, perform-Held, lock_lem, lock_takes,
  unlock_lem,
}
use startup_api.Server.Cron.{cron_lock}

module _ ⦃B : Backend⦄ where
  open B use {Db}

  -- The table, and how many processes run the job.
  pub record Fleet : Type 0 where
    pub table : Table Db
    pub running : ℕ

  -- A timer is given the lock and its task starts, or goes without; somebody calls the locks; the
  -- task of a process ends and its lock is released; a process dies, and it is not.
  pub data Step (id : String) : Fleet → Fleet → Type 0 where
    starts :
        (s : Fleet)
        → (lock (cron_lock id) none s.table).0 ≡ ok true
        → Step id s
            (record { table = (lock (cron_lock id) none s.table).1; running = suc s.running })
    passes :
        (s : Fleet)
        → (lock (cron_lock id) none s.table).0 ≡ ok false
        → Step id s (record s { table = (lock (cron_lock id) none s.table).1 })
    calls :
        (s : Fleet) (c : Call)
        → Spares (cron_lock id) c
        → Step id s (record s { table = perform c s.table })
    ends :
        (s : Fleet) (n : ℕ)
        → s.running ≡ suc n
        → Step id s (record { table = (unlock (cron_lock id) s.table).1; running = n })
    dies : (s : Fleet) (n : ℕ) → s.running ≡ suc n → Step id s (record s { running = n })

  pub data Reach (id : String) (s : Fleet) : Fleet → Type 0 where
    here : Reach id s s
    next : {t u : Fleet} → Reach id s t → Step id t u → Reach id s u

  -- Nobody runs the job, or one process does and the lock is held.
  pub data IsExclusive (id : String) (s : Fleet) : Type 0 where
    idle : s.table.connected ≡ true → s.running ≡ 0 → IsExclusive id s
    busy : Held (cron_lock id) s.table → s.running ≡ 1 → IsExclusive id s

  abbrev if_free : Bool → Bool
  if_free b = if b then false else true

  -- A lock that is held is not given.
  not_given : (k : String) (t : Table Db) → Held k t → (lock k none t).0 ≡ ok true → ⊥
  not_given k t h e =
      let refused : (lock k none t).0 ≡ ok false =
        lock_lem k none t h.0 ∙ ap (λ b. ok (if_free b)) h.1 in
      let both : ◌≡◌ {A = Result Bool} (ok false) (ok true) = sym refused ∙ e in cc both

  starts-IsExclusive :
      (id : String) (s : Fleet)
      → (lock (cron_lock id) none s.table).0 ≡ ok true
      → IsExclusive id s
      → IsExclusive id
          (record { table = (lock (cron_lock id) none s.table).1; running = suc s.running })
  starts-IsExclusive id s e (idle c r) = busy (lock_takes (cron_lock id) none s.table c) (ap suc r)
  starts-IsExclusive id s e (busy h r) = absurd (not_given (cron_lock id) s.table h e)

  calls-IsExclusive :
      (id : String) (s : Fleet) (c : Call)
      → Spares (cron_lock id) c
      → IsExclusive id s
      → IsExclusive id (record s { table = perform c s.table })
  calls-IsExclusive id s c u (idle e r) = idle (perform-connected c s.table e) r
  calls-IsExclusive id s c u (busy h r) = busy (perform-Held (cron_lock id) c s.table u h) r

  Step-IsExclusive : {id : String} {s t : Fleet} → Step id s t → IsExclusive id s → IsExclusive id t
  Step-IsExclusive (starts s e) i = starts-IsExclusive _ s e i
  Step-IsExclusive (passes s e) i = calls-IsExclusive _ s (locks (cron_lock _) none) tt i
  Step-IsExclusive (calls s c u) i = calls-IsExclusive _ s c u i
  Step-IsExclusive (ends s n e) (idle c r) = absurd (omega (arith, e, r))
  Step-IsExclusive (ends s n e) (busy h r) =
      idle (ap (λ p. p.1.connected) (unlock_lem _ s.table h.0) ∙ h.0) (omega arith)
  Step-IsExclusive (dies s n e) (idle c r) = absurd (omega (arith, e, r))
  Step-IsExclusive (dies s n e) (busy h r) = idle h.0 (omega arith)

  Reach-IsExclusive :
      {id : String} {s t : Fleet} → IsExclusive id s → Reach id s t → IsExclusive id t
  Reach-IsExclusive i here = i
  Reach-IsExclusive i (next r st) = Step-IsExclusive st (Reach-IsExclusive i r)

  at_most_one : {id : String} {s : Fleet} → IsExclusive id s → s.running ≤ 1
  at_most_one (idle c r) = omega arith
  at_most_one (busy h r) = omega arith

  -- However the timers of the processes, the ends of the task, the deaths of processes and the other
  -- calls of the locks follow one another: at most one process runs the job, as long as no call
  -- releases its lock or clears the locks, and no deadline passes.
  -- The condition: at first no process runs it, and the table has its connection.
  pub one_at_a_time :
      (id : String) (s t : Fleet)
      → s.table.connected ≡ true
      → s.running ≡ 0
      → Reach id s t
      → t.running ≤ 1
  one_at_a_time id s t c r reach = at_most_one (Reach-IsExclusive (idle c r) reach)
