-- ===== src/Locks/Exclusion.antt =====
-- Mutual exclusion: what a lock promises over sequences of calls.
use startup_api.Base.{
  ap, ◌∙◌, ℕ, ◌*◌, ◌≤◌, ◌<◌, zero, suc, String, ◌≡◌, true, false, Option, none, some, List, [], ◌∷◌,
  str_eq, if◌then◌else◌, arith, eq_refl, is_some, All,
}
use startup_api.Base.Value.{bool}
use startup_api.Base.Exec.{ok}
use startup_api.Redis.{Backend, nx, persistent}
use startup_api.HashTable.{Table}
use startup_api.Locks.{lock, has_lock, unlock, clear}

-- A call of the locker, by any client of the table.
pub data Call : Type 0 where
  locks : String → Option ℕ → Call
  asks unlocks : String → Call
  clears : Call

-- Neither releases the lock of this key nor clears all locks.
abbrev pub Spares : String → Call → Type 0
Spares k (locks j ttl) = Unit
Spares k (asks j) = Unit
Spares k (unlocks j) = str_eq j k ≡ false
Spares k clears = ⊥

module _ ⦃B : Backend⦄ where
  open B use {Db, hget}

  abbrev flag : B.Text
  flag = B.stringify (bool true)

  abbrev pub Held : String → Table Db → Type 0
  Held k t = (t.connected ≡ true) × (is_some (hget "locks" k t.db) ≡ true)

  abbrev pub perform : Call → Table Db → Table Db
  perform (locks k ttl) t = (lock k ttl t).1
  perform (asks k) t = (has_lock k t).1
  perform (unlocks k) t = (unlock k t).1
  perform clears t = (clear t).1

  -- The table after the calls, one after the other.
  abbrev pub run : List Call → Table Db → Table Db
  run [] t = t
  run (c ∷ cs) t = run cs (perform c t)

  -- The outcome of `lock` on every branch.
  pub lock_lem :
      (k : String) (ttl : Option ℕ) (t : Table Db)
      → t.connected ≡ true
      → (lock k ttl t).0 ≡ ok (if is_some (hget "locks" k t.db) then false else true)
  unfolding lock
  lock_lem k ttl t c = ground (arith, B.hsetnx_lem "locks" k flag t.db)

  lock-Held : (k j : String) (ttl : Option ℕ) (t : Table Db) → Held j t → Held j (lock k ttl t).1
  unfolding lock
  lock-Held k j none t (c, h) =
      ground (arith, B.hsetnx_lem "locks" k flag t.db, B.hget-hset "locks" k "locks" j flag t.db)
  lock-Held k j (some zero) t (c, h) =
      ground (arith, B.hsetnx_lem "locks" k flag t.db, B.hget-hset "locks" k "locks" j flag t.db)
  lock-Held k j (some (suc s)) t (c, h) = ground (
    arith,
    B.hsetnx_lem "locks" k flag t.db,
    B.hget-hset "locks" k "locks" j flag t.db,
    B.hget-expire "locks" (suc s) nx "locks" j (B.hset "locks" k flag t.db),
  )

  pub lock_takes :
      (k : String) (ttl : Option ℕ) (t : Table Db) → t.connected ≡ true → Held k (lock k ttl t).1
  unfolding lock
  lock_takes k none t c = ground (
    arith,
    eq_refl k,
    B.hsetnx_lem "locks" k flag t.db,
    B.hget-hset "locks" k "locks" k flag t.db,
  )
  lock_takes k (some zero) t c = ground (
    arith,
    eq_refl k,
    B.hsetnx_lem "locks" k flag t.db,
    B.hget-hset "locks" k "locks" k flag t.db,
  )
  lock_takes k (some (suc s)) t c = ground (
    arith,
    eq_refl k,
    B.hsetnx_lem "locks" k flag t.db,
    B.hget-hset "locks" k "locks" k flag t.db,
    B.hget-expire "locks" (suc s) nx "locks" k (B.hset "locks" k flag t.db),
  )

  pub perform-Held :
      (k : String) (c : Call) (t : Table Db) → Spares k c → Held k t → Held k (perform c t)
  unfolding has_lock unlock
  perform-Held k (locks j ttl) t u h = lock-Held j k ttl t h
  perform-Held k (asks j) t u (c, h) = ground arith
  perform-Held k (unlocks j) t u (c, h) = ground (arith, B.hget-hdel "locks" j "locks" k t.db)
  perform-Held k clears t u h = absurd u

  pub perform-connected :
      (c : Call) (t : Table Db) → t.connected ≡ true → (perform c t).connected ≡ true
  unfolding lock has_lock unlock clear
  perform-connected (locks j none) t c = ground (arith, B.hsetnx_lem "locks" j flag t.db)
  perform-connected (locks j (some zero)) t c = ground (arith, B.hsetnx_lem "locks" j flag t.db)
  perform-connected (locks j (some (suc s))) t c = ground (arith, B.hsetnx_lem "locks" j flag t.db)
  perform-connected (asks j) t c = ground arith
  perform-connected (unlocks j) t c = ground arith
  perform-connected clears t c = ground arith

  run-Held :
      (k : String) (cs : List Call) (t : Table Db)
      → All (Spares k) cs
      → Held k t
      → Held k (run cs t)
  run-Held k [] t u h = h
  run-Held k (c ∷ cs) t u h = run-Held k cs (perform c t) u.1 (perform-Held k c t u.0 h)

  -- Once a client has asked for a lock, nobody is given it, whatever calls come between, as long
  -- as none of them releases it or clears the locks and no deadline passes.
  -- The condition is that the table has its connection.
  pub lock_excludes :
      (k : String) (ttl again : Option ℕ) (cs : List Call) (t : Table Db)
      → t.connected ≡ true
      → All (Spares k) cs
      → (lock k again (run cs (lock k ttl t).1)).0 ≡ ok false
  lock_excludes k ttl again cs t c u =
      let h : Held k (run cs (lock k ttl t).1) =
        run-Held k cs (lock k ttl t).1 u (lock_takes k ttl t c) in
      lock_lem k again (run cs (lock k ttl t).1) h.0 ∙ ap (λ b. ok (if b then false else true)) h.1

  pub unlock_lem :
      (k : String) (t : Table Db)
      → t.connected ≡ true
      → unlock k t ≡ (ok tt, record t { db = B.hdel "locks" k t.db })
  unfolding unlock
  unlock_lem k t c = ground arith

  -- A lock that was released, whoever held it, is given to the next client, and to that one only.
  -- The condition is that the table has its connection.
  lock-unlock :
      (k : String) (ttl : Option ℕ) (t : Table Db)
      → t.connected ≡ true
      → let t' = (unlock k t).1 in
        ((lock k ttl t').0 ≡ ok true) × ((lock k ttl (lock k ttl t').1).0 ≡ ok false)
  lock-unlock k ttl t c = rw (unlock_lem k t c) (
      let t' : Table Db = record t { db = B.hdel "locks" k t.db } in
      let h : Held k (lock k ttl t').1 = lock_takes k ttl t' c in
      (
        lock_lem k ttl t' c ∙ ground (arith, eq_refl k, B.hget-hdel "locks" k "locks" k t.db),
        lock_lem k ttl (lock k ttl t').1 h.0 ∙ ap (λ b. ok (if b then false else true)) h.1,
      ))

  lock-with_ttl :
      (k : String) (s : ℕ) (t : Table Db)
      → t.connected ≡ true
      → t.unit_test ≡ false
      → hget "locks" k t.db ≡ none
      → lock k (some (suc s)) t
        ≡ (ok true, record t { db = B.expire "locks" (suc s) nx (B.hset "locks" k flag t.db) })
  unfolding lock
  lock-with_ttl k s t c u f = ground (arith, B.hsetnx_lem "locks" k flag t.db)

  -- A lock taken with a time to live puts the deadline on all locks: once it has passed, a lock that
  -- another client had taken with none is free too.
  -- The conditions: a connection, no unit test, no deadline on the locks so far, and the lock is free.
  ttl_frees_all :
      (j k : String) (s ms : ℕ) (t : Table Db)
      → t.connected ≡ true
      → t.unit_test ≡ false
      → B.pttl "locks" t.db ≡ persistent
      → Held j t
      → hget "locks" k t.db ≡ none
      → 0 < s
      → s * 1000 ≤ ms
      → let t' = (lock k (some s) t).1 in
        (lock j none (record t' { db = B.elapse ms t'.db })).0 ≡ ok true
  ttl_frees_all j k zero ms t c u p h f pos le = absurd (omega arith)
  ttl_frees_all j k (suc s) ms t c u p h f pos le = rw (lock-with_ttl k s t c u f) (
      lock_lem j none _ c
      ∙ ap (λ o. ok (if is_some o then false else true))
          (B.hget-elapse-expire "locks" j (suc s) ms (B.hset "locks" k flag t.db)
            (B.pttl-hset "locks" k flag t.db p) le))
