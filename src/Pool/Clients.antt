-- ===== src/Pool/Clients.antt =====
-- Clients that are given back, and a pool whose first client fails.
use startup_api.Base.{ℕ, zero, suc, ◌*◌, ◌≡◌, refl, true, false, none, List, [], ◌∷◌, arith}
use startup_api.Base.Exec.{Result, ok, err}
use startup_api.Pool.{
  Answer, throws, unnamed, named, Redis, without_client, has_client, failure, get_pool_client,
  release_pool_client, io_connect, connect,
}

-- The pool gives only clients that are not in use.
abbrev pub IsFree : Answer → Redis → Type 0
IsFree throws s = Unit
IsFree (unnamed c) s = has_client c s.borrowed ≡ false
IsFree (named c) s = has_client c s.borrowed ≡ false

-- The pool answers with an error.
abbrev pub Fails : Answer → Type 0
Fails throws = Unit
Fails (unnamed c) = Unit
Fails (named c) = ⊥

-- With a pool but no client of its own, connecting succeeds, without a client.
connect_without :
    (answers : ℕ → Answer) (retries : ℕ) (s : Redis)
    → s.enabled ≡ true
    → s.made ≡ true
    → s.main ≡ none
    → s.client ≡ none
    → connect answers retries s ≡ (ok tt, s)
unfolding connect io_connect
connect_without answers zero s e m n c = ground (arith, e, m, n, c)
connect_without answers (suc k) s e m n c = ground (arith, e, m, n, c)

module _ (answers : ℕ → Answer) where
  without_client-fresh :
      (c : ℕ) (cs : List ℕ) → has_client c cs ≡ false → without_client c (c ∷ cs) ≡ cs
  without_client-fresh c [] h = ground arith
  without_client-fresh c (d ∷ ds) h = ground (arith, h, without_client-fresh c ds)

  -- The caller that gives back the client that it was given, if it was.
  abbrev pub give_back : Result ℕ × Redis → Redis
  give_back (ok c, s) = release_pool_client answers c s
  give_back (err e, s) = s

  given_back_at :
      (a : Answer) (s : Redis)
      → answers s.asked ≡ a
      → IsFree a s
      → (give_back (get_pool_client answers s)).borrowed ≡ s.borrowed
  unfolding get_pool_client release_pool_client
  given_back_at throws s e f = ground (arith, e)
  given_back_at (unnamed c) s e f = ground (arith, e, without_client-fresh c s.borrowed f)
  given_back_at (named c) s e f = ground (arith, e, without_client-fresh c s.borrowed f)

  -- No client leaks: when a caller has been given one and gives it back, and when it is refused one,
  -- whether by the pool or because naming fails, the same clients are in use as before.
  -- The condition is that the pool gives no client that is in use.
  pub no_client_leaks :
      (s : Redis)
      → IsFree (answers s.asked) s
      → (give_back (get_pool_client answers s)).borrowed ≡ s.borrowed
  no_client_leaks s f = given_back_at (answers s.asked) s refl f

  -- What the first failure leaves.
  abbrev failed_first : Answer → Redis → Redis
  failed_first throws s = record s { made = true; asked = suc s.asked }
  failed_first (unnamed c) s = record s {
    made = true;
    asked = suc s.asked;
    borrowed = without_client c (c ∷ s.borrowed);
  }
  failed_first (named c) s = s

  io_connect-Fails :
      (a : Answer) (s : Redis)
      → answers s.asked ≡ a
      → Fails a
      → s.made ≡ false
      → io_connect answers s ≡ (err failure, failed_first a s)
  unfolding io_connect get_pool_client
  io_connect-Fails throws s e f m = ground (arith, e, m)
  io_connect-Fails (unnamed c) s e f m = ground (arith, e, m)
  io_connect-Fails (named c) s e f m = absurd f

  abbrev waited : Redis → Redis
  waited s = record s { waits = s.retry_delay ∷ s.waits; retry_delay = s.retry_delay * 2 }

  connect-Fails :
      (retries : ℕ) (a : Answer) (s : Redis)
      → answers s.asked ≡ a
      → Fails a
      → s.enabled ≡ true
      → s.made ≡ false
      → s.main ≡ none
      → s.client ≡ none
      → connect answers (suc retries) s ≡ (ok tt, waited (failed_first a s))
  unfolding connect
  connect-Fails retries throws s h f e m n c = ground (
    arith,
    e,
    m,
    n,
    c,
    io_connect-Fails throws s h f m,
    connect_without answers retries (waited (failed_first throws s)) e refl n c,
  )
  connect-Fails retries (unnamed k) s h f e m n c = ground (
    arith,
    e,
    m,
    n,
    c,
    io_connect-Fails (unnamed k) s h f m,
    connect_without answers retries (waited (failed_first (unnamed k) s)) e refl n c,
  )
  connect-Fails retries (named k) s h f e m n c = absurd f

  first_failure_at :
      (a : Answer) (later : ℕ → Answer) (retries again : ℕ) (s : Redis)
      → answers s.asked ≡ a
      → Fails a
      → s.enabled ≡ true
      → s.made ≡ false
      → s.main ≡ none
      → s.client ≡ none
      → let (r, s') = connect answers (suc retries) s in
        (r ≡ ok tt)
        × (s'.waits ≡ s.retry_delay ∷ s.waits)
        × (s'.client ≡ none)
        × (connect later again s' ≡ (ok tt, s'))
  first_failure_at throws later retries again s h f e m n c =
      rw (connect-Fails retries throws s h f e m n c)
        (refl, refl, c, connect_without later again (waited (failed_first throws s)) e refl n c)
  first_failure_at (unnamed k) later retries again s h f e m n c =
      rw (connect-Fails retries (unnamed k) s h f e m n c) (
        refl,
        refl,
        c,
        connect_without later again (waited (failed_first (unnamed k) s)) e refl n c,
      )
  first_failure_at (named k) later retries again s h f e m n c = absurd f

-- The first time that a client is asked of the pool fails. Then connecting reports success after a
-- single retry, and there is no client; and none is made later, however often connecting is tried
-- again and whatever the pool would answer by then.
-- The conditions: Redis is enabled, there is neither a pool nor a client so far, and there is a retry.
pub first_failure_stays :
    (answers later : ℕ → Answer) (retries again : ℕ) (s : Redis)
    → Fails (answers s.asked)
    → s.enabled ≡ true
    → s.made ≡ false
    → s.main ≡ none
    → s.client ≡ none
    → let (r, s') = connect answers (suc retries) s in
      (r ≡ ok tt)
      × (s'.waits ≡ s.retry_delay ∷ s.waits)
      × (s'.client ≡ none)
      × (connect later again s' ≡ (ok tt, s'))
first_failure_stays answers later retries again s f e m n c =
    first_failure_at answers (answers s.asked) later retries again s refl f e m n c
