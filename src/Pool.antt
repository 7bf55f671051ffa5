-- ===== src/Pool.antt =====
-- The connections to Redis: src/providers/database/RedisManager.ts, and the pool of
-- src/providers/database/RedisManager/RedisIOClient.ts.
pub mod Clients
pub mod Listing
mod Tests
use startup_api.Base.{
  ℕ, zero, suc, ◌+◌, ◌*◌, ◌≤◌, ◌≡◌, refl, Bool, true, false, not, Option, none, some, List, [], ◌∷◌,
  keep, ◌==◌, is_some, if◌then◌else◌, ◌&&◌, arith,
}
use startup_api.Base.Exec.{literal, Error, plain, Result, ok, err, Exec, pure, raise, ◌>>=◌, ◌>>◌}
use startup_api.HashTable.{no_pool}

-- How the pool answers when it is asked for a client: it throws, or gives one, by a number, which
-- then takes its name or throws.
pub data Answer : Type 0 where
  throws : Answer
  unnamed named : ℕ → Answer

-- `made` says that there is a pool, `borrowed` are its clients in use, and `asked` counts the
-- questions; `main` is the client of the pool's own, `client` that of the manager, whose events it
-- listens to. `waits` are the times before a retry, the last one first.
pub record Redis : Type 0 where
  pub enabled : Bool
  pub made : Bool
  pub borrowed : List ℕ
  pub asked : ℕ
  pub main : Option ℕ
  pub client : Option ℕ
  pub retry_delay : ℕ
  pub waits : List ℕ

abbrev pub max_retries : ℕ
max_retries = 5

abbrev Action : Type 0 → Type 0
Action R = Exec Redis R

abbrev change : (Redis → Redis) → Action Unit
change f s = (ok tt, f s)

abbrev pub failure : Error
failure = plain (literal "Redis call failed")

abbrev pub without_client : ℕ → List ℕ → List ℕ
without_client c cs = keep (λ d. not (d == c)) cs

abbrev pub has_client : ℕ → List ℕ → Bool
has_client c [] = false
has_client c (d ∷ ds) = if d == c then true else has_client c ds

-- `answers n` is the answer to the question number `n`.
module _ (answers : ℕ → Answer) where
  -- A client that cannot be named is given back before the error is thrown again.
  unfoldable pub get_pool_client : Action ℕ
  get_pool_client s =
      let s' : Redis = record s { asked = suc s.asked } in
      if not s.made then (err no_pool, s) else elim (answers s.asked) [
        | throws ↦ (err failure, s')
        | unnamed c ↦ (err failure, record s' { borrowed = without_client c (c ∷ s.borrowed) })
        | named c ↦ (ok c, record s' { borrowed = c ∷ s.borrowed })
      ]

  unfoldable pub release_pool_client : ℕ → Redis → Redis
  release_pool_client c s =
      if s.made && has_client c s.borrowed
      then record s { borrowed = without_client c s.borrowed }
      else s

  -- The pool is made first, and asked for a client then.
  unfoldable pub io_connect : Action (Option ℕ)
  io_connect s = elim s.made [
    | true ↦ (ok s.main, s)
    | false ↦
        (do
          change (λ s. record s { made = true })
          c ← get_pool_client
          change (λ s. record s { main = some c })
          pure (some c))
          s
  ]

  -- One attempt of `connect`, and what follows if it fails. A unit test takes the bare client instead.
  unfoldable pub attempt : Action Unit → Action Unit
  unfolding io_connect
  attempt failed s =
      let (r, s') = io_connect s in
      if not s.enabled
      then (err (plain (literal "Redis module is not enabled.")), s)
      else if is_some s.client
      then (ok tt, s)
      else elim r [ ok c ↦ (ok tt, record s' { client = c }) | err e ↦ failed s' ]

  -- With the retries that are left; a retry that is scheduled is run, after its wait.
  unfoldable pub connect : ℕ → Action Unit
  unfolding attempt
  connect zero = attempt (λ s. (ok tt, s))
  connect (suc retries) = attempt (λ s.
      connect retries
        (record s { waits = s.retry_delay ∷ s.waits; retry_delay = s.retry_delay * 2 }))

  -- The listeners of the events `error`, for a connection that is refused or too slow, and `end`.
  unfoldable pub client_lost : Action Unit
  unfolding connect
  client_lost s = connect max_retries (record s { client = none })
