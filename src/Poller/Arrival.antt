-- ===== src/Poller/Arrival.antt =====
-- Which result a poll returns, and what it leaves behind.
use startup_api.Base.{
  ◌∙◌, ℕ, zero, suc, String, ◌≡◌, refl, true, false, Option, none, or_else, if◌then◌else◌, ◌==◌,
  arith, eq_refl, ltb,
}
use startup_api.Base.Value.{Value, bool}
use startup_api.Base.Exec.{ok}
use startup_api.Redis.{Backend}
use startup_api.HashTable.{Table}
use startup_api.Poller.{
  parent_namespace, max_retries, full_key, prepare_result_to_be_polled, poll, poll_results,
}

module _ ⦃B : Backend⦄ where
  open B use {Db, hget, hset, hdel, stringify}

  -- Another process stores the result before the question after which `k` are left.
  abbrev pub arrives : ℕ → String → Value → ℕ → Db → Db
  arrives k key v n d = if n == k then hset parent_namespace key (stringify v) d else d

  unfoldable pub stored : String → Value → Table Db → Table Db
  stored key v t = record t { db = hset parent_namespace key (stringify v) t.db }

  poll-arrives :
      (k n : ℕ) (key : String) (v : Value) (t : Table Db)
      → t.connected ≡ true
      → hget parent_namespace key t.db ≡ none
      → poll (arrives k key v) key n t
        ≡ (if ltb k n then (ok v, stored key v t) else (ok (bool false), t))
  unfolding poll stored
  poll-arrives k zero key v t c f = ground arith
  poll-arrives k (suc n) key v t c f = ground (
    arith,
    eq_refl key,
    B.hget-hset parent_namespace key parent_namespace key (stringify v) t.db,
    B.is_empty-stringify v,
    B.parse-stringify v,
    poll-arrives k n key v t c f,
  )

  cleaned : String → String → Table Db → Table Db
  cleaned namespace key t = record t { db = hdel parent_namespace (full_key namespace key) t.db }

  cleaned-gone :
      (namespace key : String) (t : Table Db)
      → hget parent_namespace (full_key namespace key) (cleaned namespace key t).db ≡ none
  unfolding cleaned
  cleaned-gone namespace key t = ground (
    arith,
    eq_refl (full_key namespace key),
    B.hget-hdel parent_namespace (full_key namespace key) parent_namespace (full_key namespace key)
        t.db,
  )

  -- The `finally` block after the loop.
  poll_results-poll :
      (others : ℕ → Db → Db) (namespace key : String) (v : Value) (t t' : Table Db)
      → poll others (full_key namespace key) max_retries t ≡ (ok v, t')
      → t'.connected ≡ true
      → poll_results others namespace key t ≡ (ok v, cleaned namespace key t')
  unfolding poll_results cleaned
  poll_results-poll others namespace key v t t' h c = ground (arith, h)

  arrived : ℕ → String → Value → Table Db → Value × Table Db
  unfolding stored
  arrived k key v t = if ltb k max_retries then (v, stored key v t) else (bool false, t)

  -- A result that another process stores in time for one of the 300 questions is what the poll
  -- returns, and one that comes later is not: then it returns `false`. It never throws, and the key
  -- is gone afterwards.
  -- The conditions: the table has its connection, and no result is there at the start.
  pub poll_results-arrives :
      (k : ℕ) (namespace key : String) (v : Value) (t : Table Db)
      → t.connected ≡ true
      → hget parent_namespace (full_key namespace key) t.db ≡ none
      → let (r, t') = poll_results (arrives k (full_key namespace key) v) namespace key t in
        (r ≡ ok (if ltb k max_retries then v else bool false))
        × (hget parent_namespace (full_key namespace key) t'.db ≡ none)
  unfolding poll_results stored
  poll_results-arrives k namespace key v t c f =
      let (w, t') = arrived k (full_key namespace key) v t in
      rw
        (poll_results-poll (arrives k (full_key namespace key) v) namespace key w t t'
          (unfold arrived in
            poll-arrives k max_retries (full_key namespace key) v t c f ∙ ground arith)
          (unfold arrived in ground arith))
        (unfold arrived in ground arith, cleaned-gone namespace key t')

  poll-stored :
      (n : ℕ) (key : String) (v : Value) (t : Table Db)
      → t.connected ≡ true
      → poll (λ n d. d) key (suc n) (stored key v t) ≡ (ok v, stored key v t)
  unfolding poll stored
  poll-stored n key v t c = ground (
    arith,
    eq_refl key,
    B.hget-hset parent_namespace key parent_namespace key (stringify v) t.db,
    B.is_empty-stringify v,
    B.parse-stringify v,
  )

  prepare-stored :
      (namespace key : String) (result : Option Value) (t : Table Db)
      → t.connected ≡ true
      → (prepare_result_to_be_polled namespace key result t).1
        ≡ stored (full_key namespace key) (or_else result (bool false)) t
  unfolding prepare_result_to_be_polled stored
  prepare-stored namespace key result t c = ground arith

  connected-stored :
      (key : String) (v : Value) (t : Table Db)
      → t.connected ≡ true
      → (stored key v t).connected ≡ true
  unfolding stored
  connected-stored key v t c = c

  -- What was prepared is what a poll returns, `false` for an undefined result, when no other client
  -- touches the server; a second poll then finds nothing.
  -- The condition is that the table has its connection.
  poll_results-prepare :
      (namespace key : String) (result : Option Value) (t : Table Db)
      → t.connected ≡ true
      → let t' = (prepare_result_to_be_polled namespace key result t).1 in
        let (r, t'') = poll_results (λ n d. d) namespace key t' in
        (r ≡ ok (or_else result (bool false)))
        × (hget parent_namespace (full_key namespace key) t''.db ≡ none)
  poll_results-prepare namespace key result t c =
      let v = or_else result (bool false) in
      let k = full_key namespace key in
      rw (prepare-stored namespace key result t c) (
        rw
          (poll_results-poll (λ n d. d) namespace key v (stored k v t) (stored k v t)
            (poll-stored 299 k v t c) (connected-stored k v t c))
          (refl, cleaned-gone namespace key (stored k v t)))
