-- ===== src/HashTable.antt =====
-- src/providers/database/InMemoryHashTable.ts: values under a namespace and a key, kept as JSON in
-- Redis hashes. Every method first asks for the connection and throws if there is none.
pub mod Laws
pub mod Refinement
mod Tests
use Prim.Native.String.{◌++◌}
use startup_api.Base.{
  ℕ, String, Bool, true, false, Option, none, some, List, [], ◌∷◌, map, str_eq, if◌then◌else◌, not,
  ◌||◌, ◌&&◌,
}
use startup_api.Base.Value.{Value, Fields, end, put}
use startup_api.Base.Exec.{
  Message, literal, Error, plain, Result, ok, err, Exec, pure, raise, lift, gets, modify, raise_if,
  ◌>>=◌, ◌>>◌,
}
use startup_api.Redis.{Backend, ExpireMode, TimeLeft}

-- `unit_test` is `appEnv.general.IS_UNIT_TEST`; `reachable` says that the Redis manager has a
-- client to give; `connected` that `connection` is set.
pub record Table (Db : Type 0) : Type 0 where
  pub unit_test : Bool
  pub reachable : Bool
  pub connected : Bool
  pub db : Db

abbrev pub no_connection : Error
no_connection = plain (
    literal
      "Redis connection is not established. Set MODULE_REDIS=true in your .env and run yarn module:build.")

abbrev pub no_namespace : Error
no_namespace = plain (literal "Namespace is undefined or null.")

-- What JSON.parse throws.
abbrev pub malformed : Error
malformed = plain (literal "Unexpected token in JSON")

-- What `getPoolClient` throws without a pool.
abbrev pub no_pool : Error
no_pool = plain (literal "Redis pool has not been initialized. Call connect() first.")

module _ ⦃B : Backend⦄ where
  open B use {
    Db, Text, hset, hsetnx, hget, hgetall, hkeys, hexists, exists, keys, hdel, del, pttl, is_empty,
    stringify, parse,
  }

  abbrev pub Action : Type 0 → Type 0
  Action A = Exec (Table Db) A

  -- A client of the shared manager in a unit test, or one of the pool.
  unfoldable pub init : Action Unit
  init t =
      if t.unit_test || t.reachable
      then (ok tt, record t { connected = t.reachable })
      else (err no_pool, t)

  unfoldable pub ensure_connection : Action Unit
  ensure_connection t = (if t.connected then ok tt else err no_connection, t)

  abbrev pub change : (Db → Db) → Action Unit
  change f t = (ok tt, record t { db = f t.db })

  unfoldable pub set : String → String → Value → Action Unit
  unfolding ensure_connection
  set namespace key value = do ensure_connection; change (hset namespace key (stringify value))

  unfoldable pub set_nx : String → String → Value → Action Bool
  unfolding ensure_connection
  set_nx namespace key value = do
    ensure_connection
    λ t.
        let (result, d) = hsetnx namespace key (stringify value) t.db in
        (ok result, record t { db = d })

  unfoldable pub expire : String → ℕ → ExpireMode → Action Unit
  unfolding ensure_connection
  expire key seconds mode = do
    ensure_connection
    λ t.
        if t.unit_test
        then (ok tt, t)
        else (ok tt, record t { db = B.expire key seconds mode t.db })

  unfoldable pub get_expire : String → Action TimeLeft
  unfolding ensure_connection
  get_expire namespace = do
    ensure_connection
    raise_if (str_eq namespace "") no_namespace
    gets (λ t. pttl namespace t.db)

  -- `JSON.parse(value)`
  unfoldable pub parse_text : Text → Result Value
  parse_text text = elim (parse text) [ none ↦ err malformed | some v ↦ ok v ]

  unfoldable pub parse_object : List (String × Text) → Fields → Result Fields
  unfolding parse_text put
  parse_object [] acc = ok acc
  parse_object ((key, text) ∷ rest) acc = elim (parse text) [
    | none ↦ err malformed
    | some v ↦ parse_object rest (put key v acc)
  ]

  unfoldable pub get_all : String → Action Fields
  unfolding ensure_connection parse_object
  get_all namespace = do
    ensure_connection
    values ← gets (λ t. hgetall namespace t.db)
    lift (parse_object values end)

  unfoldable pub has : String → String → Action Bool
  unfolding ensure_connection
  has namespace key = do ensure_connection; gets (λ t. hexists namespace key t.db)

  unfoldable pub has_all : String → Action Bool
  unfolding ensure_connection
  has_all namespace = do ensure_connection; gets (λ t. exists namespace t.db)

  -- No value and an empty text are both `undefined`.
  unfoldable pub read : Option Text → Result (Option Value)
  read none = ok none
  read (some text) =
      if is_empty text
      then ok none
      else elim (parse text) [ none ↦ err malformed | some v ↦ ok (some v) ]

  unfoldable pub get : String → String → Action (Option Value)
  unfolding ensure_connection read
  get namespace key = do
    ensure_connection
    value ← gets (λ t. hget namespace key t.db)
    lift (read value)

  unfoldable pub get_all_keys_with_prefix : String → Action (List String)
  unfolding ensure_connection
  get_all_keys_with_prefix prefix = do ensure_connection; gets (λ t. keys (prefix ++ "*") t.db)

  unfoldable pub get_all_keys : String → Action (List String)
  unfolding ensure_connection
  get_all_keys namespace = do ensure_connection; gets (λ t. hkeys namespace t.db)

  unfoldable pub delete : String → String → Action Unit
  unfolding ensure_connection
  delete namespace key = do ensure_connection; change (hdel namespace key)

  unfoldable pub delete_all : String → Action Unit
  unfolding ensure_connection
  delete_all namespace = do ensure_connection; change (del namespace)
