-- ===== src/HashTable/Laws.antt =====
-- What the hash table's methods promise together: a value written is the value read, until it is
-- written again or deleted.
use startup_api.Base.{
  String, ◌≡◌, true, false, none, some, str_eq, if◌then◌else◌, ◌&&◌, arith, is_some,
}
use startup_api.Base.Value.{Value}
use startup_api.Base.Exec.{ok}
use startup_api.Redis.{Backend}
use startup_api.HashTable.{Table, set, set_nx, get, delete, delete_all, read, ensure_connection}

module _ ⦃B : Backend⦄ where
  open B use {Db, hget, stringify}

  pub read-stringify : (v : Value) → read (some (stringify v)) ≡ ok (some v)
  unfolding read
  read-stringify v = simp (B.is_empty-stringify, B.parse-stringify)

  -- Reading a key right after writing one gives the value if the keys agree and what was there
  -- before if they do not.
  pub get-set :
      (n k m j : String) (v : Value) (t : Table Db)
      → t.connected ≡ true
      → (get m j (set n k v t).1).0
        ≡ (if str_eq n m && str_eq k j then ok (some v) else (get m j t).0)
  unfolding get set ensure_connection
  get-set n k m j v t c = ground (arith, B.hget-hset n k m j (stringify v) t.db, read-stringify v)

  -- Reading a key after deleting one.
  pub get-delete :
      (n k m j : String) (t : Table Db)
      → t.connected ≡ true
      → (get m j (delete n k t).1).0 ≡ (if str_eq n m && str_eq k j then ok none else (get m j t).0)
  unfolding get delete ensure_connection read
  get-delete n k m j t c = ground (arith, B.hget-hdel n k m j t.db)

  pub get-delete_all :
      (n m j : String) (t : Table Db)
      → t.connected ≡ true
      → (get m j (delete_all n t).1).0 ≡ (if str_eq n m then ok none else (get m j t).0)
  unfolding get delete_all ensure_connection read
  get-delete_all n m j t c = ground (arith, B.hget-del n m j t.db)

  -- A write only for a new key: the first writer is told `true`, and a later one changes nothing.
  pub set_nx_lem :
      (n k : String) (v : Value) (t : Table Db)
      → t.connected ≡ true
      → set_nx n k v t ≡ (
          if is_some (hget n k t.db)
          then (ok false, t)
          else (ok true, record t { db = B.hset n k (stringify v) t.db }))
  unfolding set_nx ensure_connection
  set_nx_lem n k v t c = ground (arith, B.hsetnx_lem n k (stringify v) t.db)
