-- ===== src/Redis/Api.antt =====
-- The interface that the code behind a Redis connection is modelled over.
use startup_api.Base.{
  ℕ, ◌*◌, ◌≤◌, ◌<◌, String, ◌≡◌, Bool, true, false, ◌&&◌, Option, none, some, List, [], ◌∷◌, map,
  str_eq, if◌then◌else◌, is_some,
}
use startup_api.Base.Value.{Value}

-- The mode of EXPIRE.
pub data ExpireMode : Type 0 where
  nx xx gt lt : ExpireMode

-- The reply of PTTL: -2, -1 or the time left in milliseconds.
pub data TimeLeft : Type 0 where
  missing persistent : TimeLeft
  left : ℕ → TimeLeft

abbrev pub entry_of : {A : Type 0} → String → List (String × A) → Option A
entry_of k [] = none
entry_of k ((j, v) ∷ es) = if str_eq j k then some v else entry_of k es

abbrev pub key_of : {A : Type 0} → String × A → String
key_of (k, v) = k

-- Hashes are named by texts and map fields to stored texts. `elapse` lets milliseconds pass.
pub record Backend : Type 1 where
  pub Db : Type 0
  pub Text : Type 0
  pub hset : String → String → Text → Db → Db
  pub hsetnx : String → String → Text → Db → Bool × Db
  pub hget : String → String → Db → Option Text
  pub hgetall : String → Db → List (String × Text)
  pub hkeys : String → Db → List String
  pub hexists : String → String → Db → Bool
  pub exists : String → Db → Bool
  pub keys : String → Db → List String
  pub hdel : String → String → Db → Db
  pub del : String → Db → Db
  pub expire : String → ℕ → ExpireMode → Db → Db
  pub pttl : String → Db → TimeLeft
  pub elapse : ℕ → Db → Db
  pub is_empty : Text → Bool
  pub stringify : Value → Text
  pub parse : Text → Option Value
  pub hget-hset :
      (n k m j : String) (v : Text) (d : Db)
      → hget m j (hset n k v d) ≡ (if str_eq n m && str_eq k j then some v else hget m j d)
  pub hget-hdel :
      (n k m j : String) (d : Db)
      → hget m j (hdel n k d) ≡ (if str_eq n m && str_eq k j then none else hget m j d)
  pub hget-del :
      (n m j : String) (d : Db) → hget m j (del n d) ≡ (if str_eq n m then none else hget m j d)
  pub hsetnx_lem :
      (n k : String) (v : Text) (d : Db)
      → hsetnx n k v d ≡ (if is_some (hget n k d) then (false, d) else (true, hset n k v d))
  pub hexists_lem : (n k : String) (d : Db) → hexists n k d ≡ is_some (hget n k d)
  pub hkeys_lem : (n : String) (d : Db) → hkeys n d ≡ map key_of (hgetall n d)
  pub hgetall_lem : (n k : String) (d : Db) → entry_of k (hgetall n d) ≡ hget n k d
  pub hget-expire :
      (n : String) (s : ℕ) (mode : ExpireMode) (m j : String) (d : Db)
      → 0 < s
      → hget m j (expire n s mode d) ≡ hget m j d
  pub pttl-hset :
      (n k : String) (v : Text) (d : Db)
      → pttl n d ≡ persistent
      → pttl n (hset n k v d) ≡ persistent
  pub hget-elapse-expire :
      (n k : String) (s ms : ℕ) (d : Db)
      → pttl n d ≡ persistent
      → s * 1000 ≤ ms
      → hget n k (elapse ms (expire n s nx d)) ≡ none
  pub parse-stringify : (v : Value) → parse (stringify v) ≡ some v
  pub is_empty-stringify : (v : Value) → is_empty (stringify v) ≡ false
