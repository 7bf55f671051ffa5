-- ===== src/HashTable/Refinement.antt =====
-- The hash table as an abstract store: under a namespace and a key there is a value or none.
use startup_api.Base.{
  String, ◌≡◌, refl, ap, ◌∙◌, Bool, true, not, Option, none, some, List, [], ◌∷◌, str_eq,
  if◌then◌else◌, ◌&&◌, arith, is_some,
}
use startup_api.Base.Value.{Value}
use startup_api.Base.Exec.{Result, ok, pure, ◌>>=◌, ◌>>◌}
use startup_api.Redis.{Backend}
use startup_api.HashTable.{
  Table, Action, set, set_nx, get, has, delete, delete_all, read, ensure_connection,
}
use startup_api.HashTable.Laws.{read-stringify}

abbrev pub Store : Type 0
Store = String → String → Option Value

pub data Call : Type 0 where
  sets sets_nx : String → String → Value → Call
  gets_value asks deletes : String → String → Call
  deletes_all : String → Call

pub data Reply : Type 0 where
  done : Reply
  flag : Bool → Reply
  value : Option Value → Reply

-- `σ` with another entry.
abbrev pub update : String → String → Option Value → Store → Store
update n k o σ m j = if str_eq n m && str_eq k j then o else σ m j

-- What a call means.
abbrev pub meaning : Call → Store → Reply
meaning (sets n k v) σ = done
meaning (sets_nx n k v) σ = flag (not (is_some (σ n k)))
meaning (gets_value n k) σ = value (σ n k)
meaning (asks n k) σ = flag (is_some (σ n k))
meaning (deletes n k) σ = done
meaning (deletes_all n) σ = done

abbrev pub next : Call → Store → Store
next (sets n k v) σ = update n k (some v) σ
next (sets_nx n k v) σ = if is_some (σ n k) then σ else update n k (some v) σ
next (gets_value n k) σ = σ
next (asks n k) σ = σ
next (deletes n k) σ = update n k none σ
next (deletes_all n) σ = λ m j. if str_eq n m then none else σ m j

abbrev pub meanings : List Call → Store → List (Result Reply)
meanings [] σ = []
meanings (c ∷ cs) σ = ok (meaning c σ) ∷ meanings cs (next c σ)

abbrev pub last : List Call → Store → Store
last [] σ = σ
last (c ∷ cs) σ = last cs (next c σ)

module _ ⦃B : Backend⦄ where
  open B use {Db, Text, hget, stringify}

  -- The table's method that a call stands for.
  unfoldable pub perform : Call → Action Reply
  perform (sets n k v) = do set n k v; pure done
  perform (sets_nx n k v) = do r ← set_nx n k v; pure (flag r)
  perform (gets_value n k) = do o ← get n k; pure (value o)
  perform (asks n k) = do b ← has n k; pure (flag b)
  perform (deletes n k) = do delete n k; pure done
  perform (deletes_all n) = do delete_all n; pure done

  abbrev pub replies : List Call → Table Db → List (Result Reply)
  replies [] t = []
  replies (c ∷ cs) t = let (r, t') = perform c t in r ∷ replies cs t'

  abbrev pub run : List Call → Table Db → Table Db
  run [] t = t
  run (c ∷ cs) t = run cs (perform c t).1

  abbrev pub written : Option Value → Option Text
  written none = none
  written (some v) = some (stringify v)

  -- The table holds exactly the store's values, as JSON, and has its connection.
  record Holds (t : Table Db) (σ : Store) : Type 0 where
    pub connected : t.connected ≡ true
    pub entry : (n k : String) → hget n k t.db ≡ written (σ n k)

  is_some-written : (o : Option Value) → is_some (written o) ≡ is_some o
  is_some-written none = refl
  is_some-written (some v) = refl

  read-written : (o : Option Value) → read (written o) ≡ ok o
  unfolding read
  read-written none = refl
  read-written (some v) = read-stringify v

  perform_refines :
      (c : Call) (t : Table Db) (σ : Store)
      → Holds t σ
      → ((perform c t).0 ≡ ok (meaning c σ)) × Holds (perform c t).1 (next c σ)
  unfolding perform set set_nx get has delete delete_all ensure_connection
  perform_refines (sets n k v) t σ h = (
    ground (arith, h.connected),
    record {
      connected = ground (arith, h.connected);
      entry =
          λ m j. ground (arith, h.connected, h.entry m j, B.hget-hset n k m j (stringify v) t.db);
    },
  )
  perform_refines (sets_nx n k v) t σ h = (
    ground (
      arith,
      h.connected,
      B.hsetnx_lem n k (stringify v) t.db,
      h.entry n k,
      is_some-written (σ n k),
    ),
    record {
      connected = ground (arith, h.connected, B.hsetnx_lem n k (stringify v) t.db);
      entry = λ m j. ground (
        arith,
        h.connected,
        h.entry m j,
        h.entry n k,
        is_some-written (σ n k),
        B.hsetnx_lem n k (stringify v) t.db,
        B.hget-hset n k m j (stringify v) t.db,
      );
    },
  )
  perform_refines (gets_value n k) t σ h = (
    ground (arith, h.connected, h.entry n k, read-written (σ n k)),
    record {
      connected = ground (arith, h.connected);
      entry = λ m j. ground (arith, h.connected, h.entry m j, h.entry n k, read-written (σ n k));
    },
  )
  perform_refines (asks n k) t σ h = (
    ground (arith, h.connected, h.entry n k, is_some-written (σ n k), B.hexists_lem n k t.db),
    record {
      connected = ground (arith, h.connected);
      entry = λ m j. ground (arith, h.connected, h.entry m j);
    },
  )
  perform_refines (deletes n k) t σ h = (
    ground (arith, h.connected),
    record {
      connected = ground (arith, h.connected);
      entry = λ m j. ground (arith, h.connected, h.entry m j, B.hget-hdel n k m j t.db);
    },
  )
  perform_refines (deletes_all n) t σ h = (
    ground (arith, h.connected),
    record {
      connected = ground (arith, h.connected);
      entry = λ m j. ground (arith, h.connected, h.entry m j, B.hget-del n m j t.db);
    },
  )

  lift_refines :
      (cs : List Call) (t : Table Db) (σ : Store)
      → Holds t σ
      → (replies cs t ≡ meanings cs σ) × Holds (run cs t) (last cs σ)
  lift_refines [] t σ h = (refl, h)
  lift_refines (c ∷ cs) t σ h =
      let (a, b) = perform_refines c t σ h in
      let (d, e) = lift_refines cs (perform c t).1 (next c σ) b in
      (ap (λ r. r ∷ replies cs (perform c t).1) a ∙ ap (λ rs. ok (meaning c σ) ∷ rs) d, e)

  -- A table that has its connection and holds the values of a store, as JSON, behaves as the store:
  -- whatever sequence of calls is made, each of them replies, without an error, what it means on the
  -- store, and afterwards the table holds the values of the store that the calls lead to.
  pub run_refines :
      (cs : List Call) (t : Table Db) (σ : Store)
      → t.connected ≡ true
      → ((n k : String) → hget n k t.db ≡ written (σ n k))
      → (replies cs t ≡ meanings cs σ)
        × ((n k : String) → hget n k (run cs t).db ≡ written (last cs σ n k))
  run_refines cs t σ c h =
      let (r, all) = lift_refines cs t σ (record { connected = c; entry = h }) in (r, all.entry)
