-- ===== src/Repository/Database.antt =====
-- The interface `IRepositoryAdapter` of src/providers/database/DatabaseTypes.ts: what a database
-- adapter does, over whatever database it stands for. Each call may fail.
use startup_api.Base.{◌≡◌, none, some, ℕ, String, Bool, Option, List}
use startup_api.Base.Value.{Value, Fields, get, assign}
use startup_api.Base.Exec.{Result, ok}

-- `IBaseRepositoryFindByOptions`
pub record FindOptions : Type 0 where
  pub select : Option String
  pub populate : List String
  pub virtuals : Bool
  pub defaults : Bool
  pub cache_key : Option String
  pub limit : Option ℕ
  pub hide_sensitive_fields : Option (List String)

-- `id_text` is `toString` of what the database uses for an `_id`.
pub record Adapter : Type 1 where
  pub Db : Type 0
  pub id_text : Value → String
  pub create : Fields → Db → Result Fields × Db
  pub find_by_id : String → Option FindOptions → Db → Result (Option Fields)
  pub find_by : Fields → Option FindOptions → Db → Result (Option Fields)
  pub find_all : Fields → Option FindOptions → Db → Result (List Fields)
  pub update_by_id : String → Fields → Db → Result (Option Fields) × Db
  pub update_by : Fields → Fields → Db → Result (Option Fields) × Db
  pub delete : String → Db → Result Bool × Db
  pub exists : Fields → Db → Result Bool

-- What the program relies on in an update: one that names a record by its identifier, and does not
-- change that, succeeds and is seen by the next read.
abbrev pub StoresUpdates : Adapter → Type 0
StoresUpdates A =
    (id : String) (q r : Fields) (d : A.Db)
    → get "_id" q ≡ none
    → A.find_by_id id none d ≡ ok (some r)
    → (r' : Fields) × (d' : A.Db) × (A.update_by_id id q d ≡ (ok (some r'), d'))
      × (A.find_by_id id none d' ≡ ok (some (assign r q)))
