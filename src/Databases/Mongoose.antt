-- ===== src/Databases/Mongoose.antt =====
-- src/providers/database/repository/MongooseRepository.ts: a repository in MongoDB, over the model of
-- Mongoose.
use startup_api.Base.{
  ℕ, zero, suc, String, Bool, Option, none, some, List, [], ◌∷◌, ◌++◌, map, str_eq, if◌then◌else◌,
  is_some, or_else,
}
use startup_api.Base.Value.{Value, Fields}
use startup_api.Base.Exec.{Result, ok, err, Exec, pure, ◌>>=◌}
use startup_api.Repository.Database.{Adapter, FindOptions}

-- What is set on a query before it is executed.
pub data Setting : Type 0 where
  selects populates caches : String → Setting
  limits : ℕ → Setting
  sets_virtuals sets_defaults : Setting

-- A model: the queries are lean, and an update returns the new record. Every call may throw.
pub record Model : Type 1 where
  pub Db : Type 0
  pub create : Fields → Db → Result Fields × Db
  pub find_by_id : String → List Setting → Db → Result (Option Fields)
  pub find_one : Fields → List Setting → Db → Result (Option Fields)
  pub find : Fields → List Setting → Db → Result (List Fields)
  pub find_by_id_and_update : String → Fields → Db → Result (Option Fields) × Db
  pub find_one_and_update : Fields → Fields → Db → Result (Option Fields) × Db
  pub find_by_id_and_delete : String → Db → Result (Option Fields) × Db
  pub exists : Fields → Db → Result (Option Fields)

abbrev limit_of : Option ℕ → List Setting
limit_of none = []
limit_of (some zero) = []
limit_of (some (suc n)) = limits (suc n) ∷ []

abbrev cache_of : Option String → List Setting
cache_of none = []
cache_of (some key) = caches key ∷ []

-- The settings of `applyOptionsAndExecQuery`, in their order.
unfoldable pub settings : Option FindOptions → List Setting
settings none = []
settings (some o) =
    (if str_eq (or_else o.select "") "" then [] else selects (or_else o.select "") ∷ [])
    ++ (limit_of o.limit
        ++ (map populates o.populate
            ++ ((if o.virtuals then sets_virtuals ∷ [] else [])
                ++ ((if o.defaults then sets_defaults ∷ [] else []) ++ cache_of o.cache_key))))

module _ (M : Model) where
  open M use {Db}

  unfoldable pub find_by_id : String → Option FindOptions → Db → Result (Option Fields)
  unfolding settings
  find_by_id id options d = M.find_by_id id (settings options) d

  unfoldable pub find_by : Fields → Option FindOptions → Db → Result (Option Fields)
  unfolding settings
  find_by params options d = M.find_one params (settings options) d

  unfoldable pub find_all : Fields → Option FindOptions → Db → Result (List Fields)
  unfolding settings
  find_all params options d = M.find params (settings options) d

  unfoldable pub delete : String → Exec Db Bool
  delete id = do result ← M.find_by_id_and_delete id; pure (is_some result)

  unfoldable pub exists : Fields → Db → Result Bool
  exists params d = elim (M.exists params d) [ ok o ↦ ok (is_some o) | err e ↦ err e ]

  -- The adapter that these methods are; creating and updating are the model's.
  abbrev pub mongoose : (Value → String) → Adapter
  mongoose id_text = record {
    Db = Db;
    id_text = id_text;
    create = M.create;
    find_by_id = find_by_id;
    find_by = find_by;
    find_all = find_all;
    update_by_id = M.find_by_id_and_update;
    update_by = M.find_one_and_update;
    delete = delete;
    exists = exists;
  }
