-- ===== src/Databases/Prisma.antt =====
-- src/providers/database/repository/PrismaRepository.ts: a repository in a relational database, over
-- the delegate that Prisma has for a model.
pub mod Where
use startup_api.Base.{
  ℕ, String, Bool, true, false, ◌||◌, ◌&&◌, Option, none, some, List, [], ◌∷◌, ◌==◌, leb, ltb,
  str_eq, map, if◌then◌else◌, or_else,
}
use startup_api.Base.Texts.{includes_char, without_char, trim_start, trim_end, split}
use startup_api.Base.Value.{Value, null, bool, num, str, obj, arr, Fields, end, field, put, is_date}
use startup_api.Base.Exec.{literal, Error, plain, Result, ok, err, Exec, pure, lift, ◌>>=◌, ◌>>◌}
use startup_api.Repository.Database.{Adapter, FindOptions}

abbrev pub percent : ℕ
percent = 37

abbrev pub underscore : ℕ
underscore = 95

abbrev pub has_wildcard : String → Bool
has_wildcard s = includes_char percent s || includes_char underscore s

unfoldable mutual
  pub where_value : Value → Value
  where_value null = obj (field "is" null end)
  where_value (bool b) = bool b
  where_value (num n) = num n
  where_value (str s) =
      if has_wildcard s then obj (field "contains" (str (without_char percent s)) end) else str s
  -- A Date has no entries that `Object.entries` lists.
  where_value (obj fs) = let inner = parse_where fs in if is_date fs then obj end else obj inner
  where_value (arr xs) = obj (field "in" (arr xs) end)

  pub parse_where : Fields → Fields
  parse_where end = end
  parse_where (field k v fs) = field k (where_value v) (parse_where fs)

abbrev comma : ℕ
comma = 44

-- An object that has `true` under each name.
unfoldable pub all_true : List String → Fields → Fields
unfolding put
all_true [] acc = acc
all_true (name ∷ names) acc = all_true names (put name (bool true) acc)

unfoldable pub parse_select : String → Fields
unfolding all_true
parse_select select = all_true (map (λ s. trim_end (trim_start s)) (split comma select)) end

unfoldable pub parse_include : List String → Fields
unfolding all_true
parse_include populate = all_true populate end

-- The argument of a search.
pub record Query : Type 0 where
  pub conditions : Option Fields
  pub select : Option Fields
  pub include : Option Fields
  pub take : Option ℕ

-- The delegate of a model: every call may throw.
pub record Delegate : Type 1 where
  pub Db : Type 0
  pub create : Fields → Db → Result Fields × Db
  pub find_unique : Query → Db → Result (Option Fields)
  pub find_first : Query → Db → Result (Option Fields)
  pub find_many : Query → Db → Result (List Fields)
  pub update : Fields → Fields → Db → Result Fields × Db
  pub update_many : Fields → Fields → Db → Result ℕ × Db
  pub delete : Fields → Db → Result {0} Unit × Db
  pub count : Fields → Db → Result ℕ

-- `validate` is `zodToObject` with the schema, `validate_part` the same with `partial`, and `no_table`
-- recognises Prisma's error P2021.
module _ (D : Delegate) (validate validate_part : Fields → Result Fields)
    (no_table : Error → Bool) where
  open D use {Db}

  abbrev Action : Type 0 → Type 0
  Action A = Exec Db A

  abbrev selected : Option FindOptions → Option Fields
  selected none = none
  selected (some o) =
      if str_eq (or_else o.select "") "" then none else some (parse_select (or_else o.select ""))

  abbrev included : Option FindOptions → Option Fields
  included none = none
  included (some o) = elim o.populate [ [] ↦ none | name ∷ names ↦ some (parse_include o.populate) ]

  abbrev taken : Option FindOptions → Option ℕ
  taken none = none
  taken (some o) = o.limit

  abbrev query : Option Fields → Option FindOptions → Option ℕ → Query
  query conditions options take = record {
    conditions = conditions;
    select = selected options;
    include = included options;
    take = take;
  }

  abbrev by_id : String → Fields
  by_id id = field "id" (str id) end

  unfoldable pub create : Fields → Action Fields
  create item = do validated ← lift (validate item); D.create validated

  unfoldable pub find_by_id : String → Option FindOptions → Db → Result (Option Fields)
  find_by_id id options d = D.find_unique (query (some (by_id id)) options none) d

  unfoldable pub find_by : Fields → Option FindOptions → Db → Result (Option Fields)
  find_by params options d =
      elim (D.find_first (query (some (parse_where params)) options none) d) [
        | ok o ↦ ok o
        | err e ↦ if no_table e then ok none else err e
      ]

  unfoldable pub find_all : Fields → Option FindOptions → Db → Result (List Fields)
  find_all params options d =
      D.find_many (query (some (parse_where params)) options (taken options)) d

  unfoldable pub update_by_id : String → Fields → Action (Option Fields)
  update_by_id id item = do
    validated ← lift (validate_part item)
    updated ← D.update (by_id id) validated
    pure (some updated)

  unfoldable pub update_by : Fields → Fields → Action (Option Fields)
  update_by params item = do
    validated ← lift (validate_part item)
    updated ← D.update_many (parse_where params) validated
    λ d. (find_by params none d, d)

  unfoldable pub delete : String → Action Bool
  delete id d =
      let (r, d') = D.delete (by_id id) d in (elim r [ ok _ ↦ ok true | err e ↦ ok false ], d')

  unfoldable pub exists : Fields → Db → Result Bool
  exists params d = elim (D.count (parse_where params) d) [
    | ok n ↦ ok (ltb 0 n)
    | err e ↦ if no_table e then ok false else err e
  ]

  -- The adapter that these methods are.
  abbrev pub prisma : (Value → String) → Adapter
  prisma id_text = record {
    Db = Db;
    id_text = id_text;
    create = create;
    find_by_id = find_by_id;
    find_by = find_by;
    find_all = find_all;
    update_by_id = update_by_id;
    update_by = update_by;
    delete = delete;
    exists = exists;
  }
