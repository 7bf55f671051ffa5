-- ===== src/Databases/Firebase.antt =====
-- src/providers/database/repository/FirebaseRepository.ts: a repository in a realtime database,
-- with what the program relies on in a `Reference` of it.
pub mod Laws
pub mod SignIn
use Prim.Native.String.{[] as empty, ◌∷◌ as ◌then◌}
use Prim.Native.Char.{code}
use startup_api.Base.{
  ℕ, String, not, ◌&&◌, ◌||◌, ◌==◌, leb, ◌≡◌, Bool, true, false, Option, none, some, List, [], ◌∷◌,
  map, str_eq, if◌then◌else◌, is_some,
}
use startup_api.Base.Value.{
  Value, null, bool, num, str, obj, arr, Items, nil, cons, Fields, end, field, get, put, assign,
}
use startup_api.Base.Exec.{
  literal, Error, plain, Result, ok, err, Exec, pure, lift, raise_if, ◌>>=◌, ◌>>◌,
}
use startup_api.Repository.Database.{Adapter, FindOptions}

-- A name that the database allows: not empty, without a control character or one of `.$#[]/`; and
-- not one that starts with a digit, since an object with the names of indices may be read as a list.
abbrev is_allowed : ℕ → Bool
is_allowed n =
    leb 32 n
    && not (n == 46 || n == 36 || n == 35)
    && not (n == 91 || n == 93 || (n == 47 || n == 127))

unfoldable all_allowed : String → Bool
all_allowed empty = true
all_allowed (c then s) = is_allowed (code c) && all_allowed s

unfoldable is_name : String → Bool
unfolding all_allowed
is_name empty = false
is_name (c then s) = not (leb 48 (code c) && leb (code c) 57) && all_allowed (c then s)

-- What is read back as it was written: a null is not stored, nor is an empty object or list.
unfoldable mutual
  unfolding is_name

  storable_value : Value → Bool
  storable_value null = false
  storable_value (bool b) = true
  storable_value (num n) = true
  storable_value (str s) = true
  storable_value (obj end) = false
  storable_value (obj (field k v fs)) = storable (field k v fs)
  storable_value (arr nil) = false
  storable_value (arr (cons x xs)) = storable_items (cons x xs)

  pub storable : Fields → Bool
  storable end = true
  storable (field k v fs) = is_name k && (storable_value v && storable fs)

  storable_items : Items → Bool
  storable_items nil = true
  storable_items (cons x xs) = storable_value x && storable_items xs

-- A collection of records by their keys. `value` is what the child of a key holds, `children` all of
-- them in the order of their keys, and `equal_to` those of them whose field holds a value; a second
-- order on a query throws. What is promised of a read after a write is so for what can be stored as it is. `update` writes the given fields only, and makes the child if there is none.
pub record Reference : Type 1 where
  pub Db : Type 0
  pub new_key : Db → String
  pub value : String → Db → Option Fields
  pub children : Db → List (String × Fields)
  pub equal_to : String → Value → Db → List (String × Fields)
  pub write : String → Fields → Db → Db
  pub update : String → Fields → Db → Db
  pub erase : String → Db → Db
  pub value-write :
      (k j : String) (r : Fields) (d : Db)
      → storable r ≡ true
      → value j (write k r d) ≡ (if str_eq k j then some r else value j d)
  pub value-update :
      (k : String) (q : Fields) (d : Db)
      → storable q ≡ true
      → value k (update k q d) ≡ some (elim (value k d) [ none ↦ q | some r ↦ assign r q ])
  pub value-erase :
      (k j : String) (d : Db) → value j (erase k d) ≡ (if str_eq k j then none else value j d)

abbrev pub not_initialized : Error
not_initialized = plain (literal "Database reference not initialized")

abbrev pub combined : Error
combined = plain (literal "Query.orderByChild: You can't combine multiple orderBy calls.")

abbrev pub with_key : String × Fields → Fields
with_key (k, r) = put "id" (str k) r

-- `ready` says that `init` has set the reference and the schema. `validate` is `zodToObject` with the
-- schema, which may throw, and `now` the time of the call as a text.
module _ (R : Reference) (ready : Bool) (validate : Fields → Result Fields) (now : String) where
  open R use {Db, new_key, value, children, equal_to, write, update, erase}

  abbrev Action : Type 0 → Type 0
  Action A = Exec Db A

  unfoldable pub basic_validations : Result {0} Unit
  basic_validations = if ready then ok tt else err not_initialized

  abbrev pub new_item : String → Fields → Fields
  new_item key item =
      put "updatedAt" (str now) (put "createdAt" (str now) (put "_id" (str key) item))

  unfoldable pub create : Fields → Action Fields
  create item = do
    lift basic_validations
    db_item ← lift (validate item)
    λ d.
        let key = new_key d in
        if str_eq key ""
        then (err (plain (literal "Failed to generate key for new item")), d)
        else (ok (with_key (key, new_item key db_item)), write key (new_item key db_item) d)

  abbrev with_id : String → Option Fields → Option Fields
  with_id id none = none
  with_id id (some r) = some (with_key (id, r))

  unfoldable pub find_by_id : String → Db → Result (Option Fields)
  find_by_id id d = if ready then ok (with_id id (value id d)) else err not_initialized

  abbrev first : List (String × Fields) → Option Fields
  first [] = none
  first (e ∷ es) = some (with_key e)

  -- Only the first parameter counts.
  unfoldable pub find_by : Fields → Db → Result (Option Fields)
  find_by params d =
      if ready
      then ok (elim params [ end ↦ none | field k v rest ↦ first (equal_to k v d) ])
      else err not_initialized

  unfoldable pub find_all : Fields → Db → Result (List Fields)
  find_all params d =
      if ready
      then elim params [
        | end ↦ ok (map with_key (children d))
        | field k v end ↦ ok (map with_key (equal_to k v d))
        | field k v (field j w rest) ↦ err combined
      ]
      else err not_initialized

  abbrev stamped : Fields → Fields
  stamped item = put "updatedAt" (str now) item

  unfoldable pub update_by_id : String → Fields → Action (Option Fields)
  update_by_id id item d =
      let d' = update id (stamped item) d in
      if ready then (ok (with_id id (value id d')), d') else (err not_initialized, d)

  -- The first of the records that agree in the first parameter is updated; what it holds
  -- afterwards is spread, so that none counts as no fields.
  unfoldable pub update_by : Fields → Fields → Action (Option Fields)
  update_by params item d =
      if ready
      then elim params [
        | end ↦ (ok none, d)
        | field k v rest ↦ elim (equal_to k v d) [
          | [] ↦ (ok none, d)
          | (key, r) ∷ es ↦
              let d' = update key (stamped item) d in
              (
                ok (
                    some (elim (value key d') [
                      | none ↦ with_key (key, end)
                      | some r' ↦ with_key (key, r')
                    ])),
                d',
              )
        ]
      ]
      else (err not_initialized, d)

  unfoldable pub delete : String → Action Bool
  delete id d = if ready then (ok true, erase id d) else (err not_initialized, d)

  unfoldable pub exists : Fields → Db → Result Bool
  exists params d =
      if ready
      then elim params [
        | end ↦ ok false
        | field k v rest ↦ elim (equal_to k v d) [ [] ↦ ok false | e ∷ es ↦ ok true ]
      ]
      else err not_initialized

  -- The adapter that these methods are; the options are not read.
  abbrev pub firebase : (Value → String) → Adapter
  firebase id_text = record {
    Db = Db;
    id_text = id_text;
    create = create;
    find_by_id = λ id o. find_by_id id;
    find_by = λ p o. find_by p;
    find_all = λ p o. find_all p;
    update_by_id = update_by_id;
    update_by = update_by;
    delete = delete;
    exists = exists;
  }
