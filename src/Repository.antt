-- ===== src/Repository.antt =====
-- src/providers/database/repository/BaseRepository.ts: what every repository does around its
-- database adapter. Records are objects; the adapter of the database that is in use is a parameter.
pub mod Database
pub mod Laws
pub mod Memory
pub mod Preferences
pub mod AbTests
mod Tests
use Prim.Native.String.{◌++◌}
use startup_api.Base.{
  ℕ, String, Bool, true, false, Option, none, some, List, [], ◌∷◌, map, str_eq, if◌then◌else◌,
  is_some,
}
use startup_api.Base.Value.{Value, null, num, str, Fields, end, field, get, put, remove, assign}
use startup_api.Base.Exec.{
  Message, literal, Error, message, bad_request, conflict, Result, ok, err, Exec, pure, raise, lift,
  gets, catch_with, raise_if, ◌>>=◌, ◌>>◌,
}
use startup_api.Repository.Database.{Adapter, FindOptions}

module _ ⦃A : Adapter⦄ where
  open A use {Db, id_text}

  abbrev pub Action : Type 0 → Type 0
  Action R = Exec Db R

  -- `catch (error) { throw new BadRequestError(error.message) }`
  unfoldable pub rewrap : {R : Type 0} → Result R × Db → Result R × Db
  rewrap (ok a, d) = (ok a, d)
  rewrap (err e, d) = (err (bad_request (message e)), d)

  abbrev pub rewrapped : {R : Type 0} → Action R → Action R
  rewrapped m d = rewrap (m d)

  -- A record that has an `_id` is given it as its `id`, as a text, in its place.
  unfoldable pub with_id : Option Value → Fields → Fields
  unfolding put remove
  with_id none r = r
  with_id (some null) r = remove "_id" (remove "id" r)
  with_id (some v) r = remove "_id" (put "id" (str (id_text v)) r)

  unfoldable pub populated : Fields → Fields
  populated r = with_id (get "_id" r) r

  abbrev pub auto_populate_missing_fields : Option Fields → Option Fields
  auto_populate_missing_fields none = none
  auto_populate_missing_fields (some r) = some (populated r)

  unfoldable pub without : List String → Fields → Fields
  unfolding remove
  without [] r = r
  without (f ∷ fs) r = without fs (remove f r)

  abbrev pub hide_sensitive_fields : Option (List String) → Option Fields → Option Fields
  hide_sensitive_fields none item = item
  hide_sensitive_fields (some fields) none = none
  hide_sensitive_fields (some fields) (some r) = some (without fields r)

  abbrev pub same_key : String → Error
  same_key key = conflict (literal ("A record with the same " ++ key ++ " already exists."))

  -- `value != null`
  abbrev pub present : Option Value → Option Value
  present none = none
  present (some null) = none
  present (some v) = some v

  -- The loop over `uniqueByKeys`.
  unfoldable pub check_unique : List String → Fields → Action Unit
  unfolding get
  check_unique [] r = pure tt
  check_unique (key ∷ keys) r = elim (present (get key r)) [
    | none ↦ check_unique keys r
    | some value ↦ do
      existing ← λ d. (A.find_by (field key value end) none d, d)
      elim existing [ some e ↦ raise (same_key key) | none ↦ check_unique keys r ]
  ]

  -- `{ ...data, createdAt: timestamp, updatedAt: timestamp }`
  unfoldable pub stamped : ℕ → Fields → Fields
  unfolding put
  stamped now r = put "updatedAt" (num now) (put "createdAt" (num now) r)

  -- `now` is the time of the call.
  unfoldable pub create : ℕ → List String → Fields → Action Fields
  create now unique_by_keys r =
      rewrapped (do
        check_unique unique_by_keys r
        result ← A.create (stamped now r)
        pure (populated result))

  abbrev pub hidden_fields : Option FindOptions → Option (List String)
  hidden_fields none = none
  hidden_fields (some o) = o.hide_sensitive_fields

  unfoldable pub find_by_id : String → Option FindOptions → Action (Option Fields)
  find_by_id id options = rewrapped (do
    result ← λ d. (A.find_by_id id options d, d)
    pure (hide_sensitive_fields (hidden_fields options) (auto_populate_missing_fields result)))

  unfoldable pub find_by : Fields → Option FindOptions → Action (Option Fields)
  find_by params options = rewrapped (do
    result ← λ d. (A.find_by params options d, d)
    pure (hide_sensitive_fields (hidden_fields options) (auto_populate_missing_fields result)))

  abbrev hidden : Option (List String) → Fields → Fields
  hidden none r = r
  hidden (some fields) r = without fields r

  -- The one method that passes errors on as they are.
  unfoldable pub find_all : Fields → Option FindOptions → Action (List Fields)
  find_all query options = do
    results ← λ d. (A.find_all query options d, d)
    pure (map (hidden (hidden_fields options)) (map populated results))

  unfoldable pub update_by_id : ℕ → String → Fields → Action (Option Fields)
  update_by_id now id r = rewrapped (do
    result ← A.update_by_id id (put "updatedAt" (num now) r)
    pure (auto_populate_missing_fields result))

  -- No time is set here.
  unfoldable pub update_by : Fields → Fields → Action (Option Fields)
  update_by params r =
      rewrapped (do result ← A.update_by params r; pure (auto_populate_missing_fields result))

  unfoldable pub delete : String → Action Bool
  delete id = rewrapped (A.delete id)

  unfoldable pub exists : Fields → Action Bool
  exists params = rewrapped (λ d. (A.exists params d, d))
