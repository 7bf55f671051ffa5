-- ===== src/Sensitive.antt =====
-- src/providers/middlewares/SensitiveDataMiddleware.ts: the middleware replaces `res.json` by one
-- that deletes the sensitive fields of a response body first. The list of the fields is fixed when
-- the middleware is made.
pub mod Clean
mod Tests
use Prim.Native.String.{◌++◌}
use startup_api.Base.{
  ℕ, zero, suc, ◌+◌, ◌/◌, ◌%◌, String, Bool, true, false, not, Option, none, some, List, [], ◌∷◌,
  str_eq, includes, keep, if◌then◌else◌, ltb, or_else,
}
use startup_api.Base.Value.{
  Value, null, bool, num, str, arr, obj, Items, nil, cons, Fields, end, field, truthy, truthy?,
}

abbrev pub default_sensitive_fields : List String
default_sensitive_fields =
    "password" ∷ "refreshToken" ∷ "accessToken" ∷ "salt" ∷ "refreshTokens" ∷ []

-- `{ ...defaultOptions, ...options }`, and the sensitive fields less those that are excluded.
pub record Options : Type 0 where
  pub sensitive_fields : Option (List String)
  pub exclude_from_hiding : Option (List String)

unfoldable pub effective_sensitive_fields : Options → List String
effective_sensitive_fields o =
    let excluded = or_else o.exclude_from_hiding [] in
    keep (λ f. not (includes f excluded)) (or_else o.sensitive_fields default_sensitive_fields)

-- The key of an array's element in an object that the array is spread into: its index in decimal.
digit : ℕ → String
digit zero = "0"
digit (suc zero) = "1"
digit (suc (suc zero)) = "2"
digit (suc (suc (suc zero))) = "3"
digit (suc (suc (suc (suc zero)))) = "4"
digit (suc (suc (suc (suc (suc zero))))) = "5"
digit (suc (suc (suc (suc (suc (suc zero)))))) = "6"
digit (suc (suc (suc (suc (suc (suc (suc zero))))))) = "7"
digit (suc (suc (suc (suc (suc (suc (suc (suc zero)))))))) = "8"
digit n = "9"

decimal : ℕ → ℕ → String
decimal zero n = ""
decimal (suc fuel) n =
    let front = decimal fuel (n / 10) in if ltb n 10 then digit n else front ++ digit (n % 10)

unfoldable pub index_key : ℕ → String
unfolding decimal digit
index_key n = decimal (suc n) n

-- `filterSensitiveData`. An object is copied by a spread, so an array is spread into an object of
-- its indices. The fields are deleted and what is left is descended into, in one pass.
unfoldable mutual
  pub filter_sensitive_data : List String → Value → Value
  filter_sensitive_data fields null = null
  filter_sensitive_data fields (bool b) = bool b
  filter_sensitive_data fields (num n) = num n
  filter_sensitive_data fields (str s) = str s
  filter_sensitive_data fields (arr xs) = obj (filter_items fields 0 xs)
  filter_sensitive_data fields (obj fs) = obj (filter_fields fields fs)

  pub filter_items : List String → ℕ → Items → Fields
  filter_items fields i nil = end
  filter_items fields i (cons v xs) =
      let w = filter_sensitive_data fields v in
      let rest = filter_items fields (i + 1) xs in
      if includes (index_key i) fields then rest else field (index_key i) w rest

  pub filter_fields : List String → Fields → Fields
  filter_fields fields end = end
  filter_fields fields (field k v fs) =
      let w = filter_sensitive_data fields v in
      let rest = filter_fields fields fs in if includes k fields then rest else field k w rest

unfoldable pub filter_each : List String → Items → Items
filter_each fields nil = nil
filter_each fields (cons v xs) = cons (filter_sensitive_data fields v) (filter_each fields xs)

-- The `res.json` of the middleware: what the original one is called with.
unfoldable pub json_body : List String → Option Value → Option Value
unfolding filter_each
json_body fields none = none
json_body fields (some (arr xs)) = some (arr (filter_each fields xs))
json_body fields (some v) = if truthy v then some (filter_sensitive_data fields v) else some v
