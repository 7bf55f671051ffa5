-- ===== src/Databases/Prisma/Where.antt =====
-- Which queries the translation for Prisma leaves as they are.
use startup_api.Base.{◌≡◌, ◌↔◌, Bool, true, false, not, ◌&&◌, arith}
use startup_api.Base.Value.{Value, null, bool, num, str, obj, arr, Fields, end, field, is_date}
use startup_api.Base.Texts.{includes_char}
use startup_api.Databases.Prisma.{where_value, parse_where}

abbrev mutual
  -- No null, no list, no date, and no text with one of the characters `%` and `_`.
  pub is_plain_value : Value → Bool
  is_plain_value null = false
  is_plain_value (bool b) = true
  is_plain_value (num n) = true
  is_plain_value (str s) = not (includes_char 37 s) && not (includes_char 95 s)
  is_plain_value (obj fs) = not (is_date fs) && is_plain fs
  is_plain_value (arr xs) = false

  pub is_plain : Fields → Bool
  is_plain end = true
  is_plain (field k v fs) = is_plain_value v && is_plain fs

mutual
  unfolding where_value

  value_kept : (v : Value) → (is_plain_value v ≡ true) ↔ (where_value v ≡ v)
  value_kept null = ground arith
  value_kept (bool b) = ground arith
  value_kept (num n) = ground arith
  value_kept (str s) = ground arith
  value_kept (obj end) = ground (arith, kept end)
  value_kept (obj (field k v fs)) = ground (arith, kept (field k v fs))
  value_kept (arr xs) = ground arith

  kept : (fs : Fields) → (is_plain fs ≡ true) ↔ (parse_where fs ≡ fs)
  kept end = ground arith
  kept (field k v fs) = ground (arith, value_kept v, kept fs)

-- A query is passed on as it is exactly if, at whatever depth, it has no null, no list, no date and no text
-- with a percent sign or an underscore.
pub parse_where-kept : (params : Fields) → (is_plain params ≡ true) ↔ (parse_where params ≡ params)
parse_where-kept params = kept params
