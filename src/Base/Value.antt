-- ===== src/Base/Value.antt =====
-- JavaScript values as far as JSON has them, and objects as their own entries in insertion order.
-- `undefined` is `none` of `Option Value`. The numbers that the program stores are counts and times,
-- so they are naturals.
use Prim.Native.Nat.{ℕ, zero, suc}
use Prim.Native.String.{String}
use mathlib.Core.Path.{◌≡◌, refl}
use mathlib.Core.Bool.{Bool, true, false, not}
use mathlib.Core.Option.{Option, none, some}
use native.Mathlib.Omega.{arith}
use text.Mathlib.Text.{◌==◌ as str_eq}
use text.Mathlib.TextEquality.{eq_iff}
use startup_api.Base.Tests.{if◌then◌else◌}

mutual
  pub data Value : Type 0 where
    null : Value
    bool : Bool → Value
    num : ℕ → Value
    str : String → Value
    obj : Fields → Value
    arr : Items → Value

  pub data Fields : Type 0 where
    end : Fields
    field : String → Value → Fields → Fields

  pub data Items : Type 0 where
    nil : Items
    cons : Value → Items → Items

-- `Boolean(v)`
abbrev pub truthy : Value → Bool
truthy null = false
truthy (bool b) = b
truthy (num zero) = false
truthy (num (suc n)) = true
truthy (str s) = not (str_eq s "")
truthy (arr xs) = true
truthy (obj fs) = true

abbrev pub truthy? : Option Value → Bool
truthy? none = false
truthy? (some v) = truthy v

-- `o[k]`
-- A Date in a query, which is an object without entries of its own for whoever lists them.
abbrev pub date : ℕ → Value
date n = obj (field "$date" (num n) end)

abbrev pub is_date : Fields → Bool
is_date (field k (num n) end) = str_eq k "$date"
is_date fs = false

unfoldable pub get : String → Fields → Option Value
get k end = none
get k (field j v fs) = if str_eq j k then some v else get k fs

-- `o[k] = v`
unfoldable pub put : String → Value → Fields → Fields
put k v end = field k v end
put k v (field j w fs) = if str_eq j k then field j v fs else field j w (put k v fs)

-- `delete o[k]`
unfoldable pub remove : String → Fields → Fields
remove k end = end
remove k (field j v fs) = let rest = remove k fs in if str_eq j k then rest else field j v rest

-- `{ ...o, ...p }`
unfoldable pub assign : Fields → Fields → Fields
assign o end = o
assign o (field k v p) = assign (put k v o) p

pub get-put :
    (k j : String) (v : Value) (fs : Fields)
    → get j (put k v fs) ≡ (if str_eq k j then some v else get j fs)
unfolding get put
get-put k j v end = refl
get-put k j v (field i w fs) = ground (arith, eq_iff k j, eq_iff i k, eq_iff i j, get-put k j v fs)

pub get-remove :
    (k j : String) (fs : Fields) → get j (remove k fs) ≡ (if str_eq k j then none else get j fs)
unfolding get remove
get-remove k j end = ground arith
get-remove k j (field i w fs) =
    ground (arith, eq_iff k j, eq_iff i k, eq_iff i j, get-remove k j fs)

pub ruleset field_laws = (get-put, get-remove)
