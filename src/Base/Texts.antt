-- ===== src/Base/Texts.antt =====
-- Some of JavaScript's methods of texts, on characters given by their numbers.
use Prim.Native.Nat.{ℕ}
use Prim.Native.String.{String, [] as empty, ◌∷◌ as ◌then◌, ◌++◌}
use Prim.Native.Char.{Char, code}
use mathlib.Core.Path.{◌≡◌}
use mathlib.Core.Bool.{Bool, true, false, ◌||◌, ◌&&◌}
use native.Mathlib.Omega.{arith}
use text.Mathlib.TextLemmas.{nil-append, cons-append}
use text.Mathlib.TextPositions.{starts_with-append}
use mathlib.Core.List.{List, [], ◌∷◌}
use text.Mathlib.Text.{◌==◌ as str_eq, starts_with}
use startup_api.Base.Tests.{◌==◌, leb, if◌then◌else◌}

-- `s.includes(c)` for a character, by its number.
unfoldable pub includes_char : ℕ → String → Bool
includes_char n empty = false
includes_char n (c then s) = code c == n || includes_char n s

-- `s.replace(/c/g, "")`
unfoldable pub without_char : ℕ → String → String
without_char n empty = empty
without_char n (c then s) = let rest = without_char n s in if code c == n then rest else c then rest

-- White space, as `trim` has it.
abbrev pub is_space : ℕ → Bool
is_space n =
    leb 9 n && leb n 13
    || (n == 32 || n == 160 || n == 5760 || leb 8192 n && leb n 8202)
    || (n == 8232 || n == 8233 || n == 8239 || n == 8287 || n == 12288 || n == 65279)

unfoldable pub trim_start : String → String
trim_start empty = empty
trim_start (c then s) = let rest = trim_start s in if is_space (code c) then rest else c then s

unfoldable pub trim_end : String → String
trim_end empty = empty
trim_end (c then s) =
    let rest = trim_end s in if str_eq rest "" && is_space (code c) then empty else c then rest

abbrev in_front : Char → List String → List String
in_front c [] = (c then empty) ∷ []
in_front c (s ∷ ss) = (c then s) ∷ ss

-- `s.split(c)` for a character, by its number.
unfoldable pub split : ℕ → String → List String
split n empty = empty ∷ []
split n (c then s) = let rest = split n s in if code c == n then empty ∷ rest else in_front c rest

-- `s.includes(t)`
unfoldable pub includes_text : String → String → Bool
includes_text t empty = starts_with empty t
includes_text t (c then s) = starts_with (c then s) t || includes_text t s

includes_text_of_start : (s t : String) → starts_with s t ≡ true → includes_text t s ≡ true
unfolding includes_text
includes_text_of_start empty t h = h
includes_text_of_start (c then s) t h = ground (arith, h)

pub includes_text-append :
    (before t behind : String) → includes_text t (before ++ (t ++ behind)) ≡ true
unfolding includes_text
includes_text-append empty t behind =
    rw (nil-append (t ++ behind))
      (includes_text_of_start (t ++ behind) t (starts_with-append t behind))
includes_text-append (c then s) t behind =
    rw (cons-append c s (t ++ behind)) (ground (arith, includes_text-append s t behind))
