-- ===== src/Formatter.antt =====
-- src/providers/text/TextFormatter.ts, and of TextHelper.ts the extension of a file. A text is the list
-- of its UTF-16 code units, by which JavaScript measures and cuts it.
pub mod Sentence
use startup_api.Base.{
  ℕ, zero, suc, ◌+◌, ◌-◌, ◌≤◌, ap, ◌∙◌, ◌≡◌, ◌≢◌, refl, Bool, true, false, ◌&&◌, ◌||◌, Option, none,
  some, List, [], ◌∷◌, ◌++◌, map, if◌then◌else◌, ltb, leb, ◌==◌, length, length-append, arith,
  Bool-cases, inl, inr,
}

abbrev pub Units : Type 0
Units = List ℕ

-- `s.substring(0, n)` for the start, and `s.slice(n)`.
abbrev pub take : ℕ → Units → Units
take zero s = []
take (suc n) [] = []
take (suc n) (c ∷ s) = c ∷ take n s

abbrev pub drop : ℕ → Units → Units
drop zero s = s
drop (suc n) [] = []
drop (suc n) (c ∷ s) = drop n s

abbrev pub dots : Units
dots = 46 ∷ 46 ∷ 46 ∷ []

-- A negative end of a substring counts as zero, as the difference here does.
unfoldable pub truncate_with_ellipsis : Units → ℕ → Units
truncate_with_ellipsis input max_length =
    if ltb max_length (length input) then take (max_length - 3) input ++ dots else input

-- `s.lastIndexOf(".")`
unfoldable pub last_dot : Units → Option ℕ
last_dot [] = none
last_dot (c ∷ s) = elim (last_dot s) [
  | some i ↦ some (suc i)
  | none ↦ if c == 46 then some zero else none
]

-- `path.slice((Math.max(0, i) || Infinity) + 1)`: a dot at the start counts as none.
unfoldable pub get_file_extension : Units → Units
unfolding last_dot
get_file_extension path = elim (last_dot path) [
  | none ↦ []
  | some zero ↦ []
  | some (suc i) ↦ drop (suc (suc i)) path
]

abbrev pub is_lower : ℕ → Bool
is_lower c = leb 97 c && leb c 122

abbrev pub is_upper : ℕ → Bool
is_upper c = leb 65 c && leb c 90

-- `input.replace(/([a-z])([A-Z])/g, "$1 $2")`: an upper case letter never starts a match.
unfoldable pub spaced : Units → Units
spaced [] = []
spaced (a ∷ []) = a ∷ []
spaced (a ∷ b ∷ s) =
    let rest = spaced (b ∷ s) in if is_lower a && is_upper b then a ∷ 32 ∷ rest else a ∷ rest

-- `lower` is `toLowerCase` of a character.
unfoldable pub convert_camel_case_to_sentence : (ℕ → ℕ) → Units → Units
unfolding spaced
convert_camel_case_to_sentence lower input = map lower (spaced input)

length-take : (n : ℕ) (s : Units) → n ≤ length s → length (take n s) ≡ n
length-take zero s h = refl
length-take (suc n) [] h = elim h [ ]
length-take (suc n) (c ∷ s) h = ap suc (length-take n s (omega (arith, h)))

-- A text that is not longer than the limit is kept, and a longer one has the length of the limit
-- afterwards and the three dots at its end; but if the limit is less than three, it is just the dots,
-- and is longer than the limit.
truncate_bounds :
    (input : Units) (max_length : ℕ)
    → (length (truncate_with_ellipsis input max_length) ≡ (
        if ltb max_length (length input)
        then (if ltb max_length 3 then 3 else max_length)
        else length input))
unfolding truncate_with_ellipsis
truncate_bounds input m =
    ground (arith, length-take (m - 3) input, length-append (take (m - 3) input) dots)

last_dot-append :
    (path extension : Units)
    → last_dot extension ≡ none
    → last_dot (path ++ 46 ∷ extension) ≡ some (length path)
unfolding last_dot
last_dot-append [] e h = ground (arith, h)
last_dot-append (c ∷ s) e h = ground (arith, last_dot-append s e h)

drop_past : (s t : Units) (c : ℕ) → drop (suc (length s)) (s ++ c ∷ t) ≡ t
drop_past [] t c = refl
drop_past (d ∷ s) t c = drop_past s t c

-- The extension of a file is what stands behind the last dot, if the name before it is not empty.
extension_lem :
    (c : ℕ) (name extension : Units)
    → last_dot extension ≡ none
    → get_file_extension ((c ∷ name) ++ 46 ∷ extension) ≡ extension
unfolding get_file_extension
extension_lem c name e h = rw (last_dot-append name e h) (drop_past name e 46)
