-- ===== src/Pool/Listing/Names.antt =====
-- Lists of clients as Redis prints them, and what is read out of them.
use Prim.Native.String.{◌++◌, [] as empty, ◌∷◌ as ◌then◌}
use Prim.Native.Char.{Char, code}
use mathlib.Core.List.{◌++◌ as append}
use text.Mathlib.Text.{starts_with}
use text.Mathlib.TextLemmas.{nil-append, cons-append}
use text.Mathlib.TextPositions.{starts_with-append}
use startup_api.Base.{
  ℕ, suc, ◌-◌, ap, ◌∙◌, String, ◌≡◌, refl, Bool, false, not, ◌||◌, Option, some, List, [], ◌∷◌, map,
  length, find_first, keep, str_eq, All, arith, if◌then◌else◌,
}
use startup_api.Base.Texts.{split, includes_char}
use startup_api.Base.Exec.{ok}
use startup_api.Pool.Listing.{
  get_connected_client_list, get_connected_client_count, get_client_info, after, name_of, present,
  get_connected_client_list_names, found, print_total_connected_clients,
}

-- A text up to the first separator is the first part.
split_lem :
    (n : ℕ) (s t : String) (c : Char)
    → includes_char n s ≡ false
    → code c ≡ n
    → split n (s ++ (c then t)) ≡ s ∷ split n t
unfolding split includes_char
split_lem n empty t c h e = rw (nil-append (c then t)) (ground (arith, e))
split_lem n (d then s) t c h e =
    rw (cons-append d s (c then t)) (ground (arith, h, split_lem n s t c))

includes_char-append :
    (n : ℕ) (s t : String) → includes_char n (s ++ t) ≡ (includes_char n s || includes_char n t)
unfolding includes_char
includes_char-append n empty t = rw (nil-append t)
includes_char-append n (d then s) t =
    rw (cons-append d s t) (ground (arith, includes_char-append n s t))

after-append : (p s : String) → after p (p ++ s) ≡ s
unfolding after
after-append empty s = nil-append s
after-append (c then p) s = rw (cons-append c p s) (after-append p s)

abbrev newline : Char
newline = "\n"

abbrev space : Char
space = " "

-- A client: its fields before the name, each one text, the name, and what is printed behind it.
pub record Client : Type 0 where
  pub before : List String
  pub name : String
  pub behind : String

unfoldable pub spaced : List String → String → String
spaced [] s = s
spaced (f ∷ fs) s = f ++ (space then spaced fs s)

-- The name field is followed by others.
unfoldable pub line : Client → String
unfolding spaced
line c = spaced c.before (("name=" ++ c.name) ++ (space then c.behind))

unfoldable pub printed : List Client → String
printed [] = empty
printed (c ∷ cs) = line c ++ (newline then printed cs)

abbrev pub IsField : String → Type 0
IsField f = (includes_char 32 f ≡ false) × (starts_with f "name=" ≡ false)

-- No field and no name has a space, no field before the name is one, and the client is on one line.
abbrev pub IsClient : Client → Type 0
IsClient c =
    All IsField c.before × (includes_char 32 c.name ≡ false) × (includes_char 10 (line c) ≡ false)

lines_lem :
    (cs : List Client)
    → All IsClient cs
    → get_connected_client_list (printed cs) ≡ append (map line cs) (empty ∷ [])
unfolding get_connected_client_list printed
lines_lem [] a = refl
lines_lem (c ∷ cs) (a, rest) =
    split_lem 10 (line c) (printed cs) newline a.2 refl ∙ ap (◌∷◌ (line c)) (lines_lem cs rest)

find_name : List String → Option String
find_name fields = find_first (λ field. starts_with field "name=") fields

find_name-spaced :
    (fs : List String) (s : String)
    → All IsField fs
    → find_name (split 32 (spaced fs s)) ≡ find_name (split 32 s)
unfolding find_name spaced
find_name-spaced [] s a = refl
find_name-spaced (f ∷ fs) s (a, rest) =
    ground (arith, a, split_lem 32 f (spaced fs s) space a.0 refl, find_name-spaced fs s rest)

first_name :
    (name behind : String)
    → find_name (("name=" ++ name) ∷ split 32 behind) ≡ some ("name=" ++ name)
unfolding find_name
first_name name behind = ground (arith, starts_with-append "name=" name)

find_name-line :
    (c : Client) → IsClient c → find_name (split 32 (line c)) ≡ some ("name=" ++ c.name)
unfolding line includes_char
find_name-line c (a, b, d) =
    find_name-spaced c.before (("name=" ++ c.name) ++ (space then c.behind)) a
    ∙ ap find_name (
        split_lem 32 ("name=" ++ c.name) c.behind space
          (includes_char-append 32 "name=" c.name ∙ ground (arith, b)) refl)
    ∙ first_name c.name c.behind

name_of-line : (c : Client) → IsClient c → name_of (line c) ≡ some c.name
unfolding name_of find_name
name_of-line c h = ground (arith, find_name-line c h, after-append "name=" c.name)

abbrev is_named : String → Bool
is_named s = not (str_eq s "")

abbrev name : Client → String
name c = c.name

-- The names of the clients that have one.
abbrev pub named : List Client → List String
named cs = keep is_named (map name cs)

present_lem :
    (cs : List Client)
    → All IsClient cs
    → present (map name_of (append (map line cs) (empty ∷ []))) ≡ named cs
unfolding present name_of
present_lem [] a = refl
present_lem (c ∷ cs) (a, rest) = ground (arith, name_of-line c a, present_lem cs rest)

lines-length : (cs : List Client) → length (append (map line cs) (empty ∷ [])) ≡ suc (length cs)
lines-length [] = refl
lines-length (c ∷ cs) = ap suc (lines-length cs)

count : (cs : List Client) → All IsClient cs → get_connected_client_count (printed cs) ≡ length cs
unfolding get_connected_client_count
count cs a = ap (λ ls. length ls - 1) (lines_lem cs a) ∙ omega (arith, lines-length cs)

-- From the list that Redis prints of its clients, their names are read, those of the clients that
-- have one, and how many there are. This number is tracked, unless in a unit test, but what is
-- returned is zero.
-- The condition: no field and no name has a space, no field before the name is one, and each client
-- is on one line.
pub clients_read :
    (unit_test : Bool) (metrics : List (String × ℕ)) (cs : List Client)
    → All IsClient cs
    → (get_connected_client_list_names (printed cs) ≡ named cs)
      × (get_connected_client_count (printed cs) ≡ length cs)
      × (print_total_connected_clients unit_test (ok (printed cs)) metrics ≡ (
        0,
        if unit_test then metrics else ("Count/Server/RedisClientCount", length cs) ∷ metrics,
      ))
unfolding get_connected_client_list_names get_connected_client_count print_total_connected_clients
clients_read unit_test metrics cs a = (
  ap (λ ls. present (map name_of ls)) (lines_lem cs a) ∙ present_lem cs a,
  count cs a,
  ap (λ n. (0, if unit_test then metrics else ("Count/Server/RedisClientCount", n) ∷ metrics))
      (count cs a),
)

abbrev pub Differs : String → Client → Type 0
Differs id c = starts_with (line c) ("id=" ++ id) ≡ false

find_line :
    (id more : String) (others : List Client) (c : Client) (cs : List Client)
    → All (Differs id) others
    → line c ≡ ("id=" ++ id) ++ more
    → find_first
        (λ l. starts_with l ("id=" ++ id))
        (append (map line (append others (c ∷ cs))) (empty ∷ []))
      ≡ some (line c)
find_line id more [] c cs d e = ground (arith, e, starts_with-append ("id=" ++ id) more)
find_line id more (o ∷ others) c cs (d, ds) e =
    ground (arith, d, find_line id more others c cs ds e)

-- Asked for a client by its number, the list answers with the first one whose number begins with that
-- one: it may go on, as 10 does after 1.
-- The condition: the clients are printed as above, and no earlier number begins so.
prefix_is_found :
    (id more : String) (others : List Client) (c : Client) (cs : List Client)
    → All IsClient (append others (c ∷ cs))
    → All (Differs id) others
    → line c ≡ ("id=" ++ id) ++ more
    → get_client_info (printed (append others (c ∷ cs))) id ≡ ok (line c)
unfolding get_client_info
prefix_is_found id more others c cs a d e =
    ap (λ ls. found (find_first (λ l. starts_with l ("id=" ++ id)) ls))
      (lines_lem (append others (c ∷ cs)) a)
    ∙ ap found (find_line id more others c cs d e)
