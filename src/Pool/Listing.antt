-- ===== src/Pool/Listing.antt =====
-- src/providers/database/RedisManager/RedisClientConnectionManager.ts: what is read out of the text
-- that Redis answers to CLIENT LIST, one line for a client. The answer is an argument.
pub mod Names
use Prim.Native.String.{◌++◌, [] as empty, ◌∷◌ as ◌then◌}
use text.Mathlib.Text.{starts_with}
use startup_api.Base.{
  ℕ, ◌-◌, String, Bool, true, false, not, Option, none, some, List, [], ◌∷◌, map, length,
  find_first, keep, str_eq,
}
use startup_api.Base.Texts.{split}
use startup_api.Base.Exec.{literal, plain, Result, ok, err}
use startup_api.Server.Tracking.{track_metric}

unfoldable pub get_connected_client_list : String → List String
unfolding split
get_connected_client_list reply = split 10 reply

unfoldable pub get_connected_client_count : String → ℕ
unfolding get_connected_client_list
get_connected_client_count reply = length (get_connected_client_list reply) - 1

abbrev pub found : Option String → Result String
found none = err (plain (literal "No client found"))
found (some line) = ok line

unfoldable pub get_client_info : String → String → Result String
unfolding get_connected_client_list
get_client_info reply client_id =
    found
      (find_first (λ line. starts_with line ("id=" ++ client_id)) (get_connected_client_list reply))

-- `field.replace("name=", "")` for a field that starts with it.
unfoldable pub after : String → String → String
after empty s = s
after (c then p) empty = empty
after (c then p) (d then s) = after p s

unfoldable pub name_of : String → Option String
unfolding split after
name_of line = elim (find_first (λ field. starts_with field "name=") (split 32 line)) [
  | none ↦ none
  | some name_field ↦ some (after "name=" name_field)
]

-- `.filter(Boolean)`: neither null nor the empty text.
unfoldable pub present : List (Option String) → List String
present [] = []
present (none ∷ names) = present names
present (some name ∷ names) =
    let rest = present names in elim (str_eq name "") [ true ↦ rest | false ↦ name ∷ rest ]

unfoldable pub get_connected_client_list_names : String → List String
unfolding get_connected_client_list name_of present
get_connected_client_list_names reply = present (map name_of (get_connected_client_list reply))

-- The count that is returned is the outer variable, which stays zero; the inner one is tracked.
unfoldable pub print_total_connected_clients :
    Bool → Result String → List (String × ℕ) → ℕ × List (String × ℕ)
unfolding get_connected_client_count track_metric
print_total_connected_clients unit_test (err e) metrics = (0, metrics)
print_total_connected_clients unit_test (ok reply) metrics = (
  0,
  track_metric unit_test "Count/Server/RedisClientCount" (get_connected_client_count reply) metrics,
)
