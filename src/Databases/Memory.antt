-- ===== src/Databases/Memory.antt =====
-- A collection in memory that meets the laws of a reference.
use startup_api.Base.{
  String, ◌≡◌, Option, none, some, List, [], ◌∷◌, str_eq, if◌then◌else◌, arith, eq_refl,
}
use mathlib.Core.List.{◌++◌}
use startup_api.Base.Value.{Value, Fields, get, assign}
use startup_api.Repository.Memory.{same_as}
use startup_api.Databases.Firebase.{Reference}

-- What a key holds, and the keys that were written, of which some may be erased.
pub record Collection : Type 0 where
  pub at : String → Option Fields
  pub keys : List String

abbrev there : Option Fields → String → List (String × Fields) → List (String × Fields)
there none k rest = rest
there (some r) k rest = (k, r) ∷ rest

unfoldable pub listed : List String → (String → Option Fields) → List (String × Fields)
listed [] f = []
listed (k ∷ ks) f = there (f k) k (listed ks f)

unfoldable pub having : String → Value → List (String × Fields) → List (String × Fields)
unfolding get same_as
having field v [] = []
having field v ((k, r) ∷ es) =
    let rest = having field v es in if same_as v (get field r) then (k, r) ∷ rest else rest

abbrev pub put_at : String → Option Fields → (String → Option Fields) → String → Option Fields
put_at k o f j = if str_eq k j then o else f j

abbrev pub merged : Option Fields → Fields → Fields
merged none q = q
merged (some r) q = assign r q

abbrev pub key_after : List String → String
key_after [] = "a"
key_after (k ∷ ks) = "b"

unfoldable pub write : String → Fields → Collection → Collection
write k r d = record { at = put_at k (some r) d.at; keys = d.keys ++ k ∷ [] }

pub at-write :
    (k j : String) (r : Fields) (d : Collection)
    → (write k r d).at j ≡ (if str_eq k j then some r else d.at j)
unfolding write
at-write k j r d = ground arith

pub at-update :
    (k : String) (q : Fields) (d : Collection)
    → (write k (merged (d.at k) q) d).at k ≡ some (elim (d.at k) [ none ↦ q | some r ↦ assign r q ])
at-update k q d = ground (arith, eq_refl k, at-write k k (merged (d.at k) q) d)

pub at-erase :
    (k j : String) (d : Collection) → put_at k none d.at j ≡ (if str_eq k j then none else d.at j)
at-erase k j d = ground arith

abbrev pub collection : Reference
collection = record {
  Db = Collection;
  new_key = λ d. key_after d.keys;
  value = λ k d. d.at k;
  children = λ d. listed d.keys d.at;
  equal_to = λ field v d. having field v (listed d.keys d.at);
  write = write;
  update = λ k q d. write k (merged (d.at k) q) d;
  erase = λ k d. record d { at = put_at k none d.at };
  value-write = λ k j r d s. at-write k j r d;
  value-update = λ k q d s. at-update k q d;
  value-erase = at-erase;
}
