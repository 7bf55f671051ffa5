-- ===== src/Repository/Memory.antt =====
-- An adapter that keeps the records in memory, to evaluate the repository on: a record is given its
-- number as `_id`, and a query finds the newest record that has all its fields.
use startup_api.Base.{
  ℕ, zero, suc, String, ◌≡◌, ◌≢◌, refl, ap, Bool, true, false, ◌&&◌, Option, none, some, List, [],
  ◌∷◌, str_eq, ◌==◌, if◌then◌else◌, length, keep, find_first, is_some, arith, eq_iff, eq_refl, not,
}
use startup_api.Base.Value.{
  Value, null, bool, num, str, arr, obj, Items, nil, cons, Fields, end, field, get, put, assign,
  get-put,
}
use startup_api.Base.Exec.{Result, ok}
use startup_api.Repository.Database.{Adapter, StoresUpdates}

abbrev same_bool : Bool → Bool → Bool
same_bool true b = b
same_bool false b = not b

unfoldable mutual
  pub same : Value → Value → Bool
  same null null = true
  same (bool a) (bool b) = same_bool a b
  same (num a) (num b) = a == b
  same (str a) (str b) = str_eq a b
  same (arr xs) (arr ys) = same_items xs ys
  same (obj xs) (obj ys) = same_fields xs ys
  same _ _ = false

  pub same_items : Items → Items → Bool
  same_items nil nil = true
  same_items (cons v xs) (cons w ys) = same v w && same_items xs ys
  same_items _ _ = false

  pub same_fields : Fields → Fields → Bool
  same_fields end end = true
  same_fields (field j v fs) (field k w gs) = str_eq j k && (same v w && same_fields fs gs)
  same_fields _ _ = false

mutual
  unfolding same

  same_refl : (v : Value) → same v v ≡ true
  same_refl null = refl
  same_refl (bool b) = ground arith
  same_refl (num n) = ground arith
  same_refl (str s) = eq_refl s
  same_refl (arr xs) = same_items_refl xs
  same_refl (obj fs) = same_fields_refl fs

  same_items_refl : (xs : Items) → same_items xs xs ≡ true
  same_items_refl nil = refl
  same_items_refl (cons v xs) = ground (arith, same_refl v, same_items_refl xs)

  same_fields_refl : (fs : Fields) → same_fields fs fs ≡ true
  same_fields_refl end = refl
  same_fields_refl (field k v fs) = ground (arith, eq_refl k, same_refl v, same_fields_refl fs)

abbrev pub Records : Type 0
Records = List Fields

unfoldable pub same_as : Value → Option Value → Bool
unfolding same
same_as v none = false
same_as v (some w) = same v w

unfoldable pub matches : Fields → Fields → Bool
unfolding same_as get
matches end r = true
matches (field k v p) r = same_as v (get k r) && matches p r

unfoldable pub insert : Fields → Records → Result Fields × Records
unfolding put
insert r d = let r' = put "_id" (num (length d)) r in (ok r', r' ∷ d)

unfoldable pub find : Fields → Records → Option Fields
unfolding matches
find p d = find_first (matches p) d

unfoldable pub update_all : Fields → Fields → Records → Records
unfolding matches assign
update_all p q [] = []
update_all p q (r ∷ d) = if matches p r then assign r q ∷ update_all p q d else r ∷ update_all p q d

-- The number that a text of one digit stands for.
unfoldable pub number : String → ℕ
number s = if str_eq s "0" then 0 else if str_eq s "1" then 1 else if str_eq s "2" then 2 else 3

abbrev by_id : String → Fields
by_id id = field "_id" (num (number id)) end

unfoldable pub id_text : Value → String
id_text (num zero) = "0"
id_text (num (suc zero)) = "1"
id_text (num (suc (suc n))) = "2"
id_text (str s) = s
id_text v = "3"

instance abbrev pub memory : Adapter
memory = record {
  Db = Records;
  id_text = id_text;
  create = insert;
  find_by_id = λ id o d. ok (find (by_id id) d);
  find_by = λ p o d. ok (find p d);
  find_all = λ p o d. ok (keep (matches p) d);
  update_by_id = λ id q d. let d' = update_all (by_id id) q d in (ok (find (by_id id) d'), d');
  update_by = λ p q d. let d' = update_all p q d in (ok (find p d'), d');
  delete = λ id d. (ok (is_some (find (by_id id) d)), keep (λ r. not (matches (by_id id) r)) d);
  exists = λ p d. ok (is_some (find p d));
}

insert-matches :
    (k : String) (v : Value) (r : Fields) (n : ℕ)
    → k ≢ "_id"
    → get k r ≡ some v
    → matches (field k v end) (put "_id" (num n) r) ≡ true
unfolding matches
insert-matches k v r n e g =
    rw (get-put "_id" k (num n) r) (ground (arith, eq_iff "_id" k, same_refl v))

-- A record that was created is found by each of its fields.
pub find-insert :
    (k : String) (v : Value) (r q : Fields) (d d' : Records)
    → insert r d ≡ (ok q, d')
    → k ≢ "_id"
    → get k r ≡ some v
    → (e : Fields) × (ok (find (field k v end) d') ≡ ok (some e))
unfolding insert find matches
find-insert k v r q d d' h n g = (q, ground (arith, insert-matches k v r (length d) n g))

get-assign_absent : (k : String) (r q : Fields) → get k q ≡ none → get k (assign r q) ≡ get k r
unfolding assign get
get-assign_absent k r end h = refl
get-assign_absent k r (field j v q) h =
    ground (arith, get-assign_absent k (put j v r) q, get-put j k v r)

by_id-assign :
    (v : Value) (r q : Fields)
    → get "_id" q ≡ none
    → matches (field "_id" v end) (assign r q) ≡ matches (field "_id" v end) r
unfolding matches
by_id-assign v r q h = rw (get-assign_absent "_id" r q h)

find-update_all :
    (v : Value) (q r : Fields) (d : Records)
    → get "_id" q ≡ none
    → find (field "_id" v end) d ≡ some r
    → find (field "_id" v end) (update_all (field "_id" v end) q d) ≡ some (assign r q)
unfolding find update_all
find-update_all v q r [] h f = ground arith
find-update_all v q r (s ∷ d) h f = ground (arith, find-update_all v q r d h, by_id-assign v s q h)

ok-injective : {a b : Option Fields} → ok a ≡ ok b → a ≡ b
ok-injective h = cc

-- An update of a record that is there is found under its `_id`.
pub memory-StoresUpdates : StoresUpdates memory
unfolding number
memory-StoresUpdates id q r d h f =
    let v = num (number id) in
    let e : find (field "_id" v end) (update_all (field "_id" v end) q d) ≡ some (assign r q) =
      find-update_all v q r d h (ok-injective f) in
    (
      assign r q,
      update_all (field "_id" v end) q d,
      ap (λ o. (ok o, update_all (field "_id" v end) q d)) e,
      ap ok e,
    )
