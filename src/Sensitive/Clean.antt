-- ===== src/Sensitive/Clean.antt =====
-- What is left of a response body.
use startup_api.Base.{
  ℕ, ◌+◌, String, ◌≡◌, ap, Bool, true, false, not, ◌&&◌, Option, none, some, List, includes,
  if◌then◌else◌, arith, eq_iff, refl,
}
use startup_api.Base.Value.{
  Value, null, bool, num, str, arr, obj, Items, nil, cons, Fields, end, field, get,
}
use startup_api.Sensitive.{
  filter_sensitive_data, filter_items, filter_fields, filter_each, json_body,
}

-- No object in the value, at any depth, has a field of the list; and it holds no array.
unfoldable mutual
  pub clean : List String → Value → Bool
  clean fields null = true
  clean fields (bool b) = true
  clean fields (num n) = true
  clean fields (str s) = true
  clean fields (arr xs) = clean_items fields xs
  clean fields (obj fs) = clean_fields fields fs

  pub clean_items : List String → Items → Bool
  clean_items fields nil = true
  clean_items fields (cons v xs) = clean fields v && clean_items fields xs

  pub clean_fields : List String → Fields → Bool
  clean_fields fields end = true
  clean_fields fields (field k v fs) =
      not (includes k fields) && (clean fields v && clean_fields fields fs)

unfoldable mutual
  pub array_free : Value → Bool
  array_free null = true
  array_free (bool b) = true
  array_free (num n) = true
  array_free (str s) = true
  array_free (arr xs) = array_free_items xs && false
  array_free (obj fs) = array_free_fields fs

  pub array_free_items : Items → Bool
  array_free_items nil = true
  array_free_items (cons v xs) = array_free v && array_free_items xs

  pub array_free_fields : Fields → Bool
  array_free_fields end = true
  array_free_fields (field k v fs) = array_free v && array_free_fields fs

mutual
  unfolding filter_sensitive_data clean

  filter-clean :
      (fields : List String) (v : Value) → clean fields (filter_sensitive_data fields v) ≡ true
  filter-clean fields null = refl
  filter-clean fields (bool b) = refl
  filter-clean fields (num n) = refl
  filter-clean fields (str s) = refl
  filter-clean fields (arr xs) = filter_items-clean fields 0 xs
  filter-clean fields (obj fs) = filter_fields-clean fields fs

  filter_items-clean :
      (fields : List String) (i : ℕ) (xs : Items)
      → clean_fields fields (filter_items fields i xs) ≡ true
  filter_items-clean fields i nil = refl
  filter_items-clean fields i (cons v xs) =
      ground (arith, filter-clean fields v, filter_items-clean fields (i + 1) xs)

  filter_fields-clean :
      (fields : List String) (fs : Fields) → clean_fields fields (filter_fields fields fs) ≡ true
  filter_fields-clean fields end = refl
  filter_fields-clean fields (field k v fs) =
      ground (arith, filter-clean fields v, filter_fields-clean fields fs)

mutual
  unfolding filter_sensitive_data array_free

  filter-array_free :
      (fields : List String) (v : Value) → array_free (filter_sensitive_data fields v) ≡ true
  filter-array_free fields null = refl
  filter-array_free fields (bool b) = refl
  filter-array_free fields (num n) = refl
  filter-array_free fields (str s) = refl
  filter-array_free fields (arr xs) = filter_items-array_free fields 0 xs
  filter-array_free fields (obj fs) = filter_fields-array_free fields fs

  filter_items-array_free :
      (fields : List String) (i : ℕ) (xs : Items)
      → array_free_fields (filter_items fields i xs) ≡ true
  filter_items-array_free fields i nil = refl
  filter_items-array_free fields i (cons v xs) =
      ground (arith, filter-array_free fields v, filter_items-array_free fields (i + 1) xs)

  filter_fields-array_free :
      (fields : List String) (fs : Fields) → array_free_fields (filter_fields fields fs) ≡ true
  filter_fields-array_free fields end = refl
  filter_fields-array_free fields (field k v fs) =
      ground (arith, filter-array_free fields v, filter_fields-array_free fields fs)

filter_each-clean :
    (fields : List String) (xs : Items) → clean_items fields (filter_each fields xs) ≡ true
unfolding filter_each clean
filter_each-clean fields nil = refl
filter_each-clean fields (cons v xs) =
    ground (arith, filter-clean fields v, filter_each-clean fields xs)

abbrev pub clean? : List String → Option Value → Bool
clean? fields none = true
clean? fields (some v) = clean fields v

-- Whatever the body, no object in what is sent has a sensitive field, at any depth.
pub json_body-clean :
    (fields : List String) (body : Option Value) → clean? fields (json_body fields body) ≡ true
unfolding json_body clean
json_body-clean fields none = refl
json_body-clean fields (some (arr xs)) = filter_each-clean fields xs
json_body-clean fields (some (obj fs)) = filter-clean fields (obj fs)
json_body-clean fields (some null) = refl
json_body-clean fields (some (bool b)) = ground (arith, filter-clean fields (bool b))
json_body-clean fields (some (num n)) = ground (arith, filter-clean fields (num n))
json_body-clean fields (some (str s)) = ground (arith, filter-clean fields (str s))

-- A field of a filtered object is gone if it is sensitive, and otherwise it is the filtered field of
-- the object, also where the object has none.
get-filter_fields :
    (fields : List String) (k : String) (fs : Fields)
    → get k (filter_fields fields fs) ≡ (
        if includes k fields
        then none
        else (elim (get k fs) [ none ↦ none | some v ↦ some (filter_sensitive_data fields v) ]))
unfolding get filter_sensitive_data
get-filter_fields fields k end = ground arith
get-filter_fields fields k (field j v fs) =
    ground (arith, eq_iff j k, get-filter_fields fields k fs)

mutual
  unfolding filter_sensitive_data clean array_free

  -- A value that is clean and holds no array is left as it is.
  filter-id :
      (fields : List String) (v : Value)
      → clean fields v ≡ true
      → array_free v ≡ true
      → filter_sensitive_data fields v ≡ v
  filter-id fields null h a = refl
  filter-id fields (bool b) h a = refl
  filter-id fields (num n) h a = refl
  filter-id fields (str s) h a = refl
  filter-id fields (arr xs) h a = ground arith
  filter-id fields (obj fs) h a = ap obj (filter_fields-id fields fs h a)

  filter_fields-id :
      (fields : List String) (fs : Fields)
      → clean_fields fields fs ≡ true
      → array_free_fields fs ≡ true
      → filter_fields fields fs ≡ fs
  filter_fields-id fields end h a = refl
  filter_fields-id fields (field k v fs) h a =
      ground (arith, filter-id fields v, filter_fields-id fields fs)

-- Filtering twice is filtering once. What comes out holds no array: an array inside an object is
-- turned into an object of its indices.
filter_twice :
    (fields : List String) (v : Value)
    → let w = filter_sensitive_data fields v in
      (filter_sensitive_data fields w ≡ w) × (array_free w ≡ true)
filter_twice fields v = (
  filter-id fields (filter_sensitive_data fields v) (filter-clean fields v)
      (filter-array_free fields v),
  filter-array_free fields v,
)
