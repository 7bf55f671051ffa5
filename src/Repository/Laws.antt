-- ===== src/Repository/Laws.antt =====
-- What a repository's results are in terms of its adapter's.
use startup_api.Base.{
  ℕ, String, ◌≡◌, ◌≢◌, ap, ◌∙◌, refl, Option, none, some, List, [], ◌∷◌, includes, if◌then◌else◌,
  arith, eq_iff,
}
use startup_api.Base.Value.{
  Value, null, num, str, Fields, end, field, get, put, remove, get-put, get-remove,
}
use startup_api.Base.Exec.{message, plain, application, bad_request, Result, ok, err}
use startup_api.Repository.Database.{Adapter, FindOptions}
use startup_api.Repository.{
  rewrap, with_id, populated, without, create, check_unique, present, same_key, stamped, find_by,
  find_by_id, update_by_id, update_by, delete, exists,
}

-- What the caller of a failed method is told: a bad request, with the message of what failed.
abbrev pub Is400 : {R : Type 0} → Result R → Type 0
Is400 (ok r) = Unit {0}
Is400 (err (plain m)) = ⊥
Is400 (err (application status m)) = status ≡ 400

module _ ⦃A : Adapter⦄ where
  open A use {Db, id_text}

  get-without :
      (fs : List String) (k : String) (r : Fields)
      → get k (without fs r) ≡ (if includes k fs then none else get k r)
  unfolding without
  get-without [] k r = refl
  get-without (f ∷ fs) k r = ground (arith, get-without fs k (remove f r), get-remove f k r)

  with_id-id : (o : Option Value) (r : Fields) → get "_id" r ≡ o → get "_id" (with_id o r) ≡ none
  unfolding with_id
  with_id-id none r h = h
  with_id-id (some null) r h = get-remove "_id" "_id" (remove "id" r)
  with_id-id (some v) r h = get-remove "_id" "_id" (put "id" (str (id_text v)) r)

  with_id-other :
      (o : Option Value) (k : String) (r : Fields)
      → k ≢ "_id"
      → k ≢ "id"
      → get k (with_id o r) ≡ get k r
  unfolding with_id
  with_id-other none k r e f = refl
  with_id-other (some null) k r e f = ground (
    arith,
    eq_iff "_id" k,
    eq_iff "id" k,
    get-remove "_id" k (remove "id" r),
    get-remove "id" k r,
  )
  with_id-other (some v) k r e f = ground (
    arith,
    eq_iff "_id" k,
    eq_iff "id" k,
    get-remove "_id" k (put "id" (str (id_text v)) r),
    get-put "id" k (str (id_text v)) r,
  )

  pub get-populated_id : (r : Fields) → get "_id" (populated r) ≡ none
  unfolding populated
  get-populated_id r = with_id-id (get "_id" r) r refl

  pub get-populated :
      (k : String) (r : Fields) → k ≢ "_id" → k ≢ "id" → get k (populated r) ≡ get k r
  unfolding populated
  get-populated k r e f = with_id-other (get "_id" r) k r e f

  -- A record that is found has no `_id` and no field that the options hide; every other field
  -- but `id` is the adapter's.
  pub find_by-fields :
      (params : Fields) (o : FindOptions) (fs : List String) (k : String) (d : Db) (r : Fields)
      → A.find_by params (some o) d ≡ ok (some r)
      → o.hide_sensitive_fields ≡ some fs
      → k ≢ "_id"
      → k ≢ "id"
      → (q : Fields) × (find_by params (some o) d ≡ (ok (some q), d))
        × (get "_id" q ≡ none)
        × (get k q ≡ (if includes k fs then none else get k r))
  unfolding find_by rewrap
  find_by-fields params o fs k d r h e n m = (
    without fs (populated r),
    ground arith,
    get-without fs "_id" (populated r) ∙ ground (arith, get-populated_id r),
    get-without fs k (populated r) ∙ ground (arith, get-populated k r n m),
  )

  rewrap-Is400 : {R : Type 0} (w : Result R × Db) → Is400 (rewrap w).0
  unfolding rewrap
  rewrap-Is400 (ok a, d) = tt
  rewrap-Is400 (err e, d) = refl

  -- A call of a method other than `findAll` fails only with the status 400: that of a conflict, 409,
  -- never reaches the caller.
  failures_are_400 :
      (now : ℕ) (keys : List String) (id : String) (r params : Fields) (o : Option FindOptions)
      (d : Db)
      → Is400 (create now keys r d).0
        × Is400 (find_by_id id o d).0
        × Is400 (find_by params o d).0
        × Is400 (update_by_id now id r d).0
        × Is400 (update_by params r d).0
        × Is400 (delete id d).0
        × Is400 (exists params d).0
  unfolding create find_by_id find_by update_by_id update_by delete exists
  failures_are_400 now keys id r params o d = (
    rewrap-Is400 _,
    rewrap-Is400 _,
    rewrap-Is400 _,
    rewrap-Is400 _,
    rewrap-Is400 _,
    rewrap-Is400 _,
    rewrap-Is400 _,
  )

  create-taken :
      (now : ℕ) (key : String) (keys : List String) (r e : Fields) (v : Value) (d : Db)
      → present (get key r) ≡ some v
      → A.find_by (field key v end) none d ≡ ok (some e)
      → create now (key ∷ keys) r d ≡ (err (bad_request (message (same_key key))), d)
  unfolding create rewrap check_unique
  create-taken now key keys r e v d p h = ground (arith, p, h)

  create-free :
      (now : ℕ) (key : String) (r q : Fields) (v : Value) (d d' : Db)
      → present (get key r) ≡ some v
      → A.find_by (field key v end) none d ≡ ok none
      → A.create (stamped now r) d ≡ (ok q, d')
      → create now (key ∷ []) r d ≡ (ok (populated q), d')
  unfolding create rewrap check_unique
  create-free now key r q v d d' p h c = ground (arith, p, h, c)

  pub get-stamped :
      (k : String) (now : ℕ) (r : Fields)
      → k ≢ "createdAt"
      → k ≢ "updatedAt"
      → get k (stamped now r) ≡ get k r
  unfolding stamped
  get-stamped k now r n m = ground (
    arith,
    eq_iff "updatedAt" k,
    eq_iff "createdAt" k,
    get-put "updatedAt" k (num now) (put "createdAt" (num now) r),
    get-put "createdAt" k (num now) r,
  )

  -- Two records cannot be created with the same value of a unique key. While no record has the
  -- value, the first is created as the adapter does it, with its times, and the second is refused and changes
  -- nothing. What is assumed of the adapter is that it finds what it has created.
  -- The key is not `_id`, `createdAt` or `updatedAt`.
  pub created_once :
      (finds : (k : String) (v : Value) (r q : Fields) (d d' : Db)
        → A.create r d ≡ (ok q, d')
        → k ≢ "_id"
        → get k r ≡ some v
        → (e : Fields) × (A.find_by (field k v end) none d' ≡ ok (some e)))
      (now later : ℕ) (key : String) (first second q : Fields) (v : Value) (d d' : Db)
      → key ≢ "_id"
      → key ≢ "createdAt"
      → key ≢ "updatedAt"
      → get key first ≡ some v
      → present (some v) ≡ some v
      → get key second ≡ some v
      → A.find_by (field key v end) none d ≡ ok none
      → A.create (stamped now first) d ≡ (ok q, d')
      → (create now (key ∷ []) first d ≡ (ok (populated q), d'))
        × (create later (key ∷ []) second d' ≡ (err (bad_request (message (same_key key))), d'))
  created_once finds now later key first second q v d d' n c u f p s free made =
      let (e, found) =
        finds key v (stamped now first) q d d' made n (get-stamped key now first c u ∙ f) in
      (
        create-free now key first q v d d' (ap present f ∙ p) free made,
        create-taken later key [] second e v d' (ap present s ∙ p) found,
      )
