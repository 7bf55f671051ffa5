-- ===== src/Accounts/Update.antt =====
-- Changing the own record: src/providers/middlewares/DTOValidatorMiddleware.ts, the controller and the
-- use case under user/update, and the fields of user/UserDTO.ts.
use startup_api.Base.{
  ℕ, String, ◌≡◌, ◌≢◌, refl, ◌∙◌, false, Option, none, some, List, [], ◌∷◌, str_eq, includes, arith,
  eq_iff, Bool-cases, inl, inr,
}
use startup_api.Base.Value.{num, Fields, end, field, get, put, assign, get-put}
use startup_api.Base.Exec.{Message, literal, Error, message, plain, Result, ok, err, pure, ◌>>=◌}
use startup_api.Repository.Database.{Adapter, StoresUpdates}
use startup_api.Repository
use startup_api.Repository.{rewrap, populated, auto_populate_missing_fields}
use startup_api.Accounts.World.{World, Action, on_db, id_of}

-- The fields of `UserUpdateDTO`.
abbrev pub user_update_dto : List String
user_update_dto = "name" ∷ "address" ∷ "phone" ∷ "pushNotificationToken" ∷ []

-- What the validation gives: for each error the texts of its constraints, if it has any.
abbrev pub Errors : Type 0
Errors = List (Option (List String))

abbrev pub no_constraints : Error
no_constraints = plain (literal "Cannot convert undefined or null to object")

-- Whether the request goes on, or is answered with the status 400 and these messages.
pub data Verdict : Type 0 where
  passes : Verdict
  refused : List Message → Verdict

abbrev texts : List String → List Message → List Message
texts [] acc = acc
texts (s ∷ ss) acc = literal s ∷ texts ss acc

-- The loop over the errors: `Object.entries` throws where an error has no constraints.
unfoldable pub error_list : Errors → Result (List Message)
error_list [] = ok []
error_list (none ∷ errors) = err no_constraints
error_list (some constraints ∷ errors) = elim (error_list errors) [
  | ok rest ↦ ok (texts constraints rest)
  | err e ↦ err e
]

abbrev refused_with : Result (List Message) → Verdict
refused_with (ok errors) = refused errors
refused_with (err e) = refused (message e ∷ [])

unfoldable pub dto_validator : Result Errors → Verdict
unfolding error_list
dto_validator (ok []) = passes
dto_validator (ok (e ∷ errors)) = refused_with (error_list (e ∷ errors))
dto_validator (err e) = refused (message e ∷ [])

pub data Answer : Type 0 where
  bad : List Message → Answer
  updated : Option Fields → Answer

get-assign : (k : String) (r q : Fields) → get k q ≡ none → get k (assign r q) ≡ get k r
unfolding get assign
get-assign k r end h = refl
get-assign k r (field j v q) h = elim (Bool-cases (str_eq j k)) [
  | inl e ↦ ground (arith, h, e)
  | inr e ↦ get-assign k (put j v r) q (ground (arith, h, e)) ∙ get-put j k v r ∙ ground (arith, e)
]

-- `validate` is the validation of a body against the DTO.
module _ (validate : Fields → Result Errors) ⦃A : Adapter⦄ where
  open A use {Db}

  unfoldable pub update : ℕ → Fields → Fields → Action (Option Fields)
  update now user update_fields = on_db (Repository.update_by_id now (id_of user) update_fields)

  -- The route: the middleware, and the controller.
  unfoldable pub update_own : ℕ → Fields → Fields → Action Answer
  unfolding dto_validator update
  update_own now own body = elim (dto_validator (validate body)) [
    | refused messages ↦ pure (bad messages)
    | passes ↦ do u ← update now own body; pure (updated u)
  ]

  -- What the settings `whitelist` and `forbidNonWhitelisted` promise.
  abbrev pub Whitelists : Type 0
  Whitelists =
      (body : Fields) (k : String)
      → validate body ≡ ok []
      → includes k user_update_dto ≡ false
      → get k body ≡ none

  verdict_lem : (r : Result Errors) → dto_validator r ≡ passes → r ≡ ok []
  unfolding dto_validator
  verdict_lem (ok []) h = refl
  verdict_lem (ok (e ∷ errors)) h = ground (arith, h)
  verdict_lem (err e) h = ground (arith, h)

  -- What the record holds afterwards under one name.
  abbrev Kept : ℕ → Fields → Fields → Fields → String → World Db → Type 0
  Kept now own body r k w =
      (q : Fields) × (A.find_by_id (id_of own) none (update_own now own body w).1.db ≡ ok (some q))
      × (get k q ≡ get k r)

  record_at :
      (updates : StoresUpdates A) (listed : Whitelists) (now : ℕ) (own body r : Fields) (k : String)
      (v : Verdict) (w : World Db)
      → dto_validator (validate body) ≡ v
      → includes k user_update_dto ≡ false
      → k ≢ "updatedAt"
      → A.find_by_id (id_of own) none w.db ≡ ok (some r)
      → Kept now own body r k w
  unfolding update_own Repository.update_by_id rewrap
  record_at updates listed now own body r k (refused ms) w e n u f = (r, ground (arith, e, f), refl)
  record_at updates listed now own body r k passes w e n u f =
      let q = put "updatedAt" (num now) body in
      let valid : validate body ≡ ok [] = verdict_lem (validate body) e in
      let no_id : get "_id" q ≡ none =
        get-put "updatedAt" "_id" (num now) body ∙ listed body "_id" valid refl in
      let no_k : get k q ≡ none =
        get-put "updatedAt" k (num now) body
        ∙ ground (arith, listed body k valid n, u, eq_iff "updatedAt" k) in
      let (r', d, made, found) = updates (id_of own) q r w.db no_id f in
      (assign r q, ground (arith, e, made, found), get-assign k r q no_k)

  -- Whatever the body of the request: a field of the user's own record that is not one of the four of
  -- the DTO is afterwards as before, apart from the time of the update.
  -- What is assumed is that the adapter stores updates and has the user's record, and that a body that
  -- the validation passes has no other fields than those of the DTO.
  pub only_listed_change :
      (updates : StoresUpdates A) (listed : Whitelists) (now : ℕ) (own body r : Fields) (k : String)
      (w : World Db)
      → includes k user_update_dto ≡ false
      → k ≢ "updatedAt"
      → A.find_by_id (id_of own) none w.db ≡ ok (some r)
      → (q : Fields) × (A.find_by_id (id_of own) none (update_own now own body w).1.db
          ≡ ok (some q))
        × (get k q ≡ get k r)
  only_listed_change updates listed now own body r k w n u f =
      record_at updates listed now own body r k (dto_validator (validate body)) w refl n u f
