-- ===== src/Repository/Preferences.antt =====
-- A user's preferences: src/repositories/ModuleSystem/user/UserPreferenceRepository.ts and its controller.
use startup_api.Base.{ℕ, String, ◌≡◌, ◌≢◌, refl, Bool, Option, none, some, [], ◌∷◌, arith, eq_iff}
use startup_api.Base.Value.{Value, str, Fields, end, field, get, put, get-put}
use startup_api.Base.Exec.{literal, message, bad_request, ok, err, plain, pure, raise, ◌>>=◌, ◌>>◌}
use startup_api.Repository.Database.{Adapter}
use startup_api.Repository.{
  Action, find_by, update_by, create, delete, stamped, populated, same_key,
}
use startup_api.Repository.Laws.{created_once}
use startup_api.Accounts.World.{id_of}

abbrev pub of_user : String → Fields
of_user user_id = field "userId" (str user_id) end

-- `userPreference.id`
abbrev pub own_id : Option Value → String
own_id (some (str s)) = s
own_id v = "undefined"

module _ ⦃A : Adapter⦄ where
  open A use {Db}

  unfoldable pub get_user_preferences : String → Action (Option Fields)
  get_user_preferences user_id = find_by (of_user user_id) none

  unfoldable pub update_user_preferences : String → Fields → Action (Option Fields)
  update_user_preferences user_id preferences = update_by (of_user user_id) preferences

  -- `{ ...preferences, userId }`: the identifier in the request's body does not count.
  unfoldable pub create_user_preferences : ℕ → String → Fields → Action Fields
  create_user_preferences now user_id preferences =
      create now ("userId" ∷ []) (put "userId" (str user_id) preferences)

  unfoldable pub delete_user_preferences : String → Action Bool
  delete_user_preferences user_id = do
    preference ← get_user_preferences user_id
    elim preference [
      | none ↦ raise (plain (literal "User preferences not found"))
      | some p ↦ delete (own_id (get "id" p))
    ]

  -- The controller, for the user of the request: what is answered, and with which status.
  unfoldable pub read_own : Fields → Action (ℕ × Option Fields)
  unfolding get_user_preferences
  read_own user = do preferences ← get_user_preferences (id_of user); pure (200, preferences)

  unfoldable pub create_own : ℕ → Fields → Fields → Action (ℕ × Option Fields)
  unfolding create_user_preferences
  create_own now user body = do
    preferences ← create_user_preferences now (id_of user) body
    pure (201, some preferences)

  unfoldable pub update_own : Fields → Fields → Action (ℕ × Option Fields)
  unfolding update_user_preferences
  update_own user body = do
    preferences ← update_user_preferences (id_of user) body
    pure (200, preferences)

  unfoldable pub delete_own : Fields → Action (ℕ × Option Fields)
  unfolding delete_user_preferences
  delete_own user = do delete_user_preferences (id_of user); pure (204, none)

  own_id_put :
      (user body : Fields)
      → get "userId" (put "userId" (str (id_of user)) body) ≡ some (str (id_of user))
  own_id_put user body = get-put "userId" "userId" (str (id_of user)) body

  -- A user who has no preferences creates them once, under the own identifier, whatever the body of the
  -- request says about it; after that every other body is refused with the status 400 and changes nothing.
  -- What is assumed of the adapter is that it finds what it has created.
  preferences_once :
      (finds : (k : String) (v : Value) (r q : Fields) (d d' : Db)
        → A.create r d ≡ (ok q, d')
        → k ≢ "_id"
        → get k r ≡ some v
        → (e : Fields) × (A.find_by (field k v end) none d' ≡ ok (some e)))
      (now later : ℕ) (user first second q : Fields) (d d' : Db)
      → A.find_by (of_user (id_of user)) none d ≡ ok none
      → A.create (stamped now (put "userId" (str (id_of user)) first)) d ≡ (ok q, d')
      → (create_own now user first d ≡ (ok (201, some (populated q)), d'))
        × (create_own later user second d' ≡ (err (bad_request (message (same_key "userId"))), d'))
  unfolding create_own
  preferences_once finds now later user first second q d d' free made =
      let (one, two) =
        created_once finds now later "userId" (put "userId" (str (id_of user)) first)
          (put "userId" (str (id_of user)) second) q (str (id_of user)) d d'
          (ground (arith, eq_iff "userId" "_id")) (ground (arith, eq_iff "userId" "createdAt"))
          (ground (arith, eq_iff "userId" "updatedAt")) (own_id_put user first) refl
          (own_id_put user second) free made in
      (ground (arith, one), ground (arith, two))
