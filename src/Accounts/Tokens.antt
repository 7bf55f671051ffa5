-- ===== src/Accounts/Tokens.antt =====
-- src/providers/auth/AuthRefreshToken.ts and UserAuth.ts.
use startup_api.Base.{
  ℕ, String, Bool, false, not, ◌||◌, Option, none, some, str_eq, if◌then◌else◌, ◌==◌,
}
use startup_api.Base.Value.{Value, str, arr, obj, Items, nil, cons, Fields, end, field, get}
use startup_api.Base.Exec.{
  literal, phrase, Error, plain, application, internal_server_error, not_found, Result, ok, err,
  pure, raise, raise_if, catch_with, lift, ◌>>=◌, ◌>>◌,
}
use startup_api.Repository.Database.{Adapter}
use startup_api.Repository
use startup_api.Accounts.World.{Runtime, Action, on_db, text_at, id_of, items_of, entry}

abbrev pub token_item : String → Value
token_item token = obj (field "token" (str token) end)

-- `t.token === token`
abbrev pub is_text : String → Option Value → Bool
is_text s none = false
is_text s (some (str t)) = str_eq t s
is_text s (some v) = false

unfoldable pub is_token : String → Value → Bool
is_token token (obj fs) = is_text token (get "token" fs)
is_token token v = false

unfoldable pub add_item : Items → Value → Items
add_item nil v = cons v nil
add_item (cons x xs) v = cons x (add_item xs v)

unfoldable pub drop_token : String → Items → Items
drop_token token nil = nil
drop_token token (cons x xs) =
    let rest = drop_token token xs in if is_token token x then rest else cons x rest

unfoldable pub has_token : String → Items → Bool
has_token token nil = false
has_token token (cons x xs) = is_token token x || has_token token xs

abbrev pub tokens_of : Fields → Items
tokens_of user = items_of (get "refreshTokens" user)

abbrev pub tokens_patch : Items → Fields
tokens_patch xs = field "refreshTokens" (arr xs) end

abbrev pub user_not_found : Error
user_not_found = not_found (phrase "users" "userNotFound")

abbrev pub invalid_refresh_token : Error
invalid_refresh_token = internal_server_error (literal "Invalid refresh token")

-- `error instanceof NotFoundError` is passed on, all else is an invalid token.
abbrev pub as_invalid_token : Error → Error
as_invalid_token (plain m) = invalid_refresh_token
as_invalid_token (application status m) =
    if status == 404 then application status m else invalid_refresh_token

abbrev pub by_email : String → Fields
by_email email = field "email" (str email) end

abbrev pub access_payload : Fields → Fields
access_payload user = entry "_id" (get "id" user) (entry "email" (get "email" user) end)

-- `IGenerateAccessTokenResponse`
pub record Tokens : Type 0 where
  pub access : String
  pub refresh : String

module _ (X : Runtime) where
  abbrev pub life_time : String
  life_time = if X.development then "24h" else "20m"

  abbrev pub secret : Option String
  secret = elim X.jwt_secret [ none ↦ none | some s ↦ if str_eq s "" then none else some s ]

  unfoldable pub generate_refresh_token : ℕ → Fields → String
  generate_refresh_token now user =
      X.sign now (entry "id" (get "id" user) (entry "email" (get "email" user) end))
        X.refresh_secret none

  -- `user.password` is asked for before the hash is compared.
  unfoldable pub is_valid_password : String → Fields → Result Bool
  is_valid_password provided user = elim (text_at "password" user) [
    | none ↦ err (internal_server_error (literal "User password not found"))
    | some hash ↦
        if str_eq hash ""
        then err (internal_server_error (literal "User password not found"))
        else ok (X.compare provided hash)
  ]

module _ (X : Runtime) ⦃A : Adapter⦄ where
  open A use {Db}

  -- The update of a user's record, whose result is not used.
  unfoldable pub update_user : ℕ → String → Fields → Action Unit
  update_user now id patch = do on_db (Repository.update_by_id now id patch); pure tt

  unfoldable pub add_refresh_token : ℕ → Fields → String → Action Unit
  add_refresh_token now user token =
      update_user now (id_of user) (tokens_patch (add_item (tokens_of user) (token_item token)))

  unfoldable pub remove_refresh_token : ℕ → Fields → String → Action Unit
  remove_refresh_token now user token =
      update_user now (id_of user) (tokens_patch (drop_token token (tokens_of user)))

  unfoldable pub clear_refresh_tokens : ℕ → Fields → Action Unit
  clear_refresh_tokens now user = update_user now (id_of user) (tokens_patch nil)

  unfoldable pub invalidate_all_refresh_tokens : ℕ → String → Action Unit
  invalidate_all_refresh_tokens now id = update_user now id (tokens_patch nil)

  -- What the `try` block of `verifyRefreshToken` does once the token's payload is known.
  abbrev pub owner_with_token : String → Option Fields → Action Fields
  owner_with_token token none = raise user_not_found
  owner_with_token token (some user) = do
    raise_if (not (has_token token (tokens_of user))) invalid_refresh_token
    pure user

  unfoldable pub verify_refresh_token : ℕ → String → Action Fields
  verify_refresh_token now token =
      catch_with
        (elim (X.verify now token X.refresh_secret) [
          | none ↦ raise invalid_refresh_token
          | some payload ↦ do
            user ← on_db (Repository.find_by_id (id_of payload) none)
            owner_with_token token user
        ])
        (λ e. raise (as_invalid_token e))

  unfoldable pub generate_access_token : ℕ → Fields → Action Tokens
  generate_access_token now user = elim (secret X) [
    | none ↦ raise (internal_server_error (literal "JWT_SECRET is not set"))
    | some key ↦ do
      let access = X.sign now (access_payload user) key (some (life_time X))
      let refresh = generate_refresh_token X now user
      add_refresh_token now user refresh
      pure (record { access = access; refresh = refresh })
  ]

  -- Verify, generate new tokens, remove the old one; the user is read once.
  unfoldable pub refresh_token : ℕ → String → Action Tokens
  refresh_token now token = do
    user ← verify_refresh_token now token
    new_tokens ← generate_access_token now user
    remove_refresh_token now user token
    pure new_tokens

  unfoldable pub check_if_exists : String → Action Bool
  check_if_exists email = on_db (Repository.exists (by_email (X.lower email)))

  abbrev pub with_credentials : String → Option Fields → Action (Option Fields)
  with_credentials password none = raise user_not_found
  with_credentials password (some user) = do
    raise_if (not (is_text X.basic_flow (get "authFlow" user)))
        (internal_server_error (phrase "auth" "authModeError"))
    valid ← lift (is_valid_password X password user)
    pure (if valid then some user else none)

  unfoldable pub find_by_credentials : String → String → Action (Option Fields)
  find_by_credentials email password = do
    user ← on_db (Repository.find_by (by_email (X.lower email)) none)
    with_credentials password user

  -- bcrypt refuses a password that is not a text. `salt` is what it generates in this call.
  unfoldable pub recalculate_password_hash : ℕ → String → Fields → Action Unit
  recalculate_password_hash now salt user = elim (text_at "email" user) [
    | none ↦ raise (internal_server_error (literal "User email not found"))
    | some address ↦ do
      let email = X.lower address
      raise_if (str_eq email "") (internal_server_error (literal "User email not found"))
      elim (text_at "password" user) [
        | none ↦ raise (plain (literal "data and salt arguments required"))
        | some password ↦ update_user now (id_of user) (
            field "email" (str email)
              (field "password" (str (X.hash password salt)) (field "salt" (str salt) end)))
      ]
  ]
