-- ===== src/Accounts/Login.antt =====
-- Signing up, logging in and out, and the access token for a refresh token: the use cases and
-- controllers under signup, login, logout and refreshToken, with UserRepository.signUp and
-- src/providers/user/UserPassword.ts.
pub mod Given
pub mod Safety
use startup_api.Base.{
  ℕ, String, ◌≡◌, Bool, true, false, not, ◌&&◌, ◌||◌, Option, none, some, List, [], ◌∷◌, str_eq,
  if◌then◌else◌, or_else, is_some,
}
use startup_api.Base.Value.{Value, str, Items, nil, Fields, end, field, get, put, remove, truthy?}
use startup_api.Base.Exec.{
  Message, literal, phrase, phrase_with, Error, plain, bad_request, conflict, unauthorized,
  forbidden, internal_server_error, Result, ok, err, Exec, pure, raise, raise_if, lift, ◌>>=◌, ◌>>◌,
}
use startup_api.Repository.Database.{Adapter}
use startup_api.Repository
use startup_api.Accounts.World.{
  Runtime, World, Action, on_db, text_at, id_of, entry, track, update_user_info,
}
use startup_api.Accounts.Tokens.{
  Tokens, has_token, tokens_of, clear_refresh_tokens, generate_access_token, find_by_credentials,
  check_if_exists, refresh_token, secret,
}

-- An answer of a controller: the status and the body.
pub record Response : Type 0 where
  pub status : ℕ
  pub body : Option Value

abbrev pub same_text : Option String → Option String → Bool
same_text none none = true
same_text none (some t) = false
same_text (some s) none = false
same_text (some s) (some t) = str_eq s t

-- The payload of a refreshed access token.
abbrev pub access_claims : Fields → String → Fields
access_claims user jti =
    entry "_id" (get "id" user) (entry "email" (get "email" user) (field "jti" (str jti) end))

module _ (X : Runtime) where
  -- UserPassword.generatePasswordHash, with the salt that bcrypt generates.
  unfoldable pub generate_password_hash : String → Fields → Result Fields
  generate_password_hash salt dto = elim (text_at "password" dto) [
    | none ↦ err (plain (literal "data and salt arguments required"))
    | some password ↦ ok (put "salt" (str salt) (put "password" (str (X.hash password salt)) dto))
  ]

module _ (X : Runtime) ⦃A : Adapter⦄ where
  open A use {Db}

  -- UserRepository.signUp
  unfoldable pub register : ℕ → Fields → Action Fields
  register now data_of_user = do
    new_user ← on_db (Repository.create now ("email" ∷ []) data_of_user)
    track X "UserRegister" (some new_user)
    update_user_info X new_user
    pure new_user

  unfoldable pub sign_up : ℕ → String → Fields → Action Fields
  sign_up now salt dto = do
    let email = or_else (text_at "email" dto) ""
    raise_if (not (same_text (text_at "password" dto) (text_at "passwordConfirmation" dto)))
        (bad_request (phrase "auth" "passwordDoesNotMatchConfirmation"))
    exists ← check_if_exists X email
    raise_if exists (conflict (phrase_with "users" "userAlreadyExists" email))
    raise_if (not (X.valid_email email)) (bad_request (literal "Sorry, your e-mail is invalid"))
    user_with_hashed_password ←
        lift (generate_password_hash X salt (put "email" (str (X.lower email)) dto))
    new_user ← register now user_with_hashed_password
    pure (remove "password" new_user)

  -- SignUpController
  unfoldable pub sign_up_request : ℕ → String → Fields → Action Fields
  sign_up_request now salt dto = do
    new_user ← sign_up now salt dto
    update_user_info X new_user
    pure new_user

  -- LoginUseCase.login
  unfoldable pub login : ℕ → String → String → Action Tokens
  login now address password = do
    let email = X.lower (X.trim address)
    user ← find_by_credentials X email password
    elim user [
      | none ↦ raise (unauthorized (phrase "auth" "invalidCredentials"))
      | some u ↦ do
        raise_if (not (X.valid_email email)) (bad_request (literal "Sorry, your e-mail is invalid"))
        tokens ← generate_access_token X now u
        update_user_info X u
        track X "UserLogin" (some u)
        pure tokens
    ]

  unfoldable pub login_refresh_token : ℕ → String → Action Tokens
  login_refresh_token now token = refresh_token X now token

  -- LogoutUseCase and its controller
  unfoldable pub logout : ℕ → Option Fields → Action Unit
  logout now none = raise (bad_request (phrase "auth" "userNotFound"))
  logout now (some user) = do clear_refresh_tokens X now user; track X "UserLogout" (some user)

  unfoldable pub logout_request : ℕ → Option Fields → Action Response
  logout_request now user = do logout now user; pure (record { status = 200; body = none })

  -- RefreshUseCase: `jti` is the random identifier of the new token, which is given no life time.
  unfoldable pub new_access_token : ℕ → String → Fields → String → Result String
  new_access_token now jti user token = elim (X.verify now token X.refresh_secret) [
    | none ↦ err (forbidden (phrase "auth" "refreshTokenInvalid"))
    | some payload ↦ elim (secret X) [
      | none ↦ err (forbidden (phrase "auth" "refreshTokenInvalid"))
      | some key ↦ ok (X.sign now (access_claims user jti) key none)
    ]
  ]

  unfoldable pub refresh : ℕ → String → Fields → String → Action String
  refresh now jti user token = do
    track X "UserTokenRefresh" (some user)
    raise_if (str_eq token "") (unauthorized (phrase "auth" "notAllowedResource"))
    raise_if (not (truthy? (get "refreshTokens" user)))
        (bad_request (phrase "auth" "dontHaveRefreshTokens"))
    raise_if (not (has_token token (tokens_of user)))
        (bad_request (phrase "auth" "refreshTokenInvalid"))
    lift (new_access_token now jti user token)

  -- RefreshController
  unfoldable pub refresh_request : ℕ → String → Fields → String → Action Response
  refresh_request now jti user token = do
    access ← refresh now jti user token
    raise_if (str_eq access "") (internal_server_error (phrase "auth" "oauthAccessTokenError"))
    pure (record { status = 200; body = some (Value.obj (field "accessToken" (str access) end)) })
