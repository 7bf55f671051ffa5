-- ===== src/Accounts/OAuth.antt =====
-- Signing in with Google or Apple: the use cases and controllers under googleOAuthSync and appleOAuth.
pub mod Takeover
pub mod Redirect
pub mod Helpers
use Prim.Native.String.{◌++◌}
use startup_api.Base.{
  ℕ, String, Bool, true, false, not, ◌&&◌, ◌||◌, Option, none, some, List, [], ◌∷◌, str_eq,
  if◌then◌else◌, or_else,
}
use startup_api.Base.Value.{Value, str, Fields, end, field, get, truthy?}
use startup_api.Base.Exec.{
  Message, literal, phrase, phrase_with, Error, bad_request, internal_server_error, Result, ok, err,
  Exec, pure, raise, raise_if, ◌>>=◌, ◌>>◌,
}
use startup_api.Repository.Database.{Adapter}
use startup_api.Repository
use startup_api.Accounts.World.{
  Runtime, World, Action, on_db, text_at, entry, track, update_user_info,
}
use startup_api.Accounts.Tokens.{Tokens, is_text, by_email, generate_access_token}
use startup_api.Accounts.Login.{register}

-- A filter on the field `email`, whose value may be undefined.
abbrev pub by_email_of : Fields → Fields
by_email_of info = entry "email" (get "email" info) end

abbrev pub first_text : Option String → Option String → String → String
first_text a b d =
    if not (str_eq (or_else a "") "")
    then or_else a ""
    else if not (str_eq (or_else b "") "")
    then or_else b ""
    else d

-- `AppleOAuthDTO`
pub record AppleDto : Type 0 where
  pub identity_token : String
  pub user : String
  pub email : Option String
  pub given_name : Option String
  pub family_name : Option String

abbrev pub apple_audience : String
apple_audience = "com.blueship.mobile"

abbrev pub is_email : Option String → Option Value → Bool
is_email none v = false
is_email (some s) v = is_text s v

-- The fields `sub`, `aud` and `email` of what Apple's token holds.
abbrev pub apple_record : Runtime → AppleDto → Fields → Fields
apple_record X dto payload =
    field "name"
      (str (
        first_text dto.given_name dto.family_name
          ("AppleUser-" ++ or_else (text_at "sub" payload) "undefined")))
      (field "email" (str (or_else dto.email "")) (field "authFlow" (str X.apple_flow) end))

abbrev pub google_record : Runtime → Fields → Fields
google_record X info =
    entry "name" (get "name" info)
      (entry "email" (get "email" info) (field "authFlow" (str X.google_flow) end))

-- Google's check of a token, what the token says of its user, and Apple's token once verified.
module _ (valid_token : String → Bool) (google_user apple_payload : String → Option Fields)
    (X : Runtime) ⦃A : Adapter⦄ where
  -- The analytics and the tokens of a user who comes in through a provider.
  unfoldable pub enter : ℕ → String → Fields → Action Tokens
  enter now event user = do
    track X "UserLogin" (some user)
    track X event (some user)
    update_user_info X user
    generate_access_token X now user

  unfoldable pub enter_new : ℕ → String → Fields → Action Tokens
  enter_new now event data_of_user = do
    new_user ← register X now data_of_user
    enter now event new_user

  -- The use case takes any user with the address.
  unfoldable pub google_oauth_sync : ℕ → Fields → Action Tokens
  google_oauth_sync now info = do
    raise_if (not (truthy? (get "email" info)))
        (internal_server_error (phrase "auth" "oauthGoogleEmailNotProvided"))
    user ← on_db (Repository.find_by (by_email_of info) none)
    elim user [
      | none ↦ enter_new now "UserLoginGoogle" (google_record X info)
      | some u ↦ enter now "UserLoginGoogle" u
    ]

  abbrev pub has_flow : String → Option Fields → Bool
  has_flow flow none = false
  has_flow flow (some user) = is_text flow (get "authFlow" user)

  -- The controller for mobile clients
  unfoldable pub google_oauth_mobile : ℕ → String → Action Tokens
  google_oauth_mobile now id_token = do
    raise_if (str_eq id_token "") (bad_request (phrase_with "validation" "isNotEmpty" "idToken"))
    raise_if (not (valid_token id_token))
        (bad_request (phrase_with "validation" "isInvalid" "idToken"))
    elim (google_user id_token) [
      | none ↦ raise (bad_request (phrase_with "validation" "isInvalid" "googleUserInfo"))
      | some info ↦ do
        user ← on_db (Repository.find_by (by_email_of info) none)
        raise_if (has_flow X.basic_flow user)
            (bad_request (phrase "auth" "accountAuthFlowMismatch"))
        google_oauth_sync now info
    ]

  unfoldable pub validate_apple_token : AppleDto → Result Fields
  validate_apple_token dto = elim (apple_payload dto.identity_token) [
    | none ↦ err (bad_request (literal "Failed to validate Apple identity token"))
    | some payload ↦
        if is_text dto.user (get "sub" payload) && is_text apple_audience (get "aud" payload)
        then ok payload
        else err (bad_request (literal "Apple SignIn: failed to validate user"))
  ]

  unfoldable pub handle_new_apple_user : ℕ → AppleDto → Fields → Action Tokens
  handle_new_apple_user now dto payload = do
    raise_if (str_eq (or_else dto.email "") "") (
        bad_request (
          literal
            "User creation error: No e-mail was provided. Please try signing up by using the traditional Sign Up form."))
    raise_if (not (is_email dto.email (get "email" payload)))
        (bad_request (literal "Email mismatch between provided data and Apple token"))
    enter_new now "UserLoginApple" (apple_record X dto payload)

  unfoldable pub apple_oauth_sync : ℕ → AppleDto → Action Tokens
  apple_oauth_sync now dto = do
    payload ← λ w. (validate_apple_token dto, w)
    user ←
        on_db (Repository.find_by (field "authFlow" (str X.apple_flow) (by_email_of payload)) none)
    elim user [
      | none ↦ handle_new_apple_user now dto payload
      | some u ↦ enter now "UserLoginApple" u
    ]

  -- The controller
  unfoldable pub apple_oauth : ℕ → AppleDto → Action Tokens
  apple_oauth now dto = do
    basic ← on_db (
        Repository.find_by
          (entry "email" (elim dto.email [ none ↦ none | some e ↦ some (str e) ])
            (field "authFlow" (str X.basic_flow) end))
          none)
    elim basic [
      | some u ↦ raise (bad_request (phrase "auth" "accountAuthFlowMismatch"))
      | none ↦ apple_oauth_sync now dto
    ]
