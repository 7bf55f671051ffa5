-- ===== src/Accounts/Passwords.antt =====
-- Changing and recovering a password: ChangePasswordUseCase and ForgotPasswordUseCase, with their
-- controllers. The random values of a call are arguments.
pub mod Change
use startup_api.Base.{
  ℕ, String, ◌≡◌, Bool, true, false, not, ◌&&◌, ◌||◌, Option, none, some, List, [], ◌∷◌, str_eq,
  if◌then◌else◌, or_else, is_some,
}
use startup_api.Base.Value.{Value, str, Items, nil, Fields, end, field, get, put, remove, truthy?}
use startup_api.Base.Exec.{
  Message, literal, phrase, phrase_with, Error, plain, bad_request, not_found, Result, ok, err,
  Exec, pure, raise, raise_if, lift, gets, ◌>>=◌, ◌>>◌,
}
use startup_api.Repository.Database.{Adapter}
use startup_api.Repository
use startup_api.Accounts.World.{
  Runtime, World, Mail, Action, on_db, text_at, id_of, track, send_mail,
}
use startup_api.Accounts.Tokens.{
  by_email, is_text, invalidate_all_refresh_tokens, recalculate_password_hash, user_not_found,
}
use startup_api.Accounts.Login.{Response, same_text}

-- The account that the app stores test with.
abbrev pub test_account : String
test_account = "playstore-testing@gmail.com"

abbrev pub password_changed : Fields → Mail
password_changed user = record {
  to = text_at "email" user;
  subject = phrase "email" "passwordChangeTitle";
  template = "notification";
}

abbrev pub password_recovery : Fields → Mail
password_recovery user = record {
  to = text_at "email" user;
  subject = phrase "email" "passwordRecoveryGreetings";
  template = "notification";
}

-- `user.password = newPassword`
abbrev pub with_password : Option String → Fields → Fields
with_password none user = remove "password" user
with_password (some p) user = put "password" (str p) user

module _ (X : Runtime) ⦃A : Adapter⦄ where
  open A use {Db}

  -- The hash of the current password with the user's salt has to be the password that is stored.
  unfoldable pub check_current : Fields → Option String → Option String → Result (Unit {0})
  check_current user current new =
      if same_text current new
      then err (bad_request (phrase "auth" "changePasswordSamePasswords"))
      else if str_eq (or_else current "") ""
      then err (bad_request (literal "Current password is required"))
      else if str_eq (or_else (text_at "salt" user) "") ""
      then err (bad_request (literal "User salt is required"))
      else if is_text (X.hash (or_else current "") (or_else (text_at "salt" user) ""))
          (get "password" user)
      then ok tt
      else err (bad_request (phrase "auth" "changePasswordIncorrectCurrentPassword"))

  unfoldable pub change_password : ℕ → String → Fields → Option String → Option String → Action Unit
  change_password now salt user current new = do
    raise_if (is_text test_account (get "email" user))
        (bad_request (literal "You are not allowed to change the password for this user"))
    track X "ChangePassword" (some user)
    lift (check_current user current new)
    invalidate_all_refresh_tokens X now (id_of user)
    recalculate_password_hash X now salt (with_password new user)
    send_mail X (password_changed user)
    pure tt

  unfoldable pub change_password_request :
      ℕ → String → Fields → Option String → Option String → Action Response
  change_password_request now salt user current new = do
    change_password now salt user current new
    pure (record { status = 200; body = none })

  -- `random_password` is the new password, of ten characters. It is stored as it is first.
  unfoldable pub reset_password : ℕ → String → String → Fields → Action Bool
  reset_password now salt random_password user = do
    track X "ForgotPassword" (some user)
    raise_if (not (is_text X.basic_flow (get "authFlow" user)))
        (plain (phrase "auth" "authModeError"))
    updated ←
        on_db
          (Repository.update_by_id now (id_of user) (field "password" (str random_password) end))
    elim updated [
      | none ↦ raise (plain (phrase "users" "userNotFound"))
      | some updated_user ↦ do
        recalculate_password_hash X now salt updated_user
        send_mail X (password_recovery user)
        pure true
    ]

  unfoldable pub forgot_password : ℕ → String → String → String → Action Bool
  forgot_password now salt random_password email = do
    raise_if (str_eq email test_account)
        (bad_request (literal "You are not allowed to reset the password for this user"))
    user ← on_db (Repository.find_by (by_email email) none)
    elim user [ none ↦ raise user_not_found | some u ↦ reset_password now salt random_password u ]

  unfoldable pub forgot_password_request : ℕ → String → String → String → Action Response
  forgot_password_request now salt random_password email = do
    forgot_password now salt random_password email
    pure (record { status = 200; body = none })
