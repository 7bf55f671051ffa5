-- ===== src/Accounts/Premium.antt =====
-- Premium accounts, with src/useCases/ModuleSystem/premiumAccount, and unsubscribing from mails.
pub mod Activation
use startup_api.Base.{
  ℕ, String, Bool, true, false, not, Option, none, some, List, [], ◌∷◌, str_eq, if◌then◌else◌,
  or_else,
}
use startup_api.Base.Value.{Value, bool, str, obj, Fields, end, field, get, assign}
use startup_api.Base.Exec.{
  Message, literal, phrase, phrase_with, Error, plain, not_found, bad_request, Result, ok, err,
  Exec, pure, raise, raise_if, catch_with, ◌>>=◌, ◌>>◌,
}
use startup_api.Repository.Database.{Adapter, FindOptions}
use startup_api.Repository
use startup_api.Accounts.World.{Runtime, World, Action, on_db, id_of, track, update_user_info}
use startup_api.Accounts.Tokens.{is_text, by_email, update_user}
use startup_api.Accounts.Login.{Response}

abbrev pub only : String → FindOptions
only name = record {
  select = some name;
  populate = [];
  virtuals = false;
  defaults = false;
  cache_key = none;
  limit = none;
  hide_sensitive_fields = none;
}

abbrev pub refused : String → Response
refused why = record { status = 400; body = some (obj (field "error" (str why) end)) }

abbrev pub done : String → Response
done what = record { status = 200; body = some (obj (field "message" (str what) end)) }

abbrev pub is_true : Option Value → Bool
is_true none = false
is_true (some (bool b)) = b
is_true (some v) = false

-- A boolean result that an error turns into false.
abbrev pub or_false : {S : Type 0} → Exec S Bool → Exec S Bool
or_false m = catch_with m (λ e. pure false)

abbrev pub premium_patch : String → Fields → Fields
premium_patch account_type more = assign (field "accountType" (str account_type) end) more

module _ (X : Runtime) ⦃A : Adapter⦄ where
  abbrev pub not_free : Option Fields → Bool
  not_free none = false
  not_free (some user) = not (is_text X.free_account (get "accountType" user))

  unfoldable pub is_premium_account_active : String → Action Bool
  is_premium_account_active email = do
    user ← on_db (Repository.find_by (by_email email) (some (only "accountType")))
    pure (not_free user)

  unfoldable pub activate_user_premium_account : ℕ → Fields → String → Fields → Action Bool
  activate_user_premium_account now user account_type more =
      or_false (do update_user X now (id_of user) (premium_patch account_type more); pure true)

  abbrev pub free_patch : Fields
  free_patch =
      field "accountType" (str X.free_account)
        (field "isManuallyControlledPremiumAccount" (bool false) end)

  abbrev pub deactivated : ℕ → Option Fields → Action Bool
  deactivated now none = raise (plain (literal "User not found"))
  deactivated now (some user) = do update_user X now (id_of user) free_patch; pure true

  unfoldable pub deactivate_user_premium_account : ℕ → Option Fields → Action Bool
  deactivate_user_premium_account now user = or_false (deactivated now user)

  -- PremiumAccountController
  unfoldable pub activate_request : ℕ → String → String → Action Response
  activate_request now email account_type = do
    user ← on_db (Repository.find_by (by_email email) none)
    elim user [
      | none ↦ pure (refused "User not found!")
      | some u ↦ do
        result ←
            activate_user_premium_account now u account_type
              (field "isManuallyControlledPremiumAccount" (bool true) end)
        pure (
            if result
            then done "Premium account activated successfully!"
            else refused "Error activating premium account!")
    ]

  unfoldable pub deactivate_request : ℕ → String → Action Response
  deactivate_request now email = if str_eq email "" then pure (refused "Email is required") else do
    user ← on_db (Repository.find_by (by_email email) none)
    elim user [
      | none ↦ pure (refused "User not found!")
      | some u ↦ do
        result ← deactivate_user_premium_account now (some u)
        pure (
            if result
            then done "Premium account deactivated successfully!"
            else refused "Error deactivating premium account!")
    ]

  -- UnsubscribeUserUseCase
  unfoldable pub unsubscribe_user : String → Action Unit
  unsubscribe_user email = do
    user ← on_db (Repository.find_by (by_email email) none)
    elim user [
      | none ↦ raise (not_found (phrase_with "validation" "notFound" "User"))
      | some u ↦ do
        raise_if (is_true (get "unsubscribed" u))
            (bad_request (phrase "users" "userAlreadyUnsubscribed"))
        on_db (Repository.update_by (by_email email) (field "unsubscribed" (bool true) end))
        pure tt
    ]

  -- The controller: what is sent is the page, or the status 500 when the link has no address.
  unfoldable pub unsubscribe_request : (String → String) → Value → String → Action Response
  unsubscribe_request decrypt page hash_email =
      if str_eq hash_email "" then pure (record { status = 500; body = none }) else do
        unsubscribe_user (decrypt hash_email)
        pure (record { status = 200; body = some page })

  -- OwnInfoUserUseCase
  unfoldable pub get_user_info : Option Fields → Action Fields
  get_user_info none = raise (bad_request (phrase "users" "userNotFound"))
  get_user_info (some user) = do update_user_info X user; track X "UserInfo" (some user); pure user
