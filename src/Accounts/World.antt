-- ===== src/Accounts/World.antt =====
-- What the account code runs in: the users' repository, the analytics events and the mails it has
-- sent, and the libraries and settings that it calls.
use startup_api.Base.{
  ℕ, String, Bool, not, ◌&&◌, Option, none, some, List, ◌∷◌, if◌then◌else◌, or_else,
}
use startup_api.Base.Value.{Value, str, arr, Items, nil, Fields, field, get}
use startup_api.Base.Exec.{Message, Result, ok, Exec}
use startup_api.Repository.Database.{Adapter}

pub record Mail : Type 0 where
  pub to : Option String
  pub subject : Message
  pub template : String

-- bcrypt (`hash` of a password with a salt, `compare`), jsonwebtoken (`sign` at a time, of a
-- payload, with a secret and a life time; `verify` at a time), email-validator, JavaScript's
-- `toLowerCase` and `trim`; the outcome of sending a mail; the settings of `appEnv`; and the values
-- of the enumerations of the shared package.
pub record Runtime : Type 0 where
  pub hash : String → String → String
  pub compare : String → String → Bool
  pub sign : ℕ → Fields → String → Option String → String
  pub verify : ℕ → String → String → Option Fields
  pub valid_email : String → Bool
  pub lower : String → String
  pub trim : String → String
  pub deliver : Mail → Result Bool
  pub development : Bool
  pub unit_test : Bool
  pub jwt_secret : Option String
  pub refresh_secret : String
  pub basic_flow : String
  pub google_flow : String
  pub apple_flow : String
  pub free_account : String
  pub admin_role : String

pub record World (Db : Type 0) : Type 0 where
  pub db : Db
  pub events : List (String × Option Fields)
  pub mails : List Mail

-- The text of a field, if it holds one.
abbrev pub text_of : Option Value → Option String
text_of none = none
text_of (some (str s)) = some s
text_of (some v) = none

unfoldable pub text_at : String → Fields → Option String
unfolding get
text_at k u = text_of (get k u)

-- `user.id` where a text is wanted.
unfoldable pub id_of : Fields → String
unfolding text_at
id_of u = or_else (text_at "id" u) "undefined"

abbrev pub items_of : Option Value → Items
items_of none = nil
items_of (some (arr xs)) = xs
items_of (some v) = nil

-- A field of an object literal whose value may be undefined.
abbrev pub entry : String → Option Value → Fields → Fields
entry k none fs = fs
entry k (some v) fs = field k v fs

module _ ⦃A : Adapter⦄ where
  open A use {Db}

  abbrev pub Action : Type 0 → Type 0
  Action R = Exec (World Db) R

  abbrev pub on_db : {R : Type 0} → Exec Db R → Action R
  on_db m w = let (r, d) = m w.db in (r, record w { db = d })

module _ (X : Runtime) ⦃A : Adapter⦄ where
  -- AnalyticsHelper.track: an event is sent unless in development, and a failure is swallowed.
  unfoldable pub track : String → Option Fields → Action Unit
  track event user w =
      if X.development && not X.unit_test
      then (ok tt, w)
      else (ok tt, record w { events = (event, user) ∷ w.events })

  -- AnalyticsHelper.updateUserInfo, recorded as an event of its own.
  unfoldable pub update_user_info : Fields → Action Unit
  update_user_info user w =
      if X.development
      then (ok tt, w)
      else (ok tt, record w { events = ("UpdateUserInfo", some user) ∷ w.events })

  unfoldable pub send_mail : Mail → Action Bool
  send_mail mail w = (X.deliver mail, record w { mails = mail ∷ w.mails })
