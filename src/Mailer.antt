-- ===== src/Mailer.antt =====
-- emails/TransactionalEmail.ts: the choice of the service that sends a mail, by what it has sent on
-- the same day, with src/repositories/ModuleSystem/LogRepository.ts.
pub mod Sending
pub mod Once
pub mod Services
mod Tests
use Prim.Native.String.{◌++◌}
use startup_api.Base.{
  ℕ, String, Bool, true, false, Option, none, some, List, [], ◌∷◌, str_eq, if◌then◌else◌, or_else,
  length, ltb,
}
use startup_api.Base.Value.{date, Value, num, str, obj, Fields, end, field, get}
use startup_api.Base.Exec.{Error, Result, ok, err, Exec, pure, raise, catch_with, lift, ◌>>=◌, ◌>>◌}
use startup_api.Repository.Database.{Adapter}
use startup_api.Repository
use startup_api.Accounts.World.{entry}
use startup_api.Accounts.Premium.{is_true}

pub record Letter : Type 0 where
  pub to : String
  pub from : String
  pub subject : String
  pub html : String
  pub text : String

-- `IEmailProvider`: `submit` is the outcome of the call of the service.
pub record Provider : Type 0 where
  pub key : String
  pub credits : ℕ
  pub submit : Letter → Result Bool

-- The users, the logs, and the letters that were given to a service, the last one first.
pub record Post (Users Logs : Type 0) : Type 0 where
  pub users : Users
  pub logs : Logs
  pub given : List Letter

abbrev pub action_of : Provider → String
action_of provider = provider.key ++ "_EMAIL_SUBMISSION"

-- The adapters of the users and of the logs; the time of the call and the start of its day; what the
-- templates give, with the text that is put into the page for an address.
module _ (U L : Adapter) (now today : ℕ) (templates : Result (String × String))
    (linked : String → String → String) where
  abbrev pub Action : Type 0 → Type 0
  Action R = Exec (Post U.Db L.Db) R

  abbrev on_users : {R : Type 0} → Exec U.Db R → Action R
  on_users m w = let (r, d) = m w.users in (r, record w { users = d })

  abbrev on_logs : {R : Type 0} → Exec L.Db R → Action R
  on_logs m w = let (r, d) = m w.logs in (r, record w { logs = d })

  -- LogRepository
  unfoldable pub create_log : String → String → String → Action Fields
  create_log action emitter target = on_logs (
      Repository.create ⦃A = L⦄ now [] (
        field "action" (str action)
          (field "emitter" (str emitter) (field "target" (str target) end))))

  unfoldable pub find_logs_by_action : String → ℕ → Action (List Fields)
  find_logs_by_action action since = on_logs (
      Repository.find_all ⦃A = L⦄
        (field "action" (str action) (field "createdAt" (obj (field "$gte" (date since) end)) end))
        none)

  unfoldable pub give : Provider → Letter → Action Bool
  give provider letter w = (provider.submit letter, record w { given = letter ∷ w.given })

  -- From the address of a user who may be written to.
  unfoldable pub submit_to : Provider → String → Letter → Action (Option Bool)
  submit_to provider from letter = if str_eq letter.to "" then pure (some false) else do
    status ← give provider letter
    if status
        then (create_log (action_of provider) from letter.to >> pure (some true))
        else pure (some false)

  abbrev pub address_filter : Option String → Fields
  address_filter to = entry "email" (elim to [ none ↦ none | some a ↦ some (str a) ]) end

  abbrev pub to_user : Provider → String → Letter → Option Fields → Action (Option Bool)
  to_user provider from letter none = pure (some false)
  to_user provider from letter (some user) =
      if is_true (get "unsubscribed" user) then pure (some true) else submit_to provider from letter

  -- One pass of the loop: nothing is returned when the service has no credits left today.
  unfoldable pub pass : Provider → Option String → String → Letter → Action (Option Bool)
  pass provider to from letter =
      catch_with
        (do
          emails_today ← find_logs_by_action (action_of provider) today
          if ltb (length emails_today) provider.credits
              then (do
                user ← on_users (Repository.find_by ⦃A = U⦄ (address_filter to) none)
                to_user provider from letter user)
              else pure none)
        (λ e. pure (some false))

  unfoldable pub send_through : List Provider → Option String → String → Letter → Action Bool
  send_through [] to from letter w = (ok false, w)
  send_through (provider ∷ rest) to from letter w =
      let (r, w') = pass provider to from letter w in
      let next = send_through rest to from letter w' in
      elim r [ err e ↦ (err e, w') | ok o ↦ elim o [ none ↦ next | some b ↦ (ok b, w') ] ]

  unfoldable pub send : Bool → List Provider → Option String → String → String → Action Bool
  send development providers to subject from = if development then pure false else do
    pages ← lift templates
    let address = or_else to ""
    send_through providers to from (record {
      to = address;
      from = from;
      subject = subject;
      html = linked pages.0 address;
      text = pages.1;
    })
