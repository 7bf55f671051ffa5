-- ===== src/Accounts/Access.antt =====
-- Who a request is from: src/providers/middlewares/AuthMiddleware.ts and IsAdminMiddleware.ts.
pub mod Hiding
use startup_api.Base.{
  ℕ, String, Bool, true, false, not, Option, none, some, List, [], ◌∷◌, str_eq, if◌then◌else◌,
  or_else, keep, includes, ◌==◌,
}
use startup_api.Base.Value.{Fields, end, get}
use startup_api.Base.Exec.{
  literal, phrase, Error, plain, application, unauthorized, Result, ok, err, Exec, pure, raise,
  catch_with, ◌>>=◌,
}
use startup_api.Repository.Database.{Adapter, FindOptions}
use startup_api.Repository
use startup_api.Accounts.World.{Runtime, World, Action, on_db, entry}
use startup_api.Accounts.Tokens.{is_text}

-- `IAuthMiddlewareOptions`
pub record AuthOptions : Type 0 where
  pub sensitive_fields : Option (List String)
  pub hide_sensitive_user_fields : Option Bool
  pub exclude_from_hiding : Option (List String)

abbrev pub default_options : AuthOptions
default_options = record {
  sensitive_fields = some ("password" ∷ "salt" ∷ "refreshTokens" ∷ []);
  hide_sensitive_user_fields = some true;
  exclude_from_hiding = some [];
}

-- What jsonwebtoken's `verify` finds of a token that may be missing.
pub data Verdict : Type 0 where
  valid : Fields → Verdict
  expired : Verdict
  invalid : Verdict

-- The headers `authorization` and `referer`.
pub record Headers : Type 0 where
  pub authorization : Option String
  pub referer : Option String

abbrev pub is_string : String → Option String → Bool
is_string s none = false
is_string s (some t) = str_eq t s

-- The options for the user's record: a list that the options do not give is undefined, and
-- the default's is not put in its place.
unfoldable pub hidden_from_user : AuthOptions → Option (List String)
hidden_from_user o =
    if or_else o.hide_sensitive_user_fields true
    then elim o.sensitive_fields [
      | none ↦ none
      | some fields ↦ some (keep (λ f. not (includes f (or_else o.exclude_from_hiding []))) fields)
    ]
    else some []

abbrev pub hiding : Option (List String) → FindOptions
hiding fields = record {
  select = none;
  populate = [];
  virtuals = false;
  defaults = false;
  cache_key = none;
  limit = none;
  hide_sensitive_fields = fields;
}

abbrev pub session_expired : Error
session_expired = unauthorized (literal "Your session has expired. Please login again.")

abbrev pub login_first : Error
login_first = unauthorized (phrase "auth" "loginAccessResource")

-- `error instanceof UnauthorizedError` is passed on.
abbrev pub as_unauthorized : Error → Error
as_unauthorized (plain m) = login_first
as_unauthorized (application status m) = if status == 401 then application status m else login_first

-- `split(" ")[1]`, the verification with `JWT_SECRET`, the root of the documentation pages and the
-- header they stand for.
module _ (second_word : String → Option String) (check : Option String → Verdict)
    (swagger_root swagger_header : String) (X : Runtime) ⦃A : Adapter⦄ where
  unfoldable pub auth_header : Headers → Option String
  auth_header h =
      if X.development
      then if is_string swagger_root h.referer then some swagger_header else h.authorization
      else h.authorization

  abbrev pub user_found : Option Fields → Action Fields
  user_found none = raise login_first
  user_found (some user) = pure user

  unfoldable pub with_verdict : AuthOptions → Verdict → Action Fields
  with_verdict o (valid payload) = do
    db_user ← on_db (
        Repository.find_by (entry "email" (get "email" payload) end)
          (some (hiding (hidden_from_user o))))
    user_found db_user
  with_verdict o expired = raise session_expired
  with_verdict o invalid = raise (plain (literal "invalid token"))

  -- What the middleware puts into `req.user`, or the error that it passes to `next`.
  unfoldable pub authenticate : AuthOptions → Headers → Action Fields
  authenticate o h = elim (auth_header h) [
    | none ↦ raise (unauthorized (phrase "auth" "notAllowedResource"))
    | some header ↦
        if str_eq header ""
        then raise (unauthorized (phrase "auth" "notAllowedResource"))
        else catch_with (with_verdict o (check (second_word header)))
            (λ e. raise (as_unauthorized e))
  ]

  unfoldable pub admin_only : Fields → Action Unit
  admin_only user =
      if is_text X.admin_role (get "role" user)
      then pure tt
      else raise (unauthorized (phrase "auth" "adminOnlyResource"))
