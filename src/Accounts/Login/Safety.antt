-- ===== src/Accounts/Login/Safety.antt =====
-- Who is let in, and what the record of a new user holds.
use mathlib.Core.Path.{subst}
use startup_api.Base.{
  ℕ, String, ◌≡◌, refl, ap, sym, ◌∙◌, Bool, true, Option, none, some, or_else, arith, eq_iff,
}
use startup_api.Base.Value.{Value, str, Fields, get, put, remove, get-put, get-remove}
use startup_api.Base.Exec.{Result, ok, err}
use startup_api.Repository.Database.{Adapter}
use startup_api.Repository
use startup_api.Repository.{populated, stamped, rewrap, present}
use startup_api.Repository.Laws.{get-stamped}
use startup_api.Accounts.World.{Runtime, World, text_of, text_at, track, update_user_info}
use startup_api.Accounts.Tokens.{
  Tokens, by_email, is_text, has_token, tokens_of, find_by_credentials, with_credentials,
  is_valid_password, check_if_exists, secret, generate_access_token,
}
use startup_api.Accounts.Login.Given.{TokensOf, generated_for}
use startup_api.Accounts.Login.{
  same_text, generate_password_hash, register, sign_up, login, access_claims, new_access_token,
  refresh,
}

module _ (X : Runtime) ⦃A : Adapter⦄ where
  open A use {Db}

  -- What the credentials are checked against.
  abbrev pub Owns : Fields → String → String → Type 0
  Owns user password hash =
      (text_at "password" user ≡ some hash)
      × (X.compare password hash ≡ true)
      × (is_text X.basic_flow (get "authFlow" user) ≡ true)

  valid_hash :
      (password : String) (user : Fields) (o : Option String)
      → text_at "password" user ≡ o
      → is_valid_password X password user ≡ ok true
      → (hash : String) × (text_at "password" user ≡ some hash) × (X.compare password hash ≡ true)
  unfolding is_valid_password
  valid_hash password user none e h = ground (arith, e)
  valid_hash password user (some hash) e h = (hash, e, ground (arith, e))

  owns_of :
      (password : String) (u user : Fields) (w w' : World Db)
      → with_credentials X password (some u) w ≡ (ok (some user), w')
      → (user ≡ u)
        × (is_valid_password X password u ≡ ok true)
        × (is_text X.basic_flow (get "authFlow" u) ≡ true)
        × (w' ≡ w)
  owns_of password u user w w' h = ground arith

  find_by_credentials_lem :
      (email password : String) (r : Fields) (w : World Db)
      → A.find_by (by_email (X.lower email)) none w.db ≡ ok (some r)
      → find_by_credentials X email password w ≡ with_credentials X password (some (populated r)) w
  unfolding find_by_credentials Repository.find_by rewrap
  find_by_credentials_lem email password r w f = ground (arith, f)

  credentials_of :
      (email password : String) (o : Result (Option Fields)) (user : Fields) (w w' : World Db)
      → A.find_by (by_email (X.lower email)) none w.db ≡ o
      → find_by_credentials X email password w ≡ (ok (some user), w')
      → (r : Fields) × (hash : String) × (o ≡ ok (some r))
        × (user ≡ populated r)
        × Owns user password hash
  unfolding find_by_credentials Repository.find_by rewrap
  credentials_of email password (ok none) user w w' f h = ground (arith, f)
  credentials_of email password (err e) user w w' f h = ground (arith, f)
  credentials_of email password (ok (some r)) user w w' f h =
      let (same, valid, flow, _) =
        owns_of password (populated r) user w w'
          (sym (find_by_credentials_lem email password r w f) ∙ h) in
      let (hash, stored, right) =
        valid_hash password (populated r) (text_at "password" (populated r)) refl valid in
      (
        r,
        hash,
        refl,
        same,
        (
          ap (text_at "password") same ∙ stored,
          right,
          ap (λ v. is_text X.basic_flow (get "authFlow" v)) same ∙ flow,
        ),
      )

  login_cases :
      (now : ℕ) (address password : String) (o : Result (Option Fields) × World Db)
      (tokens : Tokens) (w w' : World Db)
      → find_by_credentials X (X.lower (X.trim address)) password w ≡ o
      → login X now address password w ≡ (ok tokens, w')
      → (user : Fields) × (o.0 ≡ ok (some user))
        × (X.valid_email (X.lower (X.trim address)) ≡ true)
        × ((generate_access_token X now user o.1).0 ≡ ok tokens)
  unfolding login
  login_cases now address password (err e, v) tokens w w' f h = ground (arith, f)
  login_cases now address password (ok none, v) tokens w w' f h = ground (arith, f)
  login_cases now address password (ok (some user), v) tokens w w' f h =
      (user, refl, ground (arith, f), ground (arith, f))

  -- Tokens are only given for the record that is found under the address in lower case and without
  -- surrounding spaces, and only if that record is of the flow with a password, the hash
  -- in it accepts the password, and the address is a valid one; the two tokens are of the identifier and the
  -- address in that record, signed with the two secrets, and the access token has a life time.
  pub login-Owns :
      (now : ℕ) (address password : String) (tokens : Tokens) (w w' : World Db)
      → login X now address password w ≡ (ok tokens, w')
      → (r : Fields) × (hash : String) × (A.find_by
            (by_email (X.lower (X.lower (X.trim address))))
            none
            w.db
          ≡ ok (some r))
        × Owns (populated r) password hash
        × (X.valid_email (X.lower (X.trim address)) ≡ true)
        × TokensOf X now (populated r) tokens
  login-Owns now address password tokens w w' h =
      let email = X.lower (X.trim address) in
      let (user, found, valid, given) =
        login_cases now address password (find_by_credentials X email password w) tokens w w' refl
          h in
      let (r, hash, stored, same, owns) =
        credentials_of email password _ user w _ refl
          (ap (λ x. (x, (find_by_credentials X email password w).1)) found) in
      (
        r,
        hash,
        stored,
        subst (λ u. Owns u password hash) same owns,
        valid,
        subst (λ u. TokensOf X now u tokens) same
            (generated_for X now user tokens (secret X) _ refl given),
      )

  new_access_token_cases :
      (now : ℕ) (jti : String) (user : Fields) (token access : String) (payload : Option Fields)
      (key : Option String)
      → X.verify now token X.refresh_secret ≡ payload
      → secret X ≡ key
      → new_access_token X now jti user token ≡ ok access
      → (p : Fields) × (payload ≡ some p)
        × (k : String) × (key ≡ some k)
        × (access ≡ X.sign now (access_claims user jti) k none)
  unfolding new_access_token
  new_access_token_cases now jti user token access none key v s h = ground (arith, v)
  new_access_token_cases now jti user token access (some p) none v s h = ground (arith, v, s)
  new_access_token_cases now jti user token access (some p) (some k) v s h =
      (p, refl, k, refl, ground (arith, v, s))

  refresh_passes :
      (now : ℕ) (jti : String) (user : Fields) (token access : String) (w w' : World Db)
      → refresh X now jti user token w ≡ (ok access, w')
      → (has_token token (tokens_of user) ≡ true)
        × (new_access_token X now jti user token ≡ ok access)
        × (w'.db ≡ w.db)
  unfolding refresh track
  refresh_passes now jti user token access w w' h = (ground arith, ground arith, ground arith)

  -- A new access token is only given to a user whose record holds the refresh token and for a token whose
  -- signature is valid; it is signed without a life time, and the database is not changed.
  pub refresh_signs :
      (now : ℕ) (jti : String) (user : Fields) (token access : String) (w w' : World Db)
      → refresh X now jti user token w ≡ (ok access, w')
      → (has_token token (tokens_of user) ≡ true)
        × (payload : Fields) × (X.verify now token X.refresh_secret ≡ some payload)
        × (key : String) × (secret X ≡ some key)
        × (access ≡ X.sign now (access_claims user jti) key none)
        × (w'.db ≡ w.db)
  refresh_signs now jti user token access w w' h =
      let (listed, signed, same) = refresh_passes now jti user token access w w' h in
      let (p, v, k, s, made) =
        new_access_token_cases now jti user token access _ _ refl refl signed in
      (listed, p, v, k, s, made, same)

  -- The record that signing up hands to the repository.
  abbrev pub signed_up : String → String → Fields → Fields
  signed_up salt password dto = put "salt" (str salt) (
      put "password" (str (X.hash password salt))
        (put "email" (str (X.lower (or_else (text_at "email" dto) ""))) dto))

  rewrap-keeps : {R : Type 0} (o : Result R) (d : Db) → (rewrap (o, d)).1 ≡ d
  unfolding rewrap
  rewrap-keeps (ok a) d = refl
  rewrap-keeps (err e) d = refl

  check_if_exists_lem :
      (email : String) (w : World Db)
      → check_if_exists X email w ≡ ((check_if_exists X email w).0, w)
  unfolding check_if_exists Repository.exists
  check_if_exists_lem email w =
      ap (λ d. ((check_if_exists X email w).0, record w { db = d }))
        (rewrap-keeps (A.exists (by_email (X.lower email)) w.db) w.db)

  -- The password is the same once the address has been put into lower case.
  password_kept :
      (v : Value) (dto : Fields) → text_at "password" (put "email" v dto) ≡ text_at "password" dto
  unfolding text_at
  password_kept v dto = ap text_of (get-put "email" "password" v dto)

  sign_up_cases :
      (now : ℕ) (salt password : String) (dto : Fields) (e : Result Bool)
      (r : Result Fields × World Db) (user : Fields) (w w' : World Db)
      → text_at "password" dto ≡ some password
      → check_if_exists X (or_else (text_at "email" dto) "") w ≡ (e, w)
      → register X now (signed_up salt password dto) w ≡ r
      → sign_up X now salt dto w ≡ (ok user, w')
      → (same_text (some password) (text_at "passwordConfirmation" dto) ≡ true)
        × (u : Fields) × (r ≡ (ok u, w'))
        × (user ≡ remove "password" u)
  unfolding sign_up generate_password_hash
  sign_up_cases now salt password dto e (err x, v) user w w' p c r h =
      ground (arith, p, c, r, password_kept (str (X.lower (or_else (text_at "email" dto) ""))) dto)
  sign_up_cases now salt password dto e (ok u, v) user w w' p c r h =
      let k = password_kept (str (X.lower (or_else (text_at "email" dto) ""))) dto in
      (ground (arith, p, c, r, k), u, ground (arith, p, c, r, k), ground (arith, p, c, r, k))

  sign_up_password :
      (now : ℕ) (salt : String) (dto : Fields) (p : Option String) (e : Result Bool) (user : Fields)
      (w w' : World Db)
      → text_at "password" dto ≡ p
      → check_if_exists X (or_else (text_at "email" dto) "") w ≡ (e, w)
      → sign_up X now salt dto w ≡ (ok user, w')
      → (password : String) × (text_at "password" dto ≡ some password)
  unfolding sign_up generate_password_hash
  sign_up_password now salt dto none e user w w' p c h =
      ground (arith, p, c, password_kept (str (X.lower (or_else (text_at "email" dto) ""))) dto)
  sign_up_password now salt dto (some password) e user w w' p c h = (password, p)

  get-signed_up_password :
      (salt password : String) (dto : Fields)
      → (get "password" (signed_up salt password dto) ≡ some (str (X.hash password salt)))
        × (get "passwordConfirmation" (signed_up salt password dto)
            ≡ get "passwordConfirmation" dto)
  get-signed_up_password salt password dto =
      let lower = put "email" (str (X.lower (or_else (text_at "email" dto) ""))) dto in
      let hashed = put "password" (str (X.hash password salt)) lower in
      (
        get-put "salt" "password" (str salt) hashed
            ∙ get-put "password" "password" (str (X.hash password salt)) lower,
        get-put "salt" "passwordConfirmation" (str salt) hashed
            ∙ get-put "password" "passwordConfirmation" (str (X.hash password salt)) lower
            ∙ get-put "email" "passwordConfirmation"
                (str (X.lower (or_else (text_at "email" dto) ""))) dto,
      )

  get-signed_up_email :
      (salt password : String) (dto : Fields)
      → get "email" (signed_up salt password dto)
        ≡ some (str (X.lower (or_else (text_at "email" dto) "")))
  get-signed_up_email salt password dto =
      let lower = str (X.lower (or_else (text_at "email" dto) "")) in
      let hashed = put "password" (str (X.hash password salt)) (put "email" lower dto) in
      get-put "salt" "email" (str salt) hashed
      ∙ get-put "password" "email" (str (X.hash password salt)) (put "email" lower dto)
      ∙ get-put "email" "email" lower dto

  register_creates :
      (now : ℕ) (email : String) (new u : Fields) (f : Result (Option Fields)) (c : Result Fields)
      (d : Db) (w w' : World Db)
      → get "email" new ≡ some (str email)
      → A.find_by (by_email email) none w.db ≡ f
      → A.create (stamped now new) w.db ≡ (c, d)
      → register X now new w ≡ (ok u, w')
      → (q : Fields) × (c ≡ ok q) × (d ≡ w'.db) × (u ≡ populated q)
  unfolding register Repository.create Repository.check_unique rewrap track update_user_info
  register_creates now email new u (ok none) (ok q) d w w' e f c h =
      (q, refl, ground (arith, e, f, c, h), ground (arith, e, f, c, h))
  register_creates now email new u (ok none) (err x) d w w' e f c h = ground (arith, e, f, c, h)
  register_creates now email new u (ok (some r)) c d w w' e f g h = ground (arith, e, f, g, h)
  register_creates now email new u (err x) c d w w' e f g h = ground (arith, e, f, g, h)

  -- A sign-up that succeeds was asked for with a password and the same confirmation. The record that
  -- the adapter of the database is given to create holds the hash of the password in place of the password,
  -- but it keeps the confirmation as it was sent, in plain text; what the adapter makes of it is
  -- returned, without its password.
  pub sign_up_keeps_confirmation :
      (now : ℕ) (salt : String) (dto user : Fields) (w w' : World Db)
      → sign_up X now salt dto w ≡ (ok user, w')
      → (password : String) × (text_at "password" dto ≡ some password)
        × (same_text (some password) (text_at "passwordConfirmation" dto) ≡ true)
        × (new : Fields) × (q : Fields) × (A.create new w.db ≡ (ok q, w'.db))
        × (get "password" new ≡ some (str (X.hash password salt)))
        × (get "passwordConfirmation" new ≡ get "passwordConfirmation" dto)
        × (user ≡ remove "password" (populated q))
        × (get "password" user ≡ none)
  sign_up_keeps_confirmation now salt dto user w w' h =
      let c = check_if_exists_lem (or_else (text_at "email" dto) "") w in
      let (password, p) = sign_up_password now salt dto _ _ user w w' refl c h in
      let (same, u, made, returned) =
        sign_up_cases now salt password dto _ _ user w w' p c refl h in
      let (hashed, kept) = get-signed_up_password salt password dto in
      let new = signed_up salt password dto in
      let (q, created, stored, whole) =
        register_creates now _ new u _ _ _ w w' (get-signed_up_email salt password dto) refl refl
          made in
      (
        password,
        p,
        same,
        stamped now new,
        q,
        (λ i. (created i, stored i)),
        get-stamped "password" now new (ground (arith, eq_iff "password" "createdAt"))
              (ground (arith, eq_iff "password" "updatedAt"))
            ∙ hashed,
        get-stamped "passwordConfirmation" now new
              (ground (arith, eq_iff "passwordConfirmation" "createdAt"))
              (ground (arith, eq_iff "passwordConfirmation" "updatedAt"))
            ∙ kept,
        returned ∙ ap (remove "password") whole,
        ap (get "password") returned ∙ get-remove "password" "password" u,
      )
