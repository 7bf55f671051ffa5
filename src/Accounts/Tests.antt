-- ===== src/Accounts/Tests.antt =====
-- Examples of the accounts, on the adapter in memory.
use startup_api.Base.{
  if◌then◌else◌, includes, Bool, ◌&&◌, String, ◌≡◌, refl, true, false, Option, none, some, [], ◌∷◌,
  str_eq, arith, eq_iff,
}
use startup_api.Base.Value.{str, num, arr, nil, cons, Items, Fields, end, field, get, put, remove}
use startup_api.Base.Exec.{Result, ok}
use startup_api.Repository
use startup_api.Repository.Memory.{
  Records, memory, memory-StoresUpdates, insert, find, matches, same, number, id_text,
}
use startup_api.Repository.{populated, with_id, without, find_by, rewrap}
use startup_api.Accounts.World.{Runtime, World, text_at, id_of, entry}
use startup_api.Accounts.Tokens.{
  token_item, tokens_of, has_token, is_token, generate_refresh_token, refresh_token, access_payload,
  life_time, secret, by_email, is_text,
}
use startup_api.Accounts.Tokens.{
  find_by_credentials, is_valid_password, generate_access_token, add_refresh_token, update_user,
  check_if_exists,
}
use startup_api.Accounts.World.{track, update_user_info}
use startup_api.Accounts.Rotation.{Without, refresh_token_loses_new}
use startup_api.Accounts.Login.{
  same_text, generate_password_hash, register, sign_up, login, refresh, new_access_token,
  access_claims,
}
use startup_api.Accounts.Login.Given.{TokensOf}
use startup_api.Accounts.Login.Safety.{Owns, login-Owns, refresh_signs, sign_up_keeps_confirmation}
use startup_api.Accounts.Passwords.{check_current, change_password}
use startup_api.Accounts.Passwords.Change.{change_password_stores}
use startup_api.Accounts.Access.{
  default_options, Verdict, valid, Headers, hidden_from_user, hiding, auth_header, with_verdict,
  authenticate,
}
use startup_api.Accounts.Access.Hiding.{authenticate_hides}
use startup_api.Accounts.OAuth.{
  AppleDto, apple_audience, apple_oauth_sync, validate_apple_token, enter,
}
use startup_api.Accounts.OAuth.Helpers.{Signed, verified_payload, apple_signature_checked}
use startup_api.Accounts.Update.{
  user_update_dto, Errors, Whitelists, update_own, only_listed_change,
}
use startup_api.Accounts.Push.{send_message, is_unknown, not_found_reply, unknown_token_forgotten}
use startup_api.Accounts.OAuth.Takeover.{Given}

abbrev runtime : Runtime
runtime = record {
  hash = λ p s. p;
  compare = λ p h. str_eq h p;
  sign = λ now payload key life. key;
  verify = λ now token key. some (field "id" (str "0") end);
  valid_email = λ e. true;
  lower = λ s. s;
  trim = λ s. s;
  deliver = λ m. ok true;
  development = false;
  unit_test = true;
  jwt_secret = some "key";
  refresh_secret = "refresh";
  basic_flow = "Basic";
  google_flow = "GoogleOAuth";
  apple_flow = "AppleOAuth";
  free_account = "free";
  admin_role = "Admin";
}

abbrev ada : Fields
ada = field "email" (str "ada@a") (
    field "password" (str "pw") (
      field "salt" (str "s") (
        field "authFlow" (str "Basic")
          (field "refreshTokens" (arr (cons (token_item "t") nil)) (field "_id" (num 0) end)))))

abbrev world : World Records
world = record { db = ada ∷ []; events = []; mails = [] }

abbrev payload : Fields
payload = field "id" (str "0") end

refresh_token_loses_new_example :
    let user = populated ada in
    (w' : World Records) × (r' : Fields) × (refresh_token runtime 5 "t" world ≡ (
      ok (record {
        access = runtime.sign 5 (access_payload user) "key" (some (life_time runtime));
        refresh = generate_refresh_token runtime 5 user;
      }),
      w',
    ))
    × (memory.find_by_id (id_of payload) none w'.db ≡ ok (some r'))
    × (ys : Items) × (get "refreshTokens" r' ≡ some (arr ys))
    × Without "t" (tokens_of user) ys
unfolding find matches same number id_text populated with_id text_at id_of has_token is_token get
    put remove
refresh_token_loses_new_example =
    refresh_token_loses_new runtime memory-StoresUpdates 5 "t" "key" payload ada world refl refl
      refl refl refl

login-Owns_example :
    (r : Fields) × (hash : String) × (memory.find_by (by_email "ada@a") none world.db ≡ ok (some r))
    × Owns runtime (populated r) "pw" hash
    × (runtime.valid_email "ada@a" ≡ true)
    × TokensOf runtime 5 (populated r) (record { access = "key"; refresh = "refresh" })
unfolding login find_by_credentials find_by rewrap is_valid_password generate_access_token
    add_refresh_token update_user Repository.update_by_id track update_user_info find matches same
    number id_text populated with_id text_at id_of get put remove generate_refresh_token
login-Owns_example =
    login-Owns runtime 5 "ada@a" "pw" (record { access = "key"; refresh = "refresh" }) world
      (login runtime 5 "ada@a" "pw" world).1 refl

refresh_signs_example :
    (has_token "t" (tokens_of (populated ada)) ≡ true)
    × (p : Fields) × (runtime.verify 5 "t" runtime.refresh_secret ≡ some p)
    × (key : String) × (secret runtime ≡ some key)
    × ("key" ≡ runtime.sign 5 (access_claims (populated ada) "j") key none)
    × ((refresh runtime 5 "j" (populated ada) "t" world).1.db ≡ world.db)
unfolding refresh new_access_token track populated with_id get put remove has_token is_token
refresh_signs_example =
    refresh_signs runtime 5 "j" (populated ada) "t" "key" world
      (refresh runtime 5 "j" (populated ada) "t" world).1 refl

abbrev bob : Fields
bob =
    field "email" (str "bob@b")
      (field "password" (str "pw") (field "passwordConfirmation" (str "pw") end))

abbrev new_bob : Fields
new_bob = field "email" (str "bob@b") (
    field "passwordConfirmation" (str "pw") (
      field "salt" (str "s")
        (field "createdAt" (num 5) (field "updatedAt" (num 5) (field "id" (str "1") end)))))

sign_up_keeps_confirmation_example :
    (password : String) × (text_at "password" bob ≡ some password)
    × (same_text (some password) (text_at "passwordConfirmation" bob) ≡ true)
    × (new : Fields) × (q : Fields) × (memory.create new world.db
        ≡ (ok q, (sign_up runtime 5 "s" bob world).1.db))
    × (get "password" new ≡ some (str (runtime.hash password "s")))
    × (get "passwordConfirmation" new ≡ get "passwordConfirmation" bob)
    × (new_bob ≡ remove "password" (populated q))
    × (get "password" new_bob ≡ none)
unfolding sign_up check_if_exists Repository.exists generate_password_hash register
    Repository.create Repository.check_unique Repository.stamped rewrap track update_user_info
    insert find matches same id_text populated with_id text_at get put remove
sign_up_keeps_confirmation_example =
    sign_up_keeps_confirmation runtime 5 "s" bob new_bob world (sign_up runtime 5 "s" bob world).1
      refl

change_password_stores_example :
    (r' : Fields) × (memory.find_by_id
        (id_of (populated ada))
        none
        (change_password runtime 5 "n" (populated ada) (some "pw") (some "new") world).1.db
      ≡ ok (some r'))
    × (get "refreshTokens" r' ≡ some (arr nil))
    × (get "password" r' ≡ some (str "new"))
    × (get "salt" r' ≡ some (str "n"))
unfolding check_current text_at id_of id_text number find matches same populated with_id get put
    remove
change_password_stores_example =
    change_password_stores runtime memory-StoresUpdates 5 "n" "ada@a" "new" (some "pw")
      (populated ada) ada world refl refl refl refl refl

abbrev headers : Headers
headers = record { authorization = some "Bearer t"; referer = none }

abbrev check : Option String → Verdict
check o = valid (field "email" (str "ada@a") end)

authenticate_hides_example :
    let user = without ("password" ∷ "salt" ∷ "refreshTokens" ∷ []) (populated ada) in
    (header : String) × (payload : Fields) × (auth_header some check "" "" runtime headers
      ≡ some header)
    × (check (some header) ≡ valid payload)
    × ((find_by
          (entry "email" (get "email" payload) end)
          (some (hiding (hidden_from_user default_options)))
          world.db).0
        ≡ ok (some user))
    × (get "password" user ≡ none)
unfolding authenticate auth_header with_verdict hidden_from_user find_by rewrap find matches same
    id_text populated with_id without get put remove
authenticate_hides_example =
    authenticate_hides some check "" "" runtime default_options headers
      ("password" ∷ "salt" ∷ "refreshTokens" ∷ []) "password"
      (without ("password" ∷ "salt" ∷ "refreshTokens" ∷ []) (populated ada)) world world refl refl
      refl refl refl (ground (arith, eq_iff "password" "_id"))
      (ground (arith, eq_iff "password" "id"))

abbrev apple_dto : AppleDto
apple_dto = record {
  identity_token = "t";
  user = "u1";
  email = some "eve@e";
  given_name = some "Eve";
  family_name = none;
}

abbrev apple_payload : Fields
apple_payload =
    field "sub" (str "u1") (field "aud" (str apple_audience) (field "email" (str "eve@e") end))

abbrev eve : Fields
eve = field "authFlow" (str "AppleOAuth") (field "email" (str "eve@e") (field "_id" (num 0) end))

abbrev apple_world : World Records
apple_world = record { db = eve ∷ []; events = []; mails = [] }

abbrev decode : String → Option String
decode token = some "kid"

abbrev signing_key : String → Result (Option String)
signing_key kid = ok (some "apple")

abbrev verify_apple : String → String → Result Fields
verify_apple token key = ok apple_payload

apple_signature_checked_example :
    (payload : Fields) × Signed decode signing_key verify_apple apple_dto.identity_token payload
    × (is_text "u1" (get "sub" payload) ≡ true)
    × (is_text apple_audience (get "aud" payload) ≡ true)
    × Given
        (λ t. true)
        (λ t. none)
        (verified_payload decode signing_key verify_apple)
        runtime
        5
        apple_dto
        payload
        (record { access = "key"; refresh = "refresh" })
        apple_world
unfolding apple_oauth_sync validate_apple_token enter find_by rewrap generate_access_token
    add_refresh_token update_user Repository.update_by_id track update_user_info find matches same
    number id_text populated with_id text_at id_of get put remove generate_refresh_token
    verified_payload
apple_signature_checked_example =
    apple_signature_checked decode signing_key verify_apple (λ t. true) (λ t. none) runtime 5
      apple_dto (record { access = "key"; refresh = "refresh" }) apple_world
      (apple_oauth_sync (λ t. true) (λ t. none) (verified_payload decode signing_key verify_apple)
        runtime 5 apple_dto apple_world).1
      refl

abbrev google_info : Fields
google_info = field "email" (str "joe@e") end

abbrev joe : Fields
joe = field "authFlow" (str "GoogleOAuth") (field "email" (str "joe@e") (field "_id" (num 0) end))

abbrev google_world : World Records
google_world = record { db = joe ∷ []; events = []; mails = [] }

abbrev with_phone : World Records
with_phone = record {
  db = field "pushNotificationToken" (str "device") (field "_id" (num 0) end) ∷ [];
  events = [];
  mails = [];
}

abbrev phone_user : Fields
phone_user = field "pushNotificationToken" (str "device") (field "_id" (num 0) end)

-- Firebase knows no token.
abbrev gone : String → String → String → Result String
gone token title body = ok not_found_reply

unknown_token_forgotten_example :
    (d : Records) × (q : Fields) × (send_message gone runtime 5 "device" "a" "b" with_phone ≡ (
      ok tt,
      if is_unknown gone runtime (ok not_found_reply)
          then record with_phone { db = d }
          else with_phone,
    ))
    × (memory.find_by_id (id_of (populated phone_user)) none d ≡ ok (some q))
    × (get "pushNotificationToken" q ≡ some (str ""))
unfolding find matches same number id_text populated with_id text_at id_of get put remove
unknown_token_forgotten_example =
    unknown_token_forgotten gone runtime memory-StoresUpdates 5 "device" "a" "b" phone_user
      phone_user with_phone refl refl refl

only_listed : Fields → Bool
only_listed end = true
only_listed (field k v fs) = includes k user_update_dto && only_listed fs

abbrev check_body : Fields → Result Errors
check_body body = ok (if only_listed body then [] else none ∷ [])

only_listed_lem :
    (body : Fields) (k : String)
    → only_listed body ≡ true
    → includes k user_update_dto ≡ false
    → get k body ≡ none
unfolding only_listed get
only_listed_lem end k h n = refl
only_listed_lem (field j v fs) k h n = ground (arith, h, n, eq_iff j k, only_listed_lem fs k)

check_body-Whitelists : Whitelists check_body
check_body-Whitelists body k h n = only_listed_lem body k (ground (arith, h)) n

only_listed_change_example :
    (q : Fields) × (memory.find_by_id "0" none
        (update_own check_body 5
          (field "id" (str "0") end)
          (field "name" (str "Ada") end)
          world).1.db
      ≡ ok (some q))
    × (get "password" q ≡ get "password" ada)
unfolding find matches same number id_text text_at id_of get
only_listed_change_example =
    only_listed_change check_body memory-StoresUpdates check_body-Whitelists 5
      (field "id" (str "0") end) (field "name" (str "Ada") end) ada "password" world refl
      (ground (arith, eq_iff "password" "updatedAt")) refl
