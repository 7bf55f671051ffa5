-- ===== src/Databases/Tests.antt =====
-- The adapters on collections in memory.
use startup_api.Base.{String, ◌≡◌, ◌↔◌, refl, true, false, Option, none, some, [], arith, eq_iff}
use startup_api.Base.Value.{str, Fields, end, field, put}
use startup_api.Base.Exec.{Result, ok}
use startup_api.Databases.Memory.{Collection, collection, write, listed, having}
use startup_api.Databases.Firebase.{storable, with_key, new_item, create, find_by_id, delete}
use startup_api.Databases.Firebase.Laws.{find_by_id-create}
use startup_api.Repository.{populated}
use startup_api.Repository.Memory.{same}
use startup_api.Accounts.World.{Runtime, World}
use startup_api.Accounts.OAuth.{
  AppleDto, apple_audience, validate_apple_token, apple_oauth_sync, enter,
}
use startup_api.Databases.Firebase.SignIn.{users, everybody_is_the_first}
use startup_api.Databases.Prisma.{parse_where}
use startup_api.Databases.Prisma.Where.{is_plain, parse_where-kept}

abbrev nothing : Collection
nothing = record { at = λ k. none; keys = [] }

abbrev accepts : Fields → Result Fields
accepts r = ok r

abbrev ada : Fields
ada = field "name" (str "ada") end

find_by_id-create_example :
    let (r, d') = create collection true accepts "now" ada nothing in
    let made = with_key ("a", new_item collection true accepts "now" "a" ada) in
    (r ≡ ok made)
    × (find_by_id collection true accepts "now" "a" d' ≡ ok (some made))
    × (find_by_id collection true accepts "now" "a" (delete collection true accepts "now" "a" d').1
        ≡ ok none)
unfolding put storable
find_by_id-create_example =
    find_by_id-create collection accepts "now" ada ada nothing refl (ground (arith, eq_iff "a" ""))
      refl

parse_where-kept_example : (is_plain ada ≡ true) ↔ (parse_where ada ≡ ada)
parse_where-kept_example = parse_where-kept ada

-- Libraries that answer by constants.
abbrev runtime : Runtime
runtime = record {
  hash = λ p s. p;
  compare = λ p h. true;
  sign = λ n p s l. "token";
  verify = λ n t s. none;
  valid_email = λ e. true;
  lower = λ e. e;
  trim = λ e. e;
  deliver = λ m. ok true;
  development = false;
  unit_test = true;
  jwt_secret = some "secret";
  refresh_secret = "secret";
  basic_flow = "Basic";
  google_flow = "GoogleOAuth";
  apple_flow = "AppleOAuth";
  free_account = "free";
  admin_role = "admin";
}

-- Apple's token of a user is the user's name.
abbrev apple_payload : String → Option Fields
apple_payload token =
    some
      (field "sub" (str token) (field "aud" (str apple_audience) (field "email" (str token) end)))

abbrev request_of : String → AppleDto
request_of name = record {
  identity_token = name;
  user = name;
  email = some name;
  given_name = none;
  family_name = none;
}

abbrev eve : Fields
eve = field "authFlow" (str "AppleOAuth") (field "email" (str "eve@e") end)

abbrev apple_world : World Collection
apple_world = record { db = write "a" eve nothing; events = []; mails = [] }

everybody_is_the_first_example :
    let first =
      enter
        (λ t. true)
        (λ t. none)
        apple_payload
        runtime
        ⦃A = users collection accepts "now" (λ v. "")⦄
        5
        "UserLoginApple"
        (populated ⦃A = users collection accepts "now" (λ v. "")⦄ (with_key ("a", eve)))
        apple_world in
    (apple_oauth_sync
        (λ t. true)
        (λ t. none)
        apple_payload
        runtime
        ⦃A = users collection accepts "now" (λ v. "")⦄
        5
        (request_of "eve@e")
        apple_world
      ≡ first)
    × (apple_oauth_sync
          (λ t. true)
          (λ t. none)
          apple_payload
          runtime
          ⦃A = users collection accepts "now" (λ v. "")⦄
          5
          (request_of "ada@a")
          apple_world
        ≡ first)
unfolding validate_apple_token having listed write same
everybody_is_the_first_example =
    everybody_is_the_first collection accepts "now" (λ v. "") (λ t. true) (λ t. none) apple_payload
      runtime 5 (request_of "eve@e") (request_of "ada@a")
      (field "sub" (str "eve@e")
        (field "aud" (str apple_audience) (field "email" (str "eve@e") end)))
      (field "sub" (str "ada@a")
        (field "aud" (str apple_audience) (field "email" (str "ada@a") end)))
      "a" eve [] apple_world refl refl refl
