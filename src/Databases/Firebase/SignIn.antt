-- ===== src/Databases/Firebase/SignIn.antt =====
-- Signing in with Apple (AppleOAuthUseCase.ts) where the users are kept in Firebase.
use startup_api.Base.{ℕ, String, ◌≡◌, Bool, true, Option, none, some, List, ◌∷◌, arith}
use startup_api.Base.Value.{Value, str, Fields, field}
use startup_api.Base.Exec.{Result, ok}
use startup_api.Repository.Database.{Adapter}
use startup_api.Repository
use startup_api.Repository.{populated, rewrap}
use startup_api.Databases.Firebase.{Reference, find_by, firebase, with_key}
use startup_api.Accounts.World.{Runtime, World}
use startup_api.Accounts.OAuth.{
  AppleDto, by_email_of, validate_apple_token, apple_oauth_sync, enter,
}

module _ (R : Reference) (validate : Fields → Result Fields) (stamp : String)
    (id_text : Value → String) where
  -- The adapter, after `init`.
  abbrev pub users : Adapter
  users = firebase R true validate stamp id_text

  module _ (valid_token : String → Bool) (google_user apple_payload : String → Option Fields)
      (X : Runtime) where
    first_user :
        (key : String) (r rest : Fields) (es : List (String × Fields)) (d : R.Db)
        → R.equal_to "authFlow" (str X.apple_flow) d ≡ (key, r) ∷ es
        → Repository.find_by ⦃A = users⦄ (field "authFlow" (str X.apple_flow) rest) none d
          ≡ (ok (some (populated ⦃A = users⦄ (with_key (key, r)))), d)
    unfolding Repository.find_by rewrap find_by
    first_user key r rest es d h = ground (arith, h)

    signed_in_lem :
        (now : ℕ) (dto : AppleDto) (payload : Fields) (key : String) (r : Fields)
        (es : List (String × Fields)) (w : World R.Db)
        → validate_apple_token valid_token google_user apple_payload X ⦃A = users⦄ dto ≡ ok payload
        → R.equal_to "authFlow" (str X.apple_flow) w.db ≡ (key, r) ∷ es
        → apple_oauth_sync valid_token google_user apple_payload X ⦃A = users⦄ now dto w
          ≡ enter valid_token google_user apple_payload X ⦃A = users⦄ now "UserLoginApple"
              (populated ⦃A = users⦄ (with_key (key, r)))
              w
    unfolding apple_oauth_sync
    signed_in_lem now dto payload key r es w v h =
        ground (arith, v, first_user key r (by_email_of payload) es w.db h)

    -- Where the users are kept in Firebase and some record has the flow of Apple, everybody who signs in
    -- with Apple is given the tokens of the first such record: two requests with valid tokens of Apple, whatever users and addresses they name, have the
    -- same result, and it is that of entering as its user.
    pub everybody_is_the_first :
        (now : ℕ) (dto other : AppleDto) (payload payload' : Fields) (key : String) (r : Fields)
        (es : List (String × Fields)) (w : World R.Db)
        → validate_apple_token valid_token google_user apple_payload X ⦃A = users⦄ dto ≡ ok payload
        → validate_apple_token valid_token google_user apple_payload X ⦃A = users⦄ other
          ≡ ok payload'
        → R.equal_to "authFlow" (str X.apple_flow) w.db ≡ (key, r) ∷ es
        → let first =
            enter valid_token google_user apple_payload X ⦃A = users⦄ now "UserLoginApple"
              (populated ⦃A = users⦄ (with_key (key, r)))
              w in
          (apple_oauth_sync valid_token google_user apple_payload X ⦃A = users⦄ now dto w ≡ first)
          × (apple_oauth_sync valid_token google_user apple_payload X ⦃A = users⦄ now other w
              ≡ first)
    everybody_is_the_first now dto other payload payload' key r es w v v' h = (
      signed_in_lem now dto payload key r es w v h,
      signed_in_lem now other payload' key r es w v' h,
    )
