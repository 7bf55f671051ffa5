-- ===== src/Accounts/OAuth/Helpers.antt =====
-- src/providers/auth/AppleOAuthHelper.ts and GoogleOauthHelper.ts: what the sign-in asks of Apple and
-- Google. Their answers, and those of the libraries for tokens, are arguments.
use startup_api.Base.{
  ℕ, String, ◌≡◌, refl, Bool, true, Option, none, some, if◌then◌else◌, ◌==◌, arith,
}
use startup_api.Base.Value.{Fields, get}
use startup_api.Base.Exec.{
  literal, Error, message, plain, bad_request, internal_server_error, Result, ok, err,
}
use startup_api.Repository.Database.{Adapter}
use startup_api.Accounts.World.{Runtime, World}
use startup_api.Accounts.Tokens.{Tokens, is_text}
use startup_api.Accounts.OAuth.{AppleDto, apple_audience, apple_oauth_sync}
use startup_api.Accounts.OAuth.Takeover.{Given, apple_tokens_checked}

abbrev oops : Error
oops = bad_request (literal "Oops! Something went wrong.")

infixl 5 ◌>>=◌
abbrev ◌>>=◌ : {R S : Type 0} → Result R → (R → Result S) → Result S
ok r >>= f = f r
err e >>= f = err e

-- `decode` gives the `kid` in the header of a token, if it is one; `signing_key` what Apple answers for
-- a `kid`; `verify` checks a token against a key.
module _ (decode : String → Option String) (signing_key : String → Result (Option String))
    (verify : String → String → Result Fields) where
  unfoldable pub get_apple_signing_key : String → Result (Option String)
  get_apple_signing_key kid = signing_key kid

  unfoldable pub verify_jwt : String → String → Result Fields
  verify_jwt identity_token public_key = verify identity_token public_key

  -- The payload is a promise where it is tested, so the test never fails.
  unfoldable pub verify_identity_token : String → Result (Option Fields)
  unfolding get_apple_signing_key verify_jwt
  verify_identity_token identity_token = elim (decode identity_token) [
    | none ↦ ok none
    | some key_id ↦ do
      apple_public_key ← get_apple_signing_key key_id
      elim apple_public_key [
        | none ↦ err oops
        | some key ↦ do payload ← verify_jwt identity_token key; ok (some payload)
      ]
  ]

  -- What is thrown ends the sign-in, as no payload does.
  abbrev payload_in : Result (Option Fields) → Option Fields
  payload_in (ok o) = o
  payload_in (err e) = none

  unfoldable pub verified_payload : String → Option Fields
  unfolding verify_identity_token
  verified_payload identity_token = payload_in (verify_identity_token identity_token)

  abbrev pub Signed : String → Fields → Type 0
  Signed token payload =
      (kid : String) × (key : String) × (decode token ≡ some kid)
      × (signing_key kid ≡ ok (some key))
      × (verify token key ≡ ok payload)

  payload_by :
      (token kid key : String) (r : Result Fields) (payload : Fields)
      → decode token ≡ some kid
      → signing_key kid ≡ ok (some key)
      → verify token key ≡ r
      → verified_payload token ≡ some payload
      → Signed token payload
  unfolding verified_payload
  payload_by token kid key (ok p) payload d s v h = (kid, key, d, s, ground (arith, d, s, v, h))
  payload_by token kid key (err e) payload d s v h = ground (arith, d, s, v, h)

  payload_at :
      (token kid : String) (r : Result (Option String)) (payload : Fields)
      → decode token ≡ some kid
      → signing_key kid ≡ r
      → verified_payload token ≡ some payload
      → Signed token payload
  unfolding verified_payload
  payload_at token kid (ok (some key)) payload d s h = payload_by token kid key _ payload d s refl h
  payload_at token kid (ok none) payload d s h = ground (arith, d, s, h)
  payload_at token kid (err e) payload d s h = ground (arith, d, s, h)

  signed :
      (token : String) (o : Option String) (payload : Fields)
      → decode token ≡ o
      → verified_payload token ≡ some payload
      → Signed token payload
  unfolding verified_payload
  signed token (some kid) payload d h = payload_at token kid _ payload d refl h
  signed token none payload d h = ground (arith, d, h)

  module _ (valid_token : String → Bool) (google_user : String → Option Fields) (X : Runtime)
      ⦃A : Adapter⦄ where
    open A use {Db}

    -- Signing in with Apple gives tokens only for a token that names a key which Apple has, that is
    -- signed with this key, and that is for the user who is named and for this application; and
    -- the tokens are those of a user whom the repository finds by the flow and the address in the token, or
    -- those of a new one who is registered with the flow and the address in the token.
    pub apple_signature_checked :
        (now : ℕ) (dto : AppleDto) (t : Tokens) (w w' : World Db)
        → apple_oauth_sync valid_token google_user verified_payload X now dto w ≡ (ok t, w')
        → (payload : Fields) × Signed dto.identity_token payload
          × (is_text dto.user (get "sub" payload) ≡ true)
          × (is_text apple_audience (get "aud" payload) ≡ true)
          × Given valid_token google_user verified_payload X now dto payload t w
    apple_signature_checked now dto t w w' h =
        let (payload, v, sub, aud, rest) =
          apple_tokens_checked valid_token google_user verified_payload X now dto t w w' h in
        (payload, signed dto.identity_token _ payload refl v, sub, aud, rest)

-- GoogleOAuthHelper. A token for a code, a user for an access token and an identity token, the ticket
-- for an identity token, and the status and the body of the answer about one.
pub record Google : Type 0 where
  pub token_of : String → Result (String × String)
  pub user_info : String → String → Result Fields
  pub ticket : String → Result (Option String)
  pub token_info : String → Result (ℕ × Fields)

module _ (G : Google) where
  unfoldable pub get_access_token_from_code : String → Result (String × String)
  get_access_token_from_code code = G.token_of code

  abbrev rethrown : Result Fields → Result Fields
  rethrown (ok u) = ok u
  rethrown (err e) = err (internal_server_error (message e))

  unfoldable pub get_google_user : String → Result Fields
  unfolding get_access_token_from_code
  get_google_user code = do
    payload ← get_access_token_from_code code
    rethrown (G.user_info payload.0 payload.1)

  -- The text in the payload, or `false`.
  unfoldable pub validate_id_token : String → Option String
  validate_id_token id_token = elim (G.ticket id_token) [ ok payload ↦ payload | err e ↦ none ]

  unfoldable pub get_google_user_from_id_token : String → Option Fields
  get_google_user_from_id_token id_token = elim (G.token_info id_token) [
    | err e ↦ none
    | ok (status, body) ↦ if status == 200 then some body else none
  ]

-- The package that makes the connection was removed.
unfoldable pub create_connection : Result String
create_connection =
    err (plain (literal "googleapis package consumes a ton of memory, so it was removed!"))

-- `get_connection_url` is what the connection would give.
unfoldable pub url_google : (String → String) → Result String
unfolding create_connection
url_google get_connection_url = do auth ← create_connection; ok (get_connection_url auth)
