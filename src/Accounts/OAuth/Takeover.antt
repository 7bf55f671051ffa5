-- ===== src/Accounts/OAuth/Takeover.antt =====
-- Whose tokens a provider's token gives.
use startup_api.Base.{
  ℕ, String, ◌≡◌, ◌⊎◌, inl, inr, refl, sym, ◌∙◌, Bool, true, false, Option, none, some, str_eq, ap,
  or_else, arith,
}
use startup_api.Base.Value.{Value, str, Fields, field, get}
use startup_api.Base.Exec.{phrase, bad_request, Result, ok, err}
use startup_api.Repository.Database.{Adapter}
use startup_api.Repository
use startup_api.Repository.{populated, rewrap}
use startup_api.Accounts.World.{Runtime, World, track, update_user_info}
use startup_api.Accounts.Tokens.{Tokens, is_text, secret}
use startup_api.Accounts.Rotation.{is_text-some}
use startup_api.Accounts.Login.{register}
use startup_api.Accounts.Login.Given.{TokensOf, generated_for}
use startup_api.Accounts.OAuth.{
  by_email_of, is_email, apple_record, enter, enter_new, AppleDto, apple_audience,
  google_oauth_mobile, validate_apple_token, handle_new_apple_user, apple_oauth_sync,
}

module _ (valid_token : String → Bool) (google_user apple_payload : String → Option Fields)
    (X : Runtime) ⦃A : Adapter⦄ where
  open A use {Db}

  -- Google's token of a user whose record is of the flow with a password gives no tokens, and
  -- nothing is written.
  -- The token is not empty, and Google accepts it and knows its user.
  mobile_refuses_basic :
      (now : ℕ) (id_token : String) (info r : Fields) (w : World Db)
      → str_eq id_token "" ≡ false
      → valid_token id_token ≡ true
      → google_user id_token ≡ some info
      → A.find_by (by_email_of info) none w.db ≡ ok (some r)
      → is_text X.basic_flow (get "authFlow" (populated r)) ≡ true
      → google_oauth_mobile valid_token google_user apple_payload X now id_token w
        ≡ (err (bad_request (phrase "auth" "accountAuthFlowMismatch")), w)
  unfolding google_oauth_mobile Repository.find_by rewrap
  mobile_refuses_basic now id_token info r w e v u f b = ground (arith, e, v, u, f, b)

  payload_of :
      (dto : AppleDto) (o : Option Fields) (payload : Fields)
      → apple_payload dto.identity_token ≡ o
      → validate_apple_token valid_token google_user apple_payload X dto ≡ ok payload
      → (o ≡ some payload)
        × (is_text dto.user (get "sub" payload) ≡ true)
        × (is_text apple_audience (get "aud" payload) ≡ true)
  unfolding validate_apple_token
  payload_of dto none payload e h = ground (arith, e)
  payload_of dto (some p) payload e h = (ground (arith, e), ground (arith, e), ground (arith, e))

  -- The filter for the record of an earlier sign-in with Apple.
  abbrev pub known_apple : Fields → Fields
  known_apple payload = field "authFlow" (str X.apple_flow) (by_email_of payload)

  new_user_email :
      (now : ℕ) (dto : AppleDto) (payload : Fields) (t : Tokens) (w w' : World Db)
      → handle_new_apple_user valid_token google_user apple_payload X now dto payload w ≡ (ok t, w')
      → (is_email dto.email (get "email" payload) ≡ true)
        × (enter_new valid_token google_user apple_payload X now "UserLoginApple"
              (apple_record X dto payload)
              w
            ≡ (ok t, w'))
  unfolding handle_new_apple_user
  new_user_email now dto payload t w w' h = (ground arith, ground arith)

  entered :
      (now : ℕ) (event : String) (user : Fields) (t : Tokens) (w w' : World Db)
      → enter valid_token google_user apple_payload X now event user w ≡ (ok t, w')
      → TokensOf X now user t
  unfolding enter track update_user_info
  entered now event user t w w' h =
      let w₁ = (track X "UserLogin" (some user) w).1 in
      let w₂ = (update_user_info X user (track X event (some user) w₁).1).1 in
      generated_for X now user t (secret X) w₂ refl (ground (arith, h))

  entered_new :
      (now : ℕ) (event : String) (new : Fields) (r : Result Fields × World Db) (t : Tokens)
      (w w' : World Db)
      → register X now new w ≡ r
      → enter_new valid_token google_user apple_payload X now event new w ≡ (ok t, w')
      → (u : Fields) × (r.0 ≡ ok u) × TokensOf X now u t
  unfolding enter_new
  entered_new now event new (ok u, v) t w w' r h =
      (u, refl, entered now event u t v w' (ground (arith, r, h)))
  entered_new now event new (err e, v) t w w' r h = ground (arith, r)

  apple_new_lem :
      (now : ℕ) (dto : AppleDto) (payload : Fields) (d : Db) (w : World Db)
      → validate_apple_token valid_token google_user apple_payload X dto ≡ ok payload
      → Repository.find_by (known_apple payload) none w.db ≡ (ok none, d)
      → apple_oauth_sync valid_token google_user apple_payload X now dto w
        ≡ handle_new_apple_user valid_token google_user apple_payload X now dto payload
            (record w { db = d })
  unfolding apple_oauth_sync
  apple_new_lem now dto payload d w v k = ground (arith, v, k)

  -- Whose tokens they are: a known user's, or those of one who is registered with the address in the token.
  abbrev pub Given : ℕ → AppleDto → Fields → Tokens → World Db → Type 0
  Given now dto payload t w =
      ((r : Fields) × ((Repository.find_by (known_apple payload) none w.db).0 ≡ ok (some r))
        × TokensOf X now r t)
      ⊎ ((new : Fields) × (u : Fields) × (get "email" new ≡ get "email" payload)
          × (get "authFlow" new ≡ some (str X.apple_flow))
          × ((register X now new w).0 ≡ ok u)
          × TokensOf X now u t)

  email_of :
      (email : Option String) (v : Option Value)
      → is_email email v ≡ true
      → v ≡ some (str (or_else email ""))
  email_of none v h = ground (arith, h)
  email_of (some s) v h = is_text-some s v h

  record-email :
      (dto : AppleDto) (payload : Fields)
      → (get "email" (apple_record X dto payload) ≡ some (str (or_else dto.email "")))
        × (get "authFlow" (apple_record X dto payload) ≡ some (str X.apple_flow))
  unfolding get
  record-email dto payload = (refl, refl)

  find_by-keeps :
      (p : Fields) (d : Db) (o : Result (Option Fields))
      → A.find_by p none d ≡ o
      → (Repository.find_by p none d).1 ≡ d
  unfolding Repository.find_by rewrap
  find_by-keeps p d (ok o) h = ground (arith, h)
  find_by-keeps p d (err e) h = ground (arith, h)

  apple_found :
      (now : ℕ) (dto : AppleDto) (payload : Fields) (f : Result (Option Fields)) (t : Tokens)
      (w w' : World Db)
      → validate_apple_token valid_token google_user apple_payload X dto ≡ ok payload
      → Repository.find_by (known_apple payload) none w.db ≡ (f, w.db)
      → apple_oauth_sync valid_token google_user apple_payload X now dto w ≡ (ok t, w')
      → Given now dto payload t w
  unfolding apple_oauth_sync
  apple_found now dto payload (ok (some r)) t w w' v k h =
      inl (r, ap (λ x. x.0) k, entered now "UserLoginApple" r t w w' (ground (arith, v, k, h)))
  apple_found now dto payload (ok none) t w w' v k h =
      let (same, through) =
        new_user_email now dto payload t w w'
          (sym (apple_new_lem now dto payload w.db w v k) ∙ h) in
      let (u, made, given) =
        entered_new now "UserLoginApple" (apple_record X dto payload) _ t w w' refl through in
      let (email, flow) = record-email dto payload in
      inr (
        apple_record X dto payload,
        u,
        email ∙ sym (email_of dto.email (get "email" payload) same),
        flow,
        made,
        given,
      )
  apple_found now dto payload (err e) t w w' v k h = ground (arith, v, k)

  validated :
      (now : ℕ) (dto : AppleDto) (v : Result Fields) (t : Tokens) (w w' : World Db)
      → validate_apple_token valid_token google_user apple_payload X dto ≡ v
      → apple_oauth_sync valid_token google_user apple_payload X now dto w ≡ (ok t, w')
      → (payload : Fields) × (v ≡ ok payload)
  unfolding apple_oauth_sync
  validated now dto (ok payload) t w w' v h = (payload, refl)
  validated now dto (err e) t w w' v h = ground (arith, v)

  -- Signing in with Apple gives tokens only for a token that Apple has signed for the user who is named and
  -- for this application, and they are the tokens of a user whom the repository finds by the flow and
  -- the address in the token, or of a new one who is registered with that address and the flow.
  pub apple_tokens_checked :
      (now : ℕ) (dto : AppleDto) (t : Tokens) (w w' : World Db)
      → apple_oauth_sync valid_token google_user apple_payload X now dto w ≡ (ok t, w')
      → (payload : Fields) × (apple_payload dto.identity_token ≡ some payload)
        × (is_text dto.user (get "sub" payload) ≡ true)
        × (is_text apple_audience (get "aud" payload) ≡ true)
        × Given now dto payload t w
  apple_tokens_checked now dto t w w' h =
      let (payload, v) = validated now dto _ t w w' refl h in
      let (signed, sub, aud) = payload_of dto _ payload refl v in
      (
        payload,
        signed,
        sub,
        aud,
        apple_found now dto payload _ t w w' v
            (ap (λ d. ((Repository.find_by (known_apple payload) none w.db).0, d))
              (find_by-keeps (known_apple payload) w.db _ refl))
            h,
      )
