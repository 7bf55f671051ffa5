-- ===== src/Accounts/Passwords/Change.antt =====
-- What a change of password leaves in the user's record.
use startup_api.Base.{
  ℕ, String, ◌≡◌, refl, ap, ◌∙◌, Bool, true, false, Option, none, some, str_eq, if◌then◌else◌,
  or_else, arith,
}
use startup_api.Base.Value.{num, str, arr, nil, Fields, end, field, get, put, assign, get-put}
use startup_api.Base.Exec.{literal, bad_request, Error, ok, err}
use startup_api.Repository.Database.{Adapter, StoresUpdates}
use startup_api.Accounts.World.{Runtime, World, text_of, text_at, id_of, track, send_mail}
use startup_api.Accounts.Tokens.{
  is_text, update_user, invalidate_all_refresh_tokens, recalculate_password_hash,
}
use startup_api.Accounts.Rotation.{update_user_lem, write_tokens}
use startup_api.Accounts.Passwords.{
  test_account, check_current, with_password, change_password, password_changed,
}

abbrev not_allowed : Error
not_allowed = bad_request (literal "You are not allowed to change the password for this user")

-- Setting the password changes no other field.
id_of-with_password :
    (new : String) (user : Fields) → id_of (with_password (some new) user) ≡ id_of user
unfolding id_of text_at
id_of-with_password new user =
    ap (λ o. or_else (text_of o) "undefined") (get-put "password" "id" (str new) user)

email-with_password :
    (new : String) (user : Fields)
    → text_at "email" (with_password (some new) user) ≡ text_at "email" user
unfolding text_at
email-with_password new user = ap text_of (get-put "password" "email" (str new) user)

password-with_password :
    (new : String) (user : Fields) → text_at "password" (with_password (some new) user) ≡ some new
unfolding text_at
password-with_password new user = ap text_of (get-put "password" "password" (str new) user)

module _ (X : Runtime) ⦃A : Adapter⦄ where
  open A use {Db}

  track-db :
      (event : String) (user : Option Fields) (w : World Db)
      → track X event user w ≡ (ok tt, (track X event user w).1)
  unfolding track
  track-db event user w = ground arith

  track-keeps :
      (event : String) (user : Option Fields) (w : World Db) → (track X event user w).1.db ≡ w.db
  unfolding track
  track-keeps event user w = ground arith

  refused_at :
      (now : ℕ) (salt : String) (user : Fields) (current new : Option String) (e : Error)
      (special : Bool) (w : World Db)
      → is_text test_account (get "email" user) ≡ special
      → check_current X user current new ≡ err e
      → (e' : Error) × (w' : World Db) × (change_password X now salt user current new w
          ≡ (err e', w'))
        × (w'.db ≡ w.db)
  unfolding change_password
  refused_at now salt user current new e true w s h = (not_allowed, w, ground (arith, s), refl)
  refused_at now salt user current new e false w s h = (
    e,
    (track X "ChangePassword" (some user) w).1,
    ground (arith, s, h, track-db "ChangePassword" (some user) w),
    track-keeps "ChangePassword" (some user) w,
  )

  -- A change of password that is refused because of what the user has given leaves the database as
  -- it was.
  refused_change_keeps :
      (now : ℕ) (salt : String) (user : Fields) (current new : Option String) (e : Error)
      (w : World Db)
      → check_current X user current new ≡ err e
      → (e' : Error) × (w' : World Db) × (change_password X now salt user current new w
          ≡ (err e', w'))
        × (w'.db ≡ w.db)
  refused_change_keeps now salt user current new e w h =
      refused_at now salt user current new e _ w refl h

  -- The patch that recalculating the hash writes.
  abbrev pub hash_patch : String → String → String → Fields
  hash_patch address new salt =
      field "email" (str (X.lower address))
        (field "password" (str (X.hash new salt)) (field "salt" (str salt) end))

  recalculate_lem :
      (now : ℕ) (salt address new : String) (user : Fields) (w w' : World Db)
      → text_at "email" user ≡ some address
      → str_eq (X.lower address) "" ≡ false
      → update_user X now (id_of user) (hash_patch address new salt) w ≡ (ok tt, w')
      → recalculate_password_hash X now salt (with_password (some new) user) w ≡ (ok tt, w')
  unfolding recalculate_password_hash
  recalculate_lem now salt address new user w w' a n u = ground (
    arith,
    email-with_password new user ∙ a,
    password-with_password new user,
    id_of-with_password new user,
    n,
    u,
  )

  change_lem :
      (now : ℕ) (salt : String) (user : Fields) (current new : Option String)
      (w w₁ w₂ w₃ : World Db)
      → is_text test_account (get "email" user) ≡ false
      → check_current X user current new ≡ ok tt
      → track X "ChangePassword" (some user) w ≡ (ok tt, w₁)
      → invalidate_all_refresh_tokens X now (id_of user) w₁ ≡ (ok tt, w₂)
      → recalculate_password_hash X now salt (with_password new user) w₂ ≡ (ok tt, w₃)
      → (change_password X now salt user current new w).1.db ≡ w₃.db
  unfolding change_password send_mail
  change_lem now salt user current new w w₁ w₂ w₃ s c t i r =
      ground (arith, s, c, t, i, r, X.deliver (password_changed user))

  -- The fields of a record after the patch.
  get-hash_patch :
      (k address new salt : String) (now : ℕ) (r : Fields)
      → get k (assign r (put "updatedAt" (num now) (hash_patch address new salt))) ≡ (
          if str_eq "updatedAt" k
          then some (num now)
          else if str_eq "salt" k
          then some (str salt)
          else if str_eq "password" k
          then some (str (X.hash new salt))
          else if str_eq "email" k
          then some (str (X.lower address))
          else get k r)
  unfolding assign put
  get-hash_patch k address new salt now r =
      let r₁ = put "email" (str (X.lower address)) r in
      let r₂ = put "password" (str (X.hash new salt)) r₁ in
      let r₃ = put "salt" (str salt) r₂ in
      ground (
        arith,
        get-put "updatedAt" k (num now) r₃,
        get-put "salt" k (str salt) r₂,
        get-put "password" k (str (X.hash new salt)) r₁,
        get-put "email" k (str (X.lower address)) r,
      )

  module _ (updates : StoresUpdates A) where
    -- A change of password that is not refused leaves the user's record without refresh tokens and with
    -- the hash of the new password with the new salt, whether or not the mail about it can be sent.
    -- What is assumed is that the adapter stores updates and has the user's record, and that the
    -- user has an address.
    -- The address is not empty, and it is not that of the account of the app stores.
    pub change_password_stores :
        (now : ℕ) (salt address new : String) (current : Option String) (user r : Fields)
        (w : World Db)
        → is_text test_account (get "email" user) ≡ false
        → check_current X user current (some new) ≡ ok tt
        → text_at "email" user ≡ some address
        → str_eq (X.lower address) "" ≡ false
        → A.find_by_id (id_of user) none w.db ≡ ok (some r)
        → (r' : Fields) × (A.find_by_id
              (id_of user)
              none
              (change_password X now salt user current (some new) w).1.db
            ≡ ok (some r'))
          × (get "refreshTokens" r' ≡ some (arr nil))
          × (get "password" r' ≡ some (str (X.hash new salt)))
          × (get "salt" r' ≡ some (str salt))
    change_password_stores now salt address new current user r w s c a n f =
        let w₁ = (track X "ChangePassword" (some user) w).1 in
        let kept = track-keeps "ChangePassword" (some user) w in
        let (d, r₁, e, g, cleared) =
          write_tokens X updates now (id_of user) nil r w₁
            (ap (A.find_by_id (id_of user) none) kept ∙ f) in
        let w₂ = record w₁ { db = d } in
        let (d', e', g') =
          update_user_lem X updates now (id_of user) (hash_patch address new salt) r₁ w₂
            (unfold get put in refl) g in
        let w₃ = record w₂ { db = d' } in
        let stored =
          change_lem now salt user current (some new) w w₁ w₂ w₃ s c
            (track-db "ChangePassword" (some user) w) (unfold invalidate_all_refresh_tokens in e)
            (recalculate_lem now salt address new user w₂ w₃ a n e') in
        (
          assign r₁ (put "updatedAt" (num now) (hash_patch address new salt)),
          ap (A.find_by_id (id_of user) none) stored ∙ g',
          get-hash_patch "refreshTokens" address new salt now r₁ ∙ cleared,
          get-hash_patch "password" address new salt now r₁,
          get-hash_patch "salt" address new salt now r₁,
        )
