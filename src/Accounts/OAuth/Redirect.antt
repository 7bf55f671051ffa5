-- ===== src/Accounts/OAuth/Redirect.antt =====
-- Coming back from Google: getGoogleUser/GetGoogleUserController.ts.
use startup_api.Base.{
  ℕ, String, ◌≡◌, refl, Bool, true, false, not, Option, none, some, str_eq, if◌then◌else◌, arith,
}
use startup_api.Base.Value.{Value, null, bool, num, str, obj, arr, Fields, truthy?}
use startup_api.Base.Exec.{Error, Result, ok, err, pure, catch_with, ◌>>=◌}
use startup_api.Repository.Database.{Adapter}
use startup_api.Repository
use startup_api.Accounts.World.{Runtime, World, Action, on_db}
use startup_api.Accounts.Tokens.{Tokens}
use startup_api.Accounts.OAuth.{by_email_of, has_flow, google_oauth_sync}

-- What is answered: the status 400 with a text, or a redirection, to the page for errors or with tokens.
pub data Answer : Type 0 where
  refuses : String → Answer
  mismatch : Answer
  enters : Tokens → Answer

-- `user_of` is what Google answers for a code.
module _ (valid_token : String → Bool) (google_user apple_payload : String → Option Fields)
    (user_of : String → Result Fields) (X : Runtime) ⦃A : Adapter⦄ where
  open A use {Db}

  unfoldable pub enter_by_code : ℕ → String → Action Answer
  enter_by_code now code = do
    info ← λ w. (user_of code, w)
    user ← on_db (Repository.find_by (by_email_of info) none)
    if has_flow valid_token google_user apple_payload X X.basic_flow user then pure mismatch else do
      tokens ← google_oauth_sync valid_token google_user apple_payload X now info
      pure (enters tokens)

  abbrev pub fails : Error → Action Answer
  fails e = pure (refuses "Failed to authenticate with Google")

  abbrev with_code : ℕ → Value → Action Answer
  with_code now (str code) =
      if str_eq (X.trim code) ""
      then pure (refuses "Invalid authorization code")
      else catch_with (enter_by_code now code) fails
  with_code now v = pure (refuses "Invalid authorization code")

  -- `code` is what the query holds under this name.
  unfoldable pub google_oauth_redirect : ℕ → Option Value → Action Answer
  google_oauth_redirect now none = pure (refuses "Authorization code is required")
  google_oauth_redirect now (some v) =
      if not (truthy? (some v))
      then pure (refuses "Authorization code is required")
      else with_code now v

  -- The user that Google names for a code, and that has not registered with a password.
  abbrev pub Known : String → Fields → World Db → Type 0
  Known code info w =
      (user_of code ≡ ok info)
      × ((o : Option Fields) × (d : Db) × (Repository.find_by (by_email_of info) none w.db
            ≡ (ok o, d))
          × (has_flow valid_token google_user apple_payload X X.basic_flow o ≡ false))

  found_at :
      (now : ℕ) (code : String) (info : Fields) (o : Option Fields) (d : Db) (b : Bool) (t : Tokens)
      (w w' : World Db)
      → user_of code ≡ ok info
      → Repository.find_by (by_email_of info) none w.db ≡ (ok o, d)
      → has_flow valid_token google_user apple_payload X X.basic_flow o ≡ b
      → catch_with (enter_by_code now code) fails w ≡ (ok (enters t), w')
      → Known code info w
  unfolding enter_by_code
  found_at now code info o d true t w w' u f b h = ground (arith, u, f, b, h)
  found_at now code info o d false t w w' u f b h = (u, (o, d, f, b))

  search_at :
      (now : ℕ) (code : String) (info : Fields) (r : Result (Option Fields)) (d : Db) (t : Tokens)
      (w w' : World Db)
      → user_of code ≡ ok info
      → Repository.find_by (by_email_of info) none w.db ≡ (r, d)
      → catch_with (enter_by_code now code) fails w ≡ (ok (enters t), w')
      → Known code info w
  unfolding enter_by_code
  search_at now code info (err e) d t w w' u f h = ground (arith, u, f, h)
  search_at now code info (ok o) d t w w' u f h = found_at now code info o d _ t w w' u f refl h

  code_at :
      (now : ℕ) (code : String) (r : Result Fields) (t : Tokens) (w w' : World Db)
      → user_of code ≡ r
      → catch_with (enter_by_code now code) fails w ≡ (ok (enters t), w')
      → (info : Fields) × Known code info w
  unfolding enter_by_code
  code_at now code (err e) t w w' u h = ground (arith, u, h)
  code_at now code (ok info) t w w' u h = (info, search_at now code info _ _ t w w' u refl h)

  -- The redirection carries tokens only where the query holds a code that is a
  -- text, for which Google names a user, and the repository answers, by the user's address, with no
  -- record or with one that was not registered with a password.
  redirect_checked :
      (now : ℕ) (code : Option Value) (t : Tokens) (w w' : World Db)
      → google_oauth_redirect now code w ≡ (ok (enters t), w')
      → (c : String) × (info : Fields) × (code ≡ some (str c)) × Known c info w
  unfolding google_oauth_redirect
  redirect_checked now none t w w' h = ground (arith, h)
  redirect_checked now (some null) t w w' h = ground (arith, h)
  redirect_checked now (some (bool b)) t w w' h = ground (arith, h)
  redirect_checked now (some (num n)) t w w' h = ground (arith, h)
  redirect_checked now (some (obj o)) t w w' h = ground (arith, h)
  redirect_checked now (some (arr xs)) t w w' h = ground (arith, h)
  redirect_checked now (some (str c)) t w w' h =
      let in_time : catch_with (enter_by_code now c) fails w ≡ (ok (enters t), w') =
        ground (arith, h) in
      let (info, known) = code_at now c (user_of c) t w w' refl in_time in (c, info, refl, known)
