-- ===== src/Accounts/Rotation.antt =====
-- What refreshing a pair of tokens does to the tokens that the user's record holds.
use startup_api.Base.{
  ℕ, String, ◌≡◌, refl, ◌∙◌, Bool-cases, inl, inr, eq_iff, Option, true, false, none, some,
  if◌then◌else◌, arith,
}
use startup_api.Base.Value.{
  Value, null, bool, num, str, arr, obj, Items, nil, cons, Fields, get, put, assign, get-put,
}
use startup_api.Base.Exec.{ok, err}
use startup_api.Repository.Database.{Adapter, StoresUpdates}
use startup_api.Repository
use startup_api.Repository.{populated, rewrap}
use startup_api.Accounts.World.{Runtime, World, id_of}
use startup_api.Accounts.Tokens.{
  token_item, add_item, drop_token, is_token, is_text, has_token, tokens_of, tokens_patch,
  update_user, add_refresh_token, remove_refresh_token, verify_refresh_token,
  generate_refresh_token, generate_access_token, refresh_token, access_payload, life_time, secret,
  Tokens, invalid_refresh_token,
}

-- An item of a list of tokens that is this token.
abbrev pub IsToken : String → Value → Type 0
IsToken token x = (fs : Fields) × (x ≡ obj fs) × (get "token" fs ≡ some (str token))

-- The second list is the first without the items that are the token.
pub data Without (token : String) : Items → Items → Type 0 where
  ends : Without token nil nil
  drops :
      (x : Value)
      → IsToken token x
      → (xs ys : Items) → Without token xs ys
      → Without token (cons x xs) ys
  keeps :
      (x : Value)
      → ¬ IsToken token x
      → (xs ys : Items) → Without token xs ys
      → Without token (cons x xs) (cons x ys)

pub is_text-some :
    (token : String) (o : Option Value) → is_text token o ≡ true → o ≡ some (str token)
is_text-some token none h = ground (arith, h)
is_text-some token (some (str t)) h = ground (arith, h, eq_iff t token)
is_text-some token (some null) h = ground (arith, h)
is_text-some token (some (bool b)) h = ground (arith, h)
is_text-some token (some (num n)) h = ground (arith, h)
is_text-some token (some (obj fs)) h = ground (arith, h)
is_text-some token (some (arr xs)) h = ground (arith, h)

is_token-IsToken : (token : String) (x : Value) → is_token token x ≡ true → IsToken token x
unfolding is_token
is_token-IsToken token (obj fs) h = (fs, refl, is_text-some token (get "token" fs) h)
is_token-IsToken token null h = ground (arith, h)
is_token-IsToken token (bool b) h = ground (arith, h)
is_token-IsToken token (num n) h = ground (arith, h)
is_token-IsToken token (str t) h = ground (arith, h)
is_token-IsToken token (arr xs) h = ground (arith, h)

IsToken-is_token : (token : String) (x : Value) → IsToken token x → is_token token x ≡ true
unfolding is_token
IsToken-is_token token x (fs, e, g) = ground (arith, e, g, eq_iff token token)

not_IsToken : (token : String) (x : Value) → is_token token x ≡ false → ¬ IsToken token x
not_IsToken token x h t = ground (arith, h, IsToken-is_token token x t)

drop_token-Without : (token : String) (xs : Items) → Without token xs (drop_token token xs)
unfolding drop_token
drop_token-Without token nil = ends
drop_token-Without token (cons x xs) = elim (Bool-cases (is_token token x)) [
  | inl h ↦ rw h (drops x (is_token-IsToken token x h) xs _ (drop_token-Without token xs))
  | inr h ↦ rw h (keeps x (not_IsToken token x h) xs _ (drop_token-Without token xs))
]

module _ (X : Runtime) ⦃A : Adapter⦄ (updates : StoresUpdates A) where
  open A use {Db}

  -- An update of a user's record that does not name `_id`.
  pub update_user_lem :
      (now : ℕ) (id : String) (patch r : Fields) (w : World Db)
      → get "_id" (put "updatedAt" (num now) patch) ≡ none
      → A.find_by_id id none w.db ≡ ok (some r)
      → (d : Db) × (update_user X now id patch w ≡ (ok tt, record w { db = d }))
        × (A.find_by_id id none d ≡ ok (some (assign r (put "updatedAt" (num now) patch))))
  unfolding update_user rewrap Repository.update_by_id
  update_user_lem now id patch r w h f =
      let (r', d, e, g) = updates id (put "updatedAt" (num now) patch) r w.db h f in
      (d, ground (arith, e), g)

  stored-tokens :
      (now : ℕ) (xs : Items) (r : Fields)
      → get "refreshTokens" (assign r (put "updatedAt" (num now) (tokens_patch xs))) ≡ some (arr xs)
  unfolding assign put
  stored-tokens now xs r =
      get-put "updatedAt" "refreshTokens" (num now) (put "refreshTokens" (arr xs) r)
      ∙ get-put "refreshTokens" "refreshTokens" (arr xs) r

  -- Writing the list of a user's tokens.
  pub write_tokens :
      (now : ℕ) (id : String) (xs : Items) (r : Fields) (w : World Db)
      → A.find_by_id id none w.db ≡ ok (some r)
      → (d : Db) × (r' : Fields) × (update_user X now id (tokens_patch xs) w
          ≡ (ok tt, record w { db = d }))
        × (A.find_by_id id none d ≡ ok (some r'))
        × (get "refreshTokens" r' ≡ some (arr xs))
  write_tokens now id xs r w f =
      let (d, e, g) = update_user_lem now id (tokens_patch xs) r w (unfold get put in refl) f in
      (d, assign r (put "updatedAt" (num now) (tokens_patch xs)), e, g, stored-tokens now xs r)

  verify_lem :
      (now : ℕ) (token : String) (payload r : Fields) (w : World Db)
      → X.verify now token X.refresh_secret ≡ some payload
      → A.find_by_id (id_of payload) none w.db ≡ ok (some r)
      → verify_refresh_token X now token w ≡ (
          if has_token token (tokens_of (populated r))
          then (ok (populated r), w)
          else (err invalid_refresh_token, w))
  unfolding verify_refresh_token rewrap Repository.find_by_id
  verify_lem now token payload r w v f = ground (arith, v, f)

  generate_lem :
      (now : ℕ) (key : String) (user : Fields) (w w' : World Db)
      → secret X ≡ some key
      → update_user X now
          (id_of user)
          (tokens_patch
            (add_item (tokens_of user) (token_item (generate_refresh_token X now user))))
          w
        ≡ (ok tt, w')
      → generate_access_token X now user w ≡ (
        ok (record {
          access = X.sign now (access_payload user) key (some (life_time X));
          refresh = generate_refresh_token X now user;
        }),
        w',
      )
  unfolding generate_access_token add_refresh_token
  generate_lem now key user w w' k h = ground (arith, k, h)

  refresh_lem :
      (now : ℕ) (token : String) (user : Fields) (w w₁ w₂ w₃ : World Db) (new : Tokens)
      → verify_refresh_token X now token w ≡ (ok user, w₁)
      → generate_access_token X now user w₁ ≡ (ok new, w₂)
      → remove_refresh_token X now user token w₂ ≡ (ok tt, w₃)
      → refresh_token X now token w ≡ (ok new, w₃)
  unfolding refresh_token
  refresh_lem now token user w w₁ w₂ w₃ new v g r = ground (arith, v, g, r)

  -- A refresh with a valid token of a known user returns a new pair of tokens, and the list that the
  -- user's record then holds is the old list without the token that was used: the new refresh token
  -- is not in it, unless it was before. What is assumed is that the adapter stores updates,
  -- that the secret is set and that the token names the user's record.
  pub refresh_token_loses_new :
      (now : ℕ) (token key : String) (payload r : Fields) (w : World Db)
      → X.verify now token X.refresh_secret ≡ some payload
      → A.find_by_id (id_of payload) none w.db ≡ ok (some r)
      → id_of (populated r) ≡ id_of payload
      → has_token token (tokens_of (populated r)) ≡ true
      → secret X ≡ some key
      → let user = populated r in
        (w' : World Db) × (r' : Fields) × (refresh_token X now token w ≡ (
          ok (record {
            access = X.sign now (access_payload user) key (some (life_time X));
            refresh = generate_refresh_token X now user;
          }),
          w',
        ))
        × (A.find_by_id (id_of payload) none w'.db ≡ ok (some r'))
        × (ys : Items) × (get "refreshTokens" r' ≡ some (arr ys))
        × Without token (tokens_of user) ys
  refresh_token_loses_new now token key payload r w v f i h k =
      let user : Fields = populated r in
      let added : Items =
        add_item (tokens_of user) (token_item (generate_refresh_token X now user)) in
      let (d, r', e, g, t) = write_tokens now (id_of payload) added r w f in
      let (d', r'', e', g', t') =
        write_tokens now (id_of payload) (drop_token token (tokens_of user)) r'
          (record w { db = d }) g in
      (
        record w { db = d' },
        r'',
        refresh_lem now token user w w (record w { db = d }) (record w { db = d' }) _
            (verify_lem now token payload r w v f ∙ ground (arith, h))
            (generate_lem now key user w (record w { db = d }) k (rw i e))
            (unfold remove_refresh_token in rw i e'),
        g',
        drop_token token (tokens_of user),
        t',
        drop_token-Without token (tokens_of user),
      )
