-- ===== src/Accounts/Access/Hiding.antt =====
-- What an authenticated request gets to see.
use startup_api.Base.{
  String, ◌≡◌, ◌≢◌, refl, ap, Bool, true, false, not, Option, none, some, List, [], ◌∷◌, or_else,
  keep, includes, arith, eq_iff,
}
use startup_api.Base.Value.{Fields, end, get}
use startup_api.Base.Exec.{Result, ok, err}
use startup_api.Repository.Database.{Adapter, FindOptions}
use startup_api.Repository.{rewrap, find_by}
use startup_api.Repository.Laws.{find_by-fields}
use startup_api.Accounts.World.{Runtime, World, entry}
use startup_api.Accounts.Access.{
  AuthOptions, Verdict, valid, expired, invalid, Headers, hidden_from_user, hiding, auth_header,
  with_verdict, authenticate,
}

includes-keep :
    (p : String → Bool) (k : String) (fs : List String)
    → includes k fs ≡ true
    → p k ≡ true
    → includes k (keep p fs) ≡ true
includes-keep p k [] h t = h
includes-keep p k (f ∷ fs) h t = ground (arith, includes-keep p k fs, eq_iff f k)

module _ (second_word : String → Option String) (check : Option String → Verdict)
    (swagger_root swagger_header : String) (X : Runtime) ⦃A : Adapter⦄ where
  open A use {Db}

  found_of :
      (params : Fields) (options : FindOptions) (o : Result (Option Fields)) (user : Fields)
      (d d' : Db)
      → A.find_by params (some options) d ≡ o
      → find_by params (some options) d ≡ (ok (some user), d')
      → (r : Fields) × (o ≡ ok (some r))
  unfolding find_by rewrap
  found_of params options (ok (some r)) user d d' f h = (r, refl)
  found_of params options (ok none) user d d' f h = ground (arith, f)
  found_of params options (err e) user d d' f h = ground (arith, f)

  verdict_of :
      (o : AuthOptions) (v : Verdict) (user : Fields) (w w' : World Db)
      → with_verdict second_word check swagger_root swagger_header X o v w ≡ (ok user, w')
      → (payload : Fields) × (v ≡ valid payload)
        × ((find_by
              (entry "email" (get "email" payload) end)
              (some (hiding (hidden_from_user o)))
              w.db).0
            ≡ ok (some user))
  unfolding with_verdict
  verdict_of o (valid payload) user w w' h = (
    payload,
    refl,
    ground (
      arith,
      find_by (entry "email" (get "email" payload) end) (some (hiding (hidden_from_user o))) w.db,
    ),
  )
  verdict_of o expired user w w' h = ground arith
  verdict_of o invalid user w w' h = ground arith

  header_of :
      (o : AuthOptions) (h : Headers) (header : Option String) (user : Fields) (w w' : World Db)
      → auth_header second_word check swagger_root swagger_header X h ≡ header
      → authenticate second_word check swagger_root swagger_header X o h w ≡ (ok user, w')
      → (t : String) × (header ≡ some t)
        × (with_verdict second_word check swagger_root swagger_header X o (check (second_word t)) w
            ≡ (ok user, w'))
  unfolding authenticate
  header_of o h none user w w' e f = ground (arith, e)
  header_of o h (some t) user w w' e f = (t, refl, ground (arith, e))

  -- A request passes only with a header whose token is valid, and its user is the record with the
  -- address in the token; no field of the list in the options is in that user, as long as hiding
  -- has not been turned off and the field has not been excluded from it.
  -- The field is neither `_id` nor `id`.
  pub authenticate_hides :
      (o : AuthOptions) (h : Headers) (fields : List String) (k : String) (user : Fields)
      (w w' : World Db)
      → authenticate second_word check swagger_root swagger_header X o h w ≡ (ok user, w')
      → o.sensitive_fields ≡ some fields
      → or_else o.hide_sensitive_user_fields true ≡ true
      → includes k fields ≡ true
      → includes k (or_else o.exclude_from_hiding []) ≡ false
      → k ≢ "_id"
      → k ≢ "id"
      → (header : String) × (payload : Fields) × (auth_header second_word check swagger_root
            swagger_header X h
          ≡ some header)
        × (check (second_word header) ≡ valid payload)
        × ((find_by
              (entry "email" (get "email" payload) end)
              (some (hiding (hidden_from_user o)))
              w.db).0
            ≡ ok (some user))
        × (get k user ≡ none)
  authenticate_hides o h fields k user w w' f s t i x n m =
      let (header, e, g) = header_of o h _ user w w' refl f in
      let (payload, v, found) = verdict_of o _ user w w' g in
      let params = entry "email" (get "email" payload) end in
      let options = hiding (hidden_from_user o) in
      let shown = keep (λ j. not (includes j (or_else o.exclude_from_hiding []))) fields in
      let (r, stored) =
        found_of params options _ user w.db _ refl
          (ap (λ y. (y, (find_by params (some options) w.db).1)) found) in
      let hidden : hidden_from_user o ≡ some shown =
        unfold hidden_from_user in ground (arith, s, t) in
      let (q, same, _, gone) = find_by-fields params options shown k w.db r stored hidden n m in
      (
        header,
        payload,
        e,
        v,
        found,
        ground (
          arith,
          same,
          found,
          gone,
          includes-keep (λ j. not (includes j (or_else o.exclude_from_hiding []))) k fields i
              (ap not x),
        ),
      )
