-- ===== src/Accounts/Push.antt =====
-- Push notifications: src/providers/pushNotification/PushNotificationHelper.ts, and
-- operation/pushNotification/PushNotificationController.ts.
use startup_api.Base.{
  ℕ, String, ◌≡◌, refl, Bool, true, false, none, some, str_eq, if◌then◌else◌, or_else, arith, ◌∙◌,
  Bool-cases, inl, inr,
}
use startup_api.Base.Texts.{includes_text}
use startup_api.Base.Value.{str, num, Fields, end, field, get, put, assign, get-put}
use startup_api.Base.Exec.{
  phrase_with, message, bad_request, Result, ok, err, pure, raise, catch_with, lift, ◌>>=◌, ◌>>◌,
}
use startup_api.Repository.Database.{Adapter, StoresUpdates}
use startup_api.Repository
use startup_api.Repository.{populated, rewrap}
use startup_api.Accounts.World.{Runtime, World, Action, on_db, text_at, id_of}

abbrev pub with_token : String → Fields
with_token token = field "pushNotificationToken" (str token) end

abbrev pub not_found_reply : String
not_found_reply = "Requested entity was not found."

-- `submit` is what Firebase answers for a token, a title and a body.
module _ (submit : String → String → String → Result String) (X : Runtime) ⦃A : Adapter⦄ where
  open A use {Db}

  -- A token that Firebase does not know is taken from the user.
  unfoldable pub forget_token : ℕ → String → Action Unit
  forget_token now user_token = do
    user ← on_db (Repository.find_by (with_token user_token) none)
    elim user [
      | none ↦ pure tt
      | some u ↦ do on_db (Repository.update_by_id now (id_of u) (with_token "")); pure tt
    ]

  unfoldable pub on_reply : ℕ → String → String → Action Unit
  unfolding forget_token
  on_reply now user_token response =
      if includes_text "messages" response
      then pure tt
      else if includes_text not_found_reply response
      then forget_token now user_token
      else pure tt

  -- What is thrown is logged.
  unfoldable pub send_message : ℕ → String → String → String → Action Unit
  unfolding on_reply
  send_message now user_token title body =
      if X.development
      then pure tt
      else catch_with
          (do response ← lift (submit user_token title body); on_reply now user_token response)
          (λ e. pure tt)

  unfoldable pub submit_test_push_notification : ℕ → String → Action Unit
  unfolding send_message
  submit_test_push_notification now user_id =
      catch_with
        (do
          user ← on_db (Repository.find_by_id user_id none)
          elim user [
            | none ↦ raise (bad_request (phrase_with "validation" "notFound" "user"))
            | some u ↦
                let token = or_else (text_at "pushNotificationToken" u) "" in
                if str_eq token ""
                then raise
                    (bad_request (phrase_with "validation" "notFound" "user.pushNotificationToken"))
                else send_message now token "Hello World" "Your push notification works!"
          ])
        (λ e. raise (bad_request (message e)))

  -- Firebase answers that it does not know the token.
  abbrev pub is_unknown : Result String → Bool
  is_unknown (err e) = false
  is_unknown (ok response) =
      if includes_text "messages" response then false else includes_text not_found_reply response

  kept_otherwise :
      (now : ℕ) (token title body : String) (r : Result String) (w : World Db)
      → submit token title body ≡ r
      → is_unknown r ≡ false
      → send_message now token title body w ≡ (ok tt, w)
  unfolding send_message
  kept_otherwise now token title body (err e) w s u = ground (arith, s)
  kept_otherwise now token title body (ok response) w s u = ground (arith, s, u)

  forgotten :
      (updates : StoresUpdates A) (now : ℕ) (token : String) (u r : Fields) (w : World Db)
      → A.find_by (with_token token) none w.db ≡ ok (some u)
      → A.find_by_id (id_of (populated u)) none w.db ≡ ok (some r)
      → (d : Db) × (forget_token now token w ≡ (ok tt, record w { db = d }))
        × (A.find_by_id (id_of (populated u)) none d
            ≡ ok (some (assign r (put "updatedAt" (num now) (with_token "")))))
  unfolding forget_token Repository.find_by Repository.update_by_id rewrap
  forgotten updates now token u r w f g =
      let (r', d, e, h) =
        updates (id_of (populated u)) (put "updatedAt" (num now) (with_token "")) r w.db
          (unfold get put in refl) g in
      (d, ground (arith, f, e), h)

  runs_forget :
      (now : ℕ) (token title body : String) (r : Result String) (w w' : World Db)
      → X.development ≡ false
      → submit token title body ≡ r
      → is_unknown r ≡ true
      → forget_token now token w ≡ (ok tt, w')
      → send_message now token title body w ≡ (ok tt, w')
  unfolding send_message
  runs_forget now token title body (err e) w w' dev s u f = ground (arith, u)
  runs_forget now token title body (ok response) w w' dev s u f = ground (arith, s, u, f, dev)

  token-assign :
      (now : ℕ) (r : Fields)
      → get "pushNotificationToken" (assign r (put "updatedAt" (num now) (with_token "")))
        ≡ some (str "")
  unfolding assign put
  token-assign now r =
      get-put "updatedAt" "pushNotificationToken" (num now) (put "pushNotificationToken" (str "") r)
      ∙ get-put "pushNotificationToken" "pushNotificationToken" (str "") r

  -- Sending a push message never throws. If Firebase answers that it does not know the token, the
  -- token in the record of the first user who has it is replaced by an empty one, and neither an event
  -- nor a mail is added; whatever else Firebase answers or throws, nothing changes.
  -- What is assumed is that the adapter stores updates, that it is not the development environment,
  -- and that a user is found by the token and by the identifier of the record.
  pub unknown_token_forgotten :
      (updates : StoresUpdates A) (now : ℕ) (token title body : String) (u r : Fields)
      (w : World Db)
      → X.development ≡ false
      → A.find_by (with_token token) none w.db ≡ ok (some u)
      → A.find_by_id (id_of (populated u)) none w.db ≡ ok (some r)
      → (d : Db) × (q : Fields) × (send_message now token title body w
          ≡ (ok tt, if is_unknown (submit token title body) then record w { db = d } else w))
        × (A.find_by_id (id_of (populated u)) none d ≡ ok (some q))
        × (get "pushNotificationToken" q ≡ some (str ""))
  unknown_token_forgotten updates now token title body u r w dev f g =
      let (d, e, h) = forgotten updates now token u r w f g in
      (
        d,
        assign r (put "updatedAt" (num now) (with_token "")),
        elim (Bool-cases (is_unknown (submit token title body))) [
          | inl i ↦ runs_forget now token title body _ w _ dev refl i e ∙ ground (arith, i)
          | inr i ↦ kept_otherwise now token title body _ w refl i ∙ ground (arith, i)
        ],
        h,
        token-assign now r,
      )
