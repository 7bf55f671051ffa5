-- ===== src/Accounts/Premium/Activation.antt =====
-- What activating and deactivating a premium account leave in the user's record.
use startup_api.Base.{
  ℕ, String, ◌≡◌, refl, ap, ◌∙◌, Bool, true, false, not, none, some, str_eq, if◌then◌else◌, arith,
  eq_refl,
}
use startup_api.Base.Value.{num, bool, str, Fields, end, field, get, put, assign, get-put}
use startup_api.Base.Exec.{ok}
use startup_api.Repository.Database.{Adapter, StoresUpdates}
use startup_api.Accounts.World.{Runtime, World, id_of}
use startup_api.Accounts.Tokens.{is_text}
use startup_api.Accounts.Rotation.{update_user_lem}
use startup_api.Accounts.Premium.{
  premium_patch, not_free, activate_user_premium_account, free_patch,
  deactivate_user_premium_account,
}

module _ (X : Runtime) ⦃A : Adapter⦄ (updates : StoresUpdates A) where
  open A use {Db}

  -- A record after the account type and the flag for manual control have been written.
  get-account :
      (k account_type : String) (manual : Bool) (now : ℕ) (r : Fields)
      → get k (
          assign r (
            put "updatedAt" (num now) (
              premium_patch account_type
                (field "isManuallyControlledPremiumAccount" (bool manual) end))))
        ≡ (if str_eq "updatedAt" k
            then some (num now)
            else if str_eq "isManuallyControlledPremiumAccount" k
            then some (bool manual)
            else if str_eq "accountType" k
            then some (str account_type)
            else get k r)
  unfolding assign put
  get-account k account_type manual now r =
      let r₁ = put "accountType" (str account_type) r in
      let r₂ = put "isManuallyControlledPremiumAccount" (bool manual) r₁ in
      ground (
        arith,
        get-put "updatedAt" k (num now) r₂,
        get-put "isManuallyControlledPremiumAccount" k (bool manual) r₁,
        get-put "accountType" k (str account_type) r,
      )

  -- Both report success for a user who has a record. After an activation, the record has the
  -- account type that was asked for and counts as premium exactly if that type is not the free
  -- one; after a deactivation of that it has the free type and does not count as premium.
  -- What is assumed is that the adapter stores updates.
  premium_round :
      (now later : ℕ) (user r : Fields) (account_type : String) (w : World Db)
      → A.find_by_id (id_of user) none w.db ≡ ok (some r)
      → (w₁ w₂ : World Db) × (r₁ r₂ : Fields) × (activate_user_premium_account X now user
            account_type
            (field "isManuallyControlledPremiumAccount" (bool true) end)
            w
          ≡ (ok true, w₁))
        × (A.find_by_id (id_of user) none w₁.db ≡ ok (some r₁))
        × (get "accountType" r₁ ≡ some (str account_type))
        × (get "isManuallyControlledPremiumAccount" r₁ ≡ some (bool true))
        × (not_free X (some r₁) ≡ not (str_eq account_type X.free_account))
        × (deactivate_user_premium_account X later (some user) w₁ ≡ (ok true, w₂))
        × (A.find_by_id (id_of user) none w₂.db ≡ ok (some r₂))
        × (get "isManuallyControlledPremiumAccount" r₂ ≡ some (bool false))
        × (not_free X (some r₂) ≡ false)
  premium_round now later user r account_type w f =
      let manual = field "isManuallyControlledPremiumAccount" (bool true) end in
      let (d, e, g) =
        update_user_lem X updates now (id_of user) (premium_patch account_type manual) r w
          (unfold get put assign in refl) f in
      let r₁ = assign r (put "updatedAt" (num now) (premium_patch account_type manual)) in
      let w₁ = record w { db = d } in
      let (d', e', g') =
        update_user_lem X updates later (id_of user) (free_patch X) r₁ w₁ (unfold get put in refl)
          g in
      let r₂ = assign r₁ (put "updatedAt" (num later) (free_patch X)) in
      let freed : get "accountType" r₂ ≡ some (str X.free_account) =
        unfold assign put in get-account "accountType" X.free_account false later r₁ in
      let kind = get-account "accountType" account_type true now r in
      (
        w₁,
        record w { db = d' },
        r₁,
        r₂,
        (unfold activate_user_premium_account in ground (arith, e)),
        g,
        kind,
        get-account "isManuallyControlledPremiumAccount" account_type true now r,
        ap (λ o. not (is_text X.free_account o)) kind,
        (unfold deactivate_user_premium_account in ground (arith, e')),
        g',
        (unfold assign put in
            get-account "isManuallyControlledPremiumAccount" X.free_account false later r₁),
        ap not (ap (is_text X.free_account) freed ∙ eq_refl X.free_account),
      )
