-- ===== src/Accounts/Login/Given.antt =====
-- The tokens that src/providers/auth/UserAuth.ts gives to a user.
use startup_api.Base.{ℕ, String, ◌≡◌, refl, Option, none, some, arith, eq_iff, if◌then◌else◌}
use startup_api.Base.Value.{Fields, end, get}
use startup_api.Base.Exec.{ok}
use startup_api.Repository.Database.{Adapter}
use startup_api.Accounts.World.{Runtime, World, entry}
use startup_api.Accounts.Tokens.{Tokens, secret, generate_access_token, generate_refresh_token}

module _ (X : Runtime) ⦃A : Adapter⦄ where
  open A use {Db}

  -- The two tokens of a user: of the identifier and the address, signed with the two secrets.
  abbrev pub TokensOf : ℕ → Fields → Tokens → Type 0
  TokensOf now user tokens =
      (key : String) × (X.jwt_secret ≡ some key)
      × (tokens.access
          ≡ X.sign now (entry "_id" (get "id" user) (entry "email" (get "email" user) end)) key
              (some (if X.development then "24h" else "20m")))
      × (tokens.refresh
          ≡ X.sign now (entry "id" (get "id" user) (entry "email" (get "email" user) end))
              X.refresh_secret none)

  key_of :
      (o : Option String) (key : String) → X.jwt_secret ≡ o → secret X ≡ some key → o ≡ some key
  key_of none key e h = ground (arith, e)
  key_of (some s) key e h = ground (arith, e, eq_iff s "")

  pub generated_for :
      (now : ℕ) (user : Fields) (tokens : Tokens) (o : Option String) (w : World Db)
      → secret X ≡ o
      → (generate_access_token X now user w).0 ≡ ok tokens
      → TokensOf now user tokens
  unfolding generate_access_token generate_refresh_token
  generated_for now user tokens none w e h = ground (arith, e)
  generated_for now user tokens (some key) w e h =
      (key, key_of X.jwt_secret key refl e, ground (arith, e, h), ground (arith, e, h))
