-- ===== src/Server/Tracking.antt =====
-- src/providers/analytics/NewRelic.ts: a callback that runs inside a transaction, or without one.
use startup_api.Base.{
  ℕ, String, Bool, true, false, ◌||◌, Option, none, some, List, ◌∷◌, if◌then◌else◌,
}
use startup_api.Base.Exec.{Error, Result, err}

-- What the call of a callback gives: it throws at once, or returns a promise with this outcome.
pub data Called (A : Type 0) : Type 0 where
  throws : Error → Called A
  promises : Result A → Called A

-- What is left of a promise: `none` if it is never settled.
abbrev pub Settled : Type 0 → Type 0
Settled A = Option (Result A)

-- `resolve(callback())` in the function that makes the promise: what is thrown there is lost, since
-- that function is asynchronous.
abbrev pub direct : {A : Type 0} → Called A → Settled A
direct (throws e) = none
direct (promises r) = some r

-- `try { resolve(await callback()) } catch (e) { reject(e) }`
abbrev pub awaited : {A : Type 0} → Called A → Settled A
awaited (throws e) = some (err e)
awaited (promises r) = some r

-- `sampled` says that the random number is within the rate of the samples.
module _ (unit_test sampled : Bool) where
  unfoldable pub track_transaction : {S A : Type 0} → Bool → (S → Called A × S) → S → Settled A × S
  track_transaction skip_tracking callback s =
      let (c, s') = callback s in
      elim (unit_test || skip_tracking) [
        | true ↦ (direct c, s')
        | false ↦ elim sampled [ true ↦ (awaited c, s') | false ↦ (direct c, s') ]
      ]

-- Metrics by their whole name, the last one first.
unfoldable pub track_metric : Bool → String → ℕ → List (String × ℕ) → List (String × ℕ)
track_metric unit_test name value metrics = if unit_test then metrics else (name, value) ∷ metrics
