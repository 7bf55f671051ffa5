-- ===== src/Base/Exec.antt =====
-- Asynchronous methods that mutate a state and may throw: what was written before a throw stays
-- written, so the state comes back beside the error too. Also providers/errors.
use Prim.Native.Nat.{ℕ}
use Prim.Native.String.{String}
use mathlib.Core.Bool.{Bool}
use mathlib.Core.Path.{◌≡◌, refl}
use mathlib.Core.Logic.{◌⊎◌, inl, inr}
use text.Mathlib.Text.{◌==◌ as str_eq}
use startup_api.Base.Tests.{◌==◌, if◌then◌else◌}

-- A text of the code, or a phrase of the translation files under its context and its key, with the
-- value that is put into it if there is one.
pub data Message : Type 0 where
  literal : String → Message
  phrase : String → String → Message
  phrase_with : String → String → String → Message

-- `plain` is a bare `Error`, `application` an `ApplicationError` with its status code.
pub data Error : Type 0 where
  plain : Message → Error
  application : ℕ → Message → Error

abbrev pub message : Error → Message
message (plain m) = m
message (application s m) = m

abbrev or_generic : Message → Message
or_generic (literal s) = if str_eq s "" then phrase "error" "genericError" else literal s
or_generic (phrase c k) = phrase c k
or_generic (phrase_with c k v) = phrase_with c k v

abbrev pub application_error : Message → ℕ → Error
application_error m status = application (if status == 0 then 500 else status) (or_generic m)

abbrev pub bad_request : Message → Error
bad_request m = application_error m 400

abbrev pub unauthorized : Message → Error
unauthorized m = application_error m 401

abbrev pub forbidden : Message → Error
forbidden m = application_error m 403

abbrev pub not_found : Message → Error
not_found m = application_error m 404

abbrev pub conflict : Message → Error
conflict m = application_error m 409

abbrev pub internal_server_error : Message → Error
internal_server_error m = application_error m 500

pub data Result {ℓ} (A : Type ℓ) : Type ℓ where
  ok : A → Result A
  err : Error → Result A

abbrev pub Exec {ℓ} : Type ℓ → Type ℓ → Type ℓ
Exec S A = S → Result A × S

module _ {ℓ} {S A : Type ℓ} where
  abbrev pub pure : A → Exec S A
  pure a s = (ok a, s)

  abbrev pub raise : Error → Exec S A
  raise e s = (err e, s)

  abbrev pub lift : Result A → Exec S A
  lift r s = (r, s)

  abbrev pub gets : (S → A) → Exec S A
  gets f s = (ok (f s), s)

  -- `try { m } catch (e) { h e }`
  abbrev pub catch_with : Exec S A → (Error → Exec S A) → Exec S A
  catch_with m h s = let (r, s') = m s in elim r [ ok a ↦ (ok a, s') | err e ↦ h e s' ]

module _ {ℓ} {S A B : Type ℓ} where
  infixl 5 ◌>>=◌
  abbrev pub ◌>>=◌ : Exec S A → (A → Exec S B) → Exec S B
  ◌>>=◌ m f s = let (r, s') = m s in elim r [ ok a ↦ f a s' | err e ↦ (err e, s') ]

  infixl 5 ◌>>◌
  abbrev pub ◌>>◌ : Exec S A → Exec S B → Exec S B
  m >> k = m >>= λ _. k

  -- `try { m } finally { f }`: what `f` throws replaces what `m` returns or throws.
  abbrev pub finally_do : Exec S A → Exec S B → Exec S A
  finally_do m f s =
      let (r, s') = m s in let (q, s'') = f s' in elim q [ ok _ ↦ (r, s'') | err e ↦ (err e, s'') ]

abbrev pub modify {ℓ} : {S : Type ℓ} → (S → S) → S → Result (Unit {ℓ}) × S
modify f s = (ok tt, f s)

abbrev pub raise_if {ℓ} : {S : Type ℓ} → Bool → Error → S → Result (Unit {ℓ}) × S
raise_if b e s = (if b then err e else ok tt, s)

pub result_cases :
    {A : Type 0} (r : Result A) → ((a : A) × (r ≡ ok a)) ⊎ ((e : Error) × (r ≡ err e))
result_cases (ok a) = inl (a, refl)
result_cases (err e) = inr (e, refl)
