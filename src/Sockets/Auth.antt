-- ===== src/Sockets/Auth.antt =====
-- Who may open a socket: src/providers/middlewares/SocketIOAuthMiddleware.ts and
-- GeckosAuthMiddleware.ts, for the two kinds of socket servers.
use Prim.Native.String.{◌++◌}
use startup_api.Base.{
  ℕ, String, ◌≡◌, refl, Bool, true, false, Option, none, some, List, [], ◌∷◌, str_eq, if◌then◌else◌,
  or_else, is_some, arith,
}
use mathlib.Core.List.{◌++◌ as append}
use startup_api.Base.Texts.{split}
use startup_api.Base.Value.{Fields, end, get}
use startup_api.Base.Exec.{Result, ok, err}
use startup_api.Repository.Database.{Adapter, FindOptions}
use startup_api.Repository
use startup_api.Accounts.World.{entry, text_at}

abbrev pub space : ℕ
space = 32

abbrev second : List String → Option String
second [] = none
second (a ∷ []) = none
second (a ∷ b ∷ rest) = some b

-- `token.split(" ")[1]`
unfoldable pub bearer : String → Option String
bearer s = second (split space s)

abbrev pub is_missing : Option String → Bool
is_missing none = true
is_missing (some t) = str_eq t ""

-- The calls of `next`, with an error or without.
pub data Next : Type 0 where
  refuses passes : Next

-- The calls in their order, and what `userData` is set to, if it is.
pub record Outcome : Type 0 where
  pub calls : List Next
  pub user_data : Option (Option Fields)

-- How the promise of the other middleware ends: with the status 401 as its value, or as its
-- rejection, with the user, or never.
pub data Reply : Type 0 where
  unauthorized_value rejected unsettled : Reply
  user : Fields → Reply

abbrev by_email_of : Fields → Fields
by_email_of payload = entry "email" (get "email" payload) end

abbrev cached_by_email : Fields → FindOptions
cached_by_email payload = record {
  select = none;
  populate = [];
  virtuals = true;
  defaults = true;
  cache_key = some ("user-" ++ or_else (text_at "email" payload) "undefined");
  limit = none;
  hide_sensitive_fields = none;
}

abbrev pub lets_in : List Next → Bool
lets_in [] = false
lets_in (refuses ∷ ns) = lets_in ns
lets_in (passes ∷ ns) = true

abbrev pub admits : Reply → Bool
admits (user u) = true
admits _ = false

abbrev pub returns : {R : Type 0} → Result R → Bool
returns (ok a) = true
returns (err e) = false

abbrev pub finds : {R : Type 0} → Result (Option R) → Bool
finds (ok o) = is_some o
finds (err e) = false

-- `verify` is jsonwebtoken's: a payload, or an error without one. What an asynchronous callback throws
-- is lost, as where it reads the address of the missing payload.
module _ (verify : Option String → Option Fields) ⦃A : Adapter⦄ where
  abbrev search : Fields → A.Db → Result (Option Fields)
  search payload d = (Repository.find_by (by_email_of payload) (some (cached_by_email payload)) d).0

  unfoldable pub socket_io_auth : String → A.Db → Outcome
  socket_io_auth auth d =
      let first : List Next = if is_missing (bearer auth) then refuses ∷ [] else [] in
      elim (verify (bearer auth)) [
        | none ↦ record { calls = first; user_data = none }
        | some payload ↦ elim (search payload d) [
          | err e ↦ record { calls = first; user_data = none }
          | ok none ↦ record { calls = append first (refuses ∷ passes ∷ []); user_data = some none }
          | ok (some u) ↦ record { calls = append first (passes ∷ []); user_data = some (some u) }
        ]
      ]

  unfoldable pub geckos_auth : Option String → A.Db → Reply
  geckos_auth none d = unauthorized_value
  geckos_auth (some auth) d =
      if is_missing (bearer auth) then unauthorized_value else elim (verify (bearer auth)) [
        | none ↦ unsettled
        | some payload ↦ elim (Repository.find_by (by_email_of payload) none d).0 [
          | err e ↦ unsettled
          | ok none ↦ rejected
          | ok (some u) ↦ user u
        ]
      ]

  io_found :
      (auth : String) (payload : Fields) (o : Result (Option Fields)) (d : A.Db)
      → verify (bearer auth) ≡ some payload
      → search payload d ≡ o
      → lets_in (socket_io_auth auth d).calls ≡ returns (search payload d)
  unfolding socket_io_auth
  io_found auth payload (ok none) d v s = ground (arith, v, s)
  io_found auth payload (ok (some u)) d v s = ground (arith, v, s)
  io_found auth payload (err e) d v s = ground (arith, v, s)

  io_at :
      (auth : String) (p : Option Fields) (d : A.Db)
      → verify (bearer auth) ≡ p
      → lets_in (socket_io_auth auth d).calls
        ≡ elim p [ none ↦ false | some payload ↦ returns (search payload d) ]
  unfolding socket_io_auth
  io_at auth none d v = ground (arith, v)
  io_at auth (some payload) d v = io_found auth payload (search payload d) d v refl

  geckos_found :
      (auth : String) (payload : Fields) (o : Result (Option Fields)) (d : A.Db)
      → is_missing (bearer auth) ≡ false
      → verify (bearer auth) ≡ some payload
      → (Repository.find_by (by_email_of payload) none d).0 ≡ o
      → admits (geckos_auth (some auth) d)
        ≡ finds (Repository.find_by (by_email_of payload) none d).0
  unfolding geckos_auth
  geckos_found auth payload (ok none) d m v s = ground (arith, m, v, s)
  geckos_found auth payload (ok (some u)) d m v s = ground (arith, m, v, s)
  geckos_found auth payload (err e) d m v s = ground (arith, m, v, s)

  geckos_at :
      (auth : String) (p : Option Fields) (d : A.Db)
      → is_missing (bearer auth) ≡ false
      → verify (bearer auth) ≡ p
      → admits (geckos_auth (some auth) d) ≡ elim p [
        | none ↦ false
        | some payload ↦ finds (Repository.find_by (by_email_of payload) none d).0
      ]
  unfolding geckos_auth
  geckos_at auth none d m v = ground (arith, m, v)
  geckos_at auth (some payload) d m v = geckos_found auth payload _ d m v refl

  -- For a request that has a token: the one server opens the socket exactly if the token is verified
  -- and the search for its user does not throw, whether or not there is such a user; the other exactly
  -- if the token is verified and the search finds its user.
  pub socket_admission :
      (auth : String) (d : A.Db)
      → is_missing (bearer auth) ≡ false
      → (lets_in (socket_io_auth auth d).calls ≡ elim (verify (bearer auth)) [
        | none ↦ false
        | some payload ↦ returns (search payload d)
      ])
        × (admits (geckos_auth (some auth) d) ≡ elim (verify (bearer auth)) [
          | none ↦ false
          | some payload ↦ finds (Repository.find_by (by_email_of payload) none d).0
        ])
  socket_admission auth d m =
      (io_at auth (verify (bearer auth)) d refl, geckos_at auth (verify (bearer auth)) d m refl)
