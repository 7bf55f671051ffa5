-- ===== src/Server/Limits.antt =====
-- src/providers/middlewares/RateLimitMiddleware.ts: which requests are counted, and how many are
-- allowed in which time. The counting is that of the library.
use Prim.Native.String.{◌++◌}
use startup_api.Base.{
  ℕ, zero, suc, ◌*◌, String, ◌≡◌, Bool, true, ◌||◌, Option, none, some, if◌then◌else◌, arith,
  str_eq,
}
use startup_api.Base.Texts.{includes_text, includes_text-append}

-- The time in milliseconds, the number of requests, and what the others are told.
pub record Limit : Type 0 where
  pub window_ms : ℕ
  pub max : ℕ
  pub message : String

pub record LimitOptions : Type 0 where
  pub window_ms : Option ℕ
  pub max : Option ℕ
  pub message : Option String

-- `n || d`
abbrev number_or : Option ℕ → ℕ → ℕ
number_or none d = d
number_or (some zero) d = d
number_or (some (suc n)) d = suc n

abbrev text_or : Option String → String → String
text_or none d = d
text_or (some s) d = if str_eq s "" then d else s

abbrev limit : ℕ → ℕ → String → LimitOptions → Limit
limit w m t o = record {
  window_ms = number_or o.window_ms w;
  max = number_or o.max m;
  message = text_or o.message t;
}

abbrev pub a_minute : String
a_minute = "Too many requests from this IP, please try again after a minute"

unfoldable pub auth_rate_limit : LimitOptions → Limit
auth_rate_limit o =
    limit (15 * 60 * 1000) 20 "Too many authentication attempts, please try again after 15 minutes"
      o

unfoldable pub default_rate_limit : LimitOptions → Limit
default_rate_limit o = limit (60 * 1000) 60 a_minute o

unfoldable pub strict_rate_limit : LimitOptions → Limit
strict_rate_limit o = limit (60 * 1000) 10 a_minute o

unfoldable pub global_rate_limit : LimitOptions → Limit
global_rate_limit o = limit (60 * 1000) 1000 a_minute o

-- The function `skip` of the global limit.
unfoldable pub skip : Bool → String → Bool
skip is_microservice ip =
    is_microservice
    || (includes_text "::ffff:" ip || includes_text "172." ip || includes_text "10." ip)

-- No limit holds for an address that has "10." or "172." anywhere, such as 110.1.2.3, nor for one that
-- the server sees as an address of the old kind mapped to the new one, as any client may be.
skips_outside :
    (is_microservice : Bool) (before behind : String)
    → (skip is_microservice (before ++ ("10." ++ behind)) ≡ true)
      × (skip is_microservice (before ++ ("172." ++ behind)) ≡ true)
      × (skip is_microservice (before ++ ("::ffff:" ++ behind)) ≡ true)
unfolding skip
skips_outside m before behind = (
  ground (arith, includes_text-append before "10." behind),
  ground (arith, includes_text-append before "172." behind),
  ground (arith, includes_text-append before "::ffff:" behind),
)
