-- ===== src/Streams/Reconnection.antt =====
-- How long lost connections are waited for.
use startup_api.Base.{ℕ, zero, suc, ◌*◌, ◌^◌, ◌≤◌, min, ◌≡◌, arith}
use startup_api.Streams.{reconnection_delay, max_reconnection_delay}

pow_pos : (n : ℕ) → 1 ≤ 2 ^ n
pow_pos zero = omega arith
pow_pos (suc n) = omega (arith, pow_pos n)

-- The waits are between ten seconds and a minute.
abbrev pub InBounds : ℕ → Type 0
InBounds d = (10000 ≤ d) × (d ≤ 60000)

-- The wait doubles with each failure until it is a minute.
pub delay_doubles :
    (n : ℕ) → reconnection_delay (suc n) ≡ min (2 * reconnection_delay n) max_reconnection_delay
unfolding reconnection_delay
delay_doubles n = omega (arith, pow_pos n)
