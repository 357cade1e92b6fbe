-- ===== src/Runtime/Backoff.antt =====
-- common/backoff.py: `RetryPolicy`. Seconds are whole microseconds, and the factor and the jitter
-- are thousandths: `factor = 2000` is the factor 2, `jitter = 200` is 20 %. The random number is the
-- argument `drawn`, in thousandths too; a division rounds down.
use native.Mathlib.Nat.{le_trans, mul-le-mul_left, mul-le-mul_right}
use avengers_fyp_is.Common.{
  ℕ, ◌+◌, ◌-◌, ◌*◌, ◌/◌, ◌^◌, ◌≤◌, ◌<◌, Option, none, some, arith, min, max,
}

pub record RetryPolicy : Type 0 where
  pub base : ℕ
  pub factor : ℕ
  pub cap : ℕ
  pub jitter : ℕ
  pub max_attempts : ℕ

-- The power is exact. The code's `**` on floats raises `OverflowError` from 2 ^ 1024 on, which with the
-- factor 2 is the 1025th attempt; below that the power is a float.
unfoldable pub HasFloatPower : RetryPolicy → ℕ → Type 0
HasFloatPower p attempt = p.factor ^ (attempt - 1) < 2 ^ 1024 * 1000 ^ (attempt - 1)

-- The delay for an attempt whose power is a float; for a later one the code raises.
unfoldable pub raw_delay : RetryPolicy → ℕ → ℕ
raw_delay p attempt = min (p.base * p.factor ^ (attempt - 1) / 1000 ^ (attempt - 1)) p.cap

abbrev pub at_least : Option ℕ → ℕ → ℕ
at_least none jittered = jittered
at_least (some wait) jittered = max jittered wait

unfoldable pub delay_for_attempt : RetryPolicy → ℕ → Option ℕ → ℕ → ℕ
delay_for_attempt p attempt retry_after drawn =
    at_least retry_after (raw_delay p attempt * drawn / 1000)

-- What `random.uniform(1 - jitter, 1 + jitter)` may return.
abbrev pub IsDrawn : RetryPolicy → ℕ → Type 0
IsDrawn p drawn = (1000 - p.jitter ≤ drawn) × (drawn ≤ 1000 + p.jitter)

abbrev pub wait_of : Option ℕ → ℕ
wait_of none = 0
wait_of (some wait) = wait

pub raw_delay-le-cap : (p : RetryPolicy) (attempt : ℕ) → raw_delay p attempt ≤ p.cap
unfolding raw_delay
raw_delay-le-cap p attempt = omega arith

mul_mono : (a b c d : ℕ) → a ≤ b → c ≤ d → a * c ≤ b * d
mul_mono a b c d h k = le_trans (mul-le-mul_left a k) (mul-le-mul_right d h)

scaled_mono : (a b c d : ℕ) → a ≤ b → c ≤ d → a * c / 1000 ≤ b * d / 1000
scaled_mono a b c d h k = omega (arith, mul_mono a b c d h k)

-- A delay is never shorter than the server's Retry-After, and otherwise lies within the jitter's
-- band around a value of at most `cap`.
pub delay_bounds :
    (p : RetryPolicy) (attempt drawn : ℕ) (retry_after : Option ℕ)
    → IsDrawn p drawn
    → (wait_of retry_after ≤ delay_for_attempt p attempt retry_after drawn)
      × (raw_delay p attempt * (1000 - p.jitter) / 1000
          ≤ delay_for_attempt p attempt retry_after drawn)
      × (delay_for_attempt p attempt retry_after drawn
          ≤ max (p.cap * (1000 + p.jitter) / 1000) (wait_of retry_after))
unfolding delay_for_attempt
delay_bounds p attempt drawn retry_after h =
    let raw = raw_delay p attempt in
    bounded retry_after (scaled_mono raw raw (1000 - p.jitter) drawn (omega arith) h.0)
      (scaled_mono raw p.cap drawn (1000 + p.jitter) (raw_delay-le-cap p attempt) h.1)
  where
    bounded :
        {lo mid hi : ℕ} (r : Option ℕ)
        → lo ≤ mid
        → mid ≤ hi
        → (wait_of r ≤ at_least r mid)
          × (lo ≤ at_least r mid)
          × (at_least r mid ≤ max hi (wait_of r))
    bounded none a b = (omega arith, omega arith, omega arith)
    bounded (some wait) a b = (omega arith, omega arith, omega arith)
