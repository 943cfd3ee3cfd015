-- ===== src/Agentcore/Retry.antt =====
-- agentcore/retry.go, `retryDelay`: the wait before a retry. An int64 is its residue modulo 2 ^ 64,
-- and is negative from 2 ^ 63 on.
pub mod Backoff
mod Tests
use covonaut.Base.{ℕ, zero, suc, ◌-◌, ◌*◌, ◌%◌, ◌&&◌, Bool, ltb, if◌then◌else◌, ℤ, pos, negsuc}

pub record RetryConfig : Type 0 where
  pub base_delay_ms : ℤ
  pub max_delay_ms : ℤ

abbrev pub word : ℕ
word = 18446744073709551616

abbrev pub half_word : ℕ
half_word = 9223372036854775808

-- `if d <= 0 { d = default }`
abbrev pub positive_or : ℕ → ℤ → ℕ
positive_or default (pos zero) = default
positive_or default (pos (suc n)) = suc n
positive_or default (negsuc n) = default

-- `a > b`, for `b` that is not negative.
abbrev pub exceeds : ℕ → ℕ → Bool
exceeds a b = ltb a half_word && ltb b a

-- The loop that doubles the delay `rounds` times, up to the limit.
unfoldable pub double_delay : ℕ → ℕ → ℕ → ℕ
double_delay limit zero delay = delay
double_delay limit (suc rounds) delay =
    let doubled = delay * 2 % word in
    let rest = double_delay limit rounds doubled in if exceeds doubled limit then limit else rest

abbrev pub rounds_of : ℤ → ℕ
rounds_of (pos n) = n - 1
rounds_of (negsuc n) = 0

-- The delay in nanoseconds.
unfoldable pub retry_delay : ℤ → RetryConfig → ℕ
retry_delay attempt cfg =
    let limit = positive_or 30000 cfg.max_delay_ms in
    double_delay limit (rounds_of attempt) (positive_or 1000 cfg.base_delay_ms) * 1000000 % word
