-- ===== src/Agentcore/Retry/Backoff.antt =====
-- agentcore/retry.go, `retryDelay`: the delay is the exponential one, cut at the limit.
use Prim.Native.Nat.{min}
use native.Mathlib.Numerals.{unary_clauses}
use covonaut.Base.{
  ℕ, zero, suc, ◌-◌, ◌*◌, ◌%◌, ◌^◌, ◌≤◌, ◌<◌, ◌≡◌, sym, ◌∙◌, ap, arith, Bool-cases, inl, inr, pos,
}
use covonaut.Agentcore.Retry.{
  RetryConfig, word, half_word, positive_or, exceeds, double_delay, retry_delay,
}

power_pos : (k : ℕ) → 1 ≤ 2 ^ k
power_pos zero = omega arith
power_pos (suc k) = omega (arith, power_pos k)

mul_le : (a b : ℕ) → 1 ≤ b → a ≤ a * b
mul_le a zero h = absurd (omega arith)
mul_le a (suc b) h = omega arith

power_suc : (d k : ℕ) → d * 2 ^ suc k ≡ d * 2 * 2 ^ k
power_suc d k = simp unary_clauses (grind arith)

double_delay-min :
    (limit rounds delay : ℕ)
    → delay ≤ limit
    → limit * 2 < half_word
    → double_delay limit rounds delay ≡ min (delay * 2 ^ rounds) limit
unfolding double_delay
double_delay-min limit zero delay h f = omega arith
double_delay-min limit (suc rounds) delay h f =
    let exact : delay * 2 % word ≡ delay * 2 = omega arith in
    elim (Bool-cases (exceeds (delay * 2) limit)) [
      | inl over ↦
          let above : limit < delay * 2 = ground arith in
          rw (exact, over)
            (omega
              (arith, power_suc delay rounds, mul_le (delay * 2) (2 ^ rounds) (power_pos rounds)))
      | inr within ↦
          let below : delay * 2 ≤ limit = ground arith in
          rw (exact, within)
            (double_delay-min limit rounds (delay * 2) below f
              ∙ ap (λ k. min k limit) (sym (power_suc delay rounds)))
    ]

min-le : (a b : ℕ) → min a b ≤ b
min-le a b = omega arith

-- If the base delay is within the limit, and the limit is below 2 ^ 63 nanoseconds, the delay before
-- an attempt is the base delay, doubled for each attempt but the first, and at most the limit.
pub retry_delay-min :
    (attempt : ℕ) (cfg : RetryConfig)
    → positive_or 1000 cfg.base_delay_ms ≤ positive_or 30000 cfg.max_delay_ms
    → positive_or 30000 cfg.max_delay_ms * 1000000 < half_word
    → retry_delay (pos attempt) cfg
      ≡ min
          (positive_or 1000 cfg.base_delay_ms * 2 ^ (attempt - 1))
          (positive_or 30000 cfg.max_delay_ms)
        * 1000000
unfolding retry_delay
retry_delay-min attempt cfg h f =
    let base = positive_or 1000 cfg.base_delay_ms in
    let limit = positive_or 30000 cfg.max_delay_ms in
    let delay = double_delay-min limit (attempt - 1) base h (omega arith) in
    ap (λ d. d * 1000000 % word) delay
    ∙ exact (min (base * 2 ^ (attempt - 1)) limit) limit (min-le (base * 2 ^ (attempt - 1)) limit) f
  where
    exact : (d l : ℕ) → d ≤ l → l * 1000000 < half_word → d * 1000000 % word ≡ d * 1000000
    exact d l a b = omega arith

-- If the base delay exceeds the limit, and is below 2 ^ 63 nanoseconds, the delay before the first
-- attempt exceeds the limit as well.
pub retry_delay-uncapped :
    (cfg : RetryConfig)
    → positive_or 30000 cfg.max_delay_ms < positive_or 1000 cfg.base_delay_ms
    → positive_or 1000 cfg.base_delay_ms * 1000000 < half_word
    → positive_or 30000 cfg.max_delay_ms * 1000000 < retry_delay (pos 1) cfg
unfolding retry_delay double_delay
retry_delay-uncapped cfg h f =
    let exact : positive_or 1000 cfg.base_delay_ms * 1000000 % word
        ≡ positive_or 1000 cfg.base_delay_ms * 1000000 =
      omega arith in
    rw exact (omega arith)
