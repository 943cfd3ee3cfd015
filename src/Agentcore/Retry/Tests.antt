-- ===== src/Agentcore/Retry/Tests.antt =====
-- Delays of two configurations.
use Prim.Native.Nat.{min}
use covonaut.Base.{◌*◌, ◌^◌, ◌-◌, ◌<◌, ◌≡◌, refl, arith, pos, negsuc}
use covonaut.Agentcore.Retry.{RetryConfig, double_delay, retry_delay}
use covonaut.Agentcore.Retry.Backoff.{retry_delay-min, retry_delay-uncapped}

abbrev usual : RetryConfig
usual = record { base_delay_ms = pos 500; max_delay_ms = negsuc 0 }

abbrev slow : RetryConfig
slow = record { base_delay_ms = pos 60000; max_delay_ms = pos 0 }

delays-usual : (retry_delay (pos 3) usual ≡ 2000000000) × (retry_delay (pos 9) usual ≡ 30000000000)
unfolding retry_delay double_delay
delays-usual = (refl, refl)

retry_delay-min_example : retry_delay (pos 9) usual ≡ min (500 * 2 ^ (9 - 1)) 30000 * 1000000
retry_delay-min_example = retry_delay-min 9 usual (omega arith) (omega arith)

retry_delay-uncapped_example : 30000 * 1000000 < retry_delay (pos 1) slow
retry_delay-uncapped_example = retry_delay-uncapped slow (omega arith) (omega arith)
