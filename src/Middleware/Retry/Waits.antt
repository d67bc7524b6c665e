-- ===== src/Middleware/Retry/Waits.antt =====
-- llms/middleware/retry.go: the configuration and the backoff.
use maestro_llms.Base.{◌≡◌, false, arith}
use maestro_llms.Base.Int.{ℤ, pos, ◌≤ℤ◌, ◌<ℤ◌, min_ℤ}
use maestro_llms.Base.Float.{Float}
use maestro_llms.Llms.Errors.{GoError, retry_after}
use maestro_llms.Middleware.Retry.{RetryConfig, normalized, wait_of}

module _ (fl : Float) where
  open fl use {F, of_int, is_nan, is_inf, lt, le, ratio}

  -- What IEEE 754 says of the constants 0, 1 and 2.
  pub record Constants : Type 0 where
    pub zero_number : (is_nan (of_int (pos 0)) ≡ false) × (is_inf (of_int (pos 0)) ≡ false)
    pub one_number : (is_nan (of_int (pos 1)) ≡ false) × (is_inf (of_int (pos 1)) ≡ false)
    pub two_number :
        (is_nan (ratio (pos 2) (pos 1)) ≡ false) × (is_inf (ratio (pos 2) (pos 1)) ≡ false)
    pub zero_zero : lt (of_int (pos 0)) (of_int (pos 0)) ≡ false
    pub one_zero : lt (of_int (pos 1)) (of_int (pos 0)) ≡ false
    pub one_one : lt (of_int (pos 1)) (of_int (pos 1)) ≡ false
    pub two_one : lt (ratio (pos 2) (pos 1)) (of_int (pos 1)) ≡ false

  -- Whatever a config holds, NaN and infinities included, `normalized` leaves at least one attempt,
  -- positive delays, a factor that is a finite number and not below 1, and a jitter that is a finite
  -- number, not below 0 and not above 1.
  pub normalized_usable :
      Constants
      → (c : RetryConfig fl)
      → let n = normalized fl c in
        (pos 1 ≤ℤ n.max_attempts)
        × (pos 1 ≤ℤ n.initial_delay)
        × (pos 1 ≤ℤ n.max_delay)
        × (is_nan n.backoff_factor ≡ false)
        × (is_inf n.backoff_factor ≡ false)
        × (lt n.backoff_factor (of_int (pos 1)) ≡ false)
        × (is_nan n.jitter ≡ false)
        × (is_inf n.jitter ≡ false)
        × (lt n.jitter (of_int (pos 0)) ≡ false)
        × (lt (of_int (pos 1)) n.jitter ≡ false)
  unfolding normalized
  normalized_usable k c = ground (arith, k.zero_number, k.one_number, k.two_number)

  -- A backoff is never longer than MaxDelay; a provider's or limiter's hint up to MaxDelay is waited
  -- for in full; and it is positive where the delay and MaxDelay are.
  pub wait_of_bounds :
      (cfg : RetryConfig fl) (delay : ℤ) (err : GoError)
      → pos 0 <ℤ delay
      → pos 0 <ℤ cfg.max_delay
      → let wait = wait_of fl cfg delay err in
        (pos 0 <ℤ wait)
        × (wait ≤ℤ cfg.max_delay)
        × (min_ℤ (retry_after err) cfg.max_delay ≤ℤ wait)
        × (min_ℤ delay cfg.max_delay ≤ℤ wait)
  unfolding wait_of
  wait_of_bounds cfg delay err d m = ground arith
