-- ===== src/Middleware/Retry.antt =====
-- llms/middleware/retry.go and attempt.go: the retry loop. `W` is the world outside: the wrapped
-- client, the timers, the random numbers and the caller's context. An attempt's number stands for
-- the context that carries it.
pub mod Attempts
pub mod Waits
use maestro_llms.Base.{
  ℕ, zero, suc, Bool, true, false, not, ◌&&◌, ◌||◌, Option, none, some, if◌then◌else◌,
}
use maestro_llms.Base.Int.{ℤ, pos, ltb_ℤ, leb_ℤ, eqb_ℤ, min_ℤ, max_ℤ, add64}
use maestro_llms.Base.Float.{Float}
use maestro_llms.Llms.Errors.{GoError, is_nil, retryable, retry_after}

module _ (fl : Float) where
  open fl use {F, of_int, to_int, plus, minus, times, lt, le, is_nan, is_inf, ratio}

  pub record RetryConfig : Type 0 where
    pub max_attempts : ℤ
    pub initial_delay : ℤ
    pub max_delay : ℤ
    pub backoff_factor : F
    pub jitter : F

  -- `DefaultRetryConfig`.
  unfoldable pub default_retry_config : RetryConfig
  default_retry_config = record {
    max_attempts = pos 5;
    initial_delay = pos 1000000000;
    max_delay = pos 30000000000;
    backoff_factor = ratio (pos 2) (pos 1);
    jitter = ratio (pos 1) (pos 10);
  }

  -- `RetryConfig.normalized`.
  unfoldable pub normalized : RetryConfig → RetryConfig
  unfolding default_retry_config
  normalized c = record {
    max_attempts = if ltb_ℤ c.max_attempts (pos 1) then pos 5 else c.max_attempts;
    initial_delay = if leb_ℤ c.initial_delay (pos 0) then pos 1000000000 else c.initial_delay;
    max_delay = if leb_ℤ c.max_delay (pos 0) then pos 30000000000 else c.max_delay;
    backoff_factor =
        if is_nan c.backoff_factor
          || (is_inf c.backoff_factor || lt c.backoff_factor (of_int (pos 1)))
        then default_retry_config.backoff_factor
        else c.backoff_factor;
    jitter =
        if is_nan c.jitter || (is_inf c.jitter || lt c.jitter (of_int (pos 0)))
        then of_int (pos 0)
        else if lt (of_int (pos 1)) c.jitter
        then of_int (pos 1)
        else c.jitter;
  }

  -- The backoff before the next attempt: the larger of the delay and the hint, capped.
  unfoldable pub wait_of : RetryConfig → ℤ → GoError → ℤ
  wait_of cfg delay err =
      min_ℤ (if ltb_ℤ delay (retry_after err) then retry_after err else delay) cfg.max_delay

  -- The next delay.
  unfoldable pub next_delay : RetryConfig → ℤ → ℤ
  next_delay cfg delay = min_ℤ (to_int (times (of_int delay) cfg.backoff_factor)) cfg.max_delay

  module _ {W : Type 0} (random : W → F × W) where
    -- `jittered`, with rand.Float64() as `random`.
    unfoldable pub jittered : ℤ → F → W → ℤ × W
    jittered d frac w =
        if le frac (of_int (pos 0))
        then (d, w)
        else let (r, w') = random w in
          let delta = times (minus (times r (of_int (pos 2))) (of_int (pos 1))) frac in
          (max_ℤ (to_int (times (of_int d) (plus (of_int (pos 1)) delta))) (pos 0), w')

    module _ {Resp : Type 0} (cfg : RetryConfig) (zero_resp : Resp)
        (call : ℤ → W → Resp × GoError × W) (sleep : ℤ → W → GoError × W) where
      -- The loop of `retry` from `attempt` on, on fuel: `none` means that the fuel ran out. The
      -- `select` is `sleep`, which returns ctx.Err() if the context is done first, and nil otherwise.
      unfoldable pub retry_from : ℕ → ℤ → ℤ → W → Option (Resp × GoError × W)
      retry_from zero attempt delay w = none
      retry_from (suc fuel) attempt delay w =
          let (resp, err, w1) = call attempt w in
          let (wait, w2) = jittered (wait_of cfg delay err) cfg.jitter w1 in
          let (ended, w3) = sleep wait w2 in
          let rest = retry_from fuel (add64 attempt (pos 1)) (next_delay cfg delay) w3 in
          if is_nil err || not (retryable err)
          then some (resp, err, w1)
          else if eqb_ℤ attempt cfg.max_attempts
          then some (resp, err, w1)
          else if not (is_nil ended)
          then some (zero_resp, ended, w3)
          else rest

      -- `retry`, for a config with at least one attempt.
      unfoldable pub retry : ℕ → W → Option (Resp × GoError × W)
      retry fuel w = retry_from fuel (pos 1) cfg.initial_delay w
