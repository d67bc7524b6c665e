-- ===== src/Bucket/Limits.antt =====
-- bucket/bucket.go: the limits of a key.
use maestro_llms.Base.{Bool, true, ◌||◌, Option, none, some, if◌then◌else◌}
use maestro_llms.Base.Int.{ℤ, pos, ltb_ℤ, leb_ℤ, max_ℤ, max_int, ◌≤ℤ◌}
use maestro_llms.Base.Float.{Float}
use maestro_llms.Base.{◌≡◌, arith}

-- The errors of `Limits.Validate`.
pub data BadLimits : Type 0 where
  tokens_negative concurrency_negative factor_not_finite factor_negative capacity_overflows :
      BadLimits

module _ (fl : Float) where
  open fl use {F, of_int, to_int, times, over, lt, le, is_nan, is_inf, ratio}

  pub record Limits : Type 0 where
    pub tokens_per_minute : ℤ
    pub max_concurrency : ℤ
    pub buffer_factor : F

  -- `DefaultBufferFactor`.
  abbrev pub default_buffer_factor : F
  default_buffer_factor = ratio (pos 9) (pos 10)

  -- `Limits.EffectiveBufferFactor`.
  unfoldable pub effective_buffer_factor : Limits → F
  effective_buffer_factor l =
      if le l.buffer_factor (of_int (pos 0)) then default_buffer_factor else l.buffer_factor

  -- `maxCapacity`.
  abbrev pub max_capacity : F
  max_capacity = of_int max_int

  -- `Limits.Validate`: the error, or none.
  unfoldable pub validate : Limits → Option BadLimits
  unfolding effective_buffer_factor
  validate l =
      if ltb_ℤ l.tokens_per_minute (pos 0)
      then some BadLimits.tokens_negative
      else if ltb_ℤ l.max_concurrency (pos 0)
      then some BadLimits.concurrency_negative
      else if is_nan l.buffer_factor || is_inf l.buffer_factor
      then some BadLimits.factor_not_finite
      else if lt l.buffer_factor (of_int (pos 0))
      then some BadLimits.factor_negative
      else if le max_capacity (times (of_int l.tokens_per_minute) (effective_buffer_factor l))
      then some BadLimits.capacity_overflows
      else none

  -- `Limits.Capacity`.
  unfoldable pub capacity : Limits → ℤ
  unfolding effective_buffer_factor
  capacity l =
      if leb_ℤ l.tokens_per_minute (pos 0)
      then pos 0
      else max_ℤ (pos 1) (to_int (times (of_int l.tokens_per_minute) (effective_buffer_factor l)))

  -- `Limits.TokenLimited` and `Limits.SlotLimited`.
  unfoldable pub token_limited : Limits → Bool
  token_limited l = ltb_ℤ (pos 0) l.tokens_per_minute

  unfoldable pub slot_limited : Limits → Bool
  slot_limited l = ltb_ℤ (pos 0) l.max_concurrency

  -- `Limits.RefillPerSecond`.
  unfoldable pub refill_per_second : Limits → F
  refill_per_second l = over (of_int l.tokens_per_minute) (of_int (pos 60))

  -- A limit that counts tokens has room for at least one: the bucket is never switched off by
  -- rounding.
  pub token_limited-capacity : (l : Limits) → token_limited l ≡ true → pos 1 ≤ℤ capacity l
  unfolding token_limited capacity
  token_limited-capacity l h = ground arith
