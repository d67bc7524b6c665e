-- ===== src/Bucket/Core.antt =====
-- bucket/internal/core/core.go: the token arithmetic and the wait loop that the bucket backends
-- share. `W` is all that lies outside the loop: the contexts, the timer and the random source.
pub mod Waits
use maestro_llms.Base.{
  ℕ, zero, suc, ◌/◌, String, Bool, true, false, not, ◌&&◌, ◌||◌, Option, none, some, Result, ok,
  err, if◌then◌else◌,
}
use maestro_llms.Base.Int.{
  ℤ, pos, pos_part, ◌-ℤ◌, ltb_ℤ, leb_ℤ, min_ℤ, max_ℤ, max_int, clamp64, add64, sub64,
}
use maestro_llms.Base.Float.{Float, min_F}
use maestro_llms.Llms.Errors.{GoError, is_nil}
use maestro_llms.Bucket.Limits.{Limits, capacity, token_limited, slot_limited, refill_per_second}

-- Where the wait ended.
pub data When : Type 0 where
  before_capacity while_acquiring while_waiting : When

-- The `Reason` of a LimitError.
pub data Reason : Type 0 where
  context_done max_wait_exceeded : When → Reason
  -- the tokens asked for, and the capacity that they exceed
  never_fits : ℤ → ℤ → Reason

-- `bucket.LimitError`; a nil Cause is the nil error.
pub record LimitError : Type 0 where
  pub cause : GoError
  pub key : String
  pub reason : Reason
  pub retry_after : ℤ
  pub permanent : Bool

-- The errors of an Acquire: those in which errors.As finds a *bucket.LimitError, and all others.
pub data AcquireError : Type 0 where
  limited : LimitError → AcquireError
  other : GoError → AcquireError

module _ (fl : Float) where
  open fl use {F, of_int, to_int, plus, minus, times, over, lt, le}

  -- `now.Sub(lastRefill).Seconds()`.
  unfoldable pub seconds_between : ℤ → ℤ → F
  unfolding ◌-ℤ◌
  seconds_between last now = over (of_int (clamp64 (now -ℤ last))) (of_int (pos 1000000000))

  -- `Settle`.
  unfoldable pub settle : Limits fl → F → ℤ → ℤ → F
  unfolding seconds_between
  settle l balance last now =
      let elapsed = seconds_between last now in
      let refilled =
        if lt (of_int (pos 0)) elapsed
        then plus balance (times elapsed (refill_per_second fl l))
        else balance in
      if not (token_limited fl l) then balance else min_F fl refilled (of_int (capacity fl l))

  -- `Adjusted`.
  unfoldable pub adjusted : Limits fl → F → ℤ → ℤ → F
  unfolding sub64
  adjusted l balance charged actual =
      if not (token_limited fl l)
      then balance
      else min_F fl (minus balance (of_int (sub64 actual charged))) (of_int (capacity fl l))

  -- `RetryAfter`.
  unfoldable pub retry_after : Limits fl → F → ℤ → ℤ
  retry_after l balance tokens =
      let deficit = minus (of_int tokens) balance in
      let ns = times (over deficit (refill_per_second fl l)) (of_int (pos 1000000000)) in
      if not (token_limited fl l)
      then pos 0
      else if le deficit (of_int (pos 0))
      then pos 0
      else if le (of_int max_int) ns
      then max_int
      else to_int ns

  -- `Impossible`: none for the empty reason.
  unfoldable pub impossible : Limits fl → ℤ → Option Reason
  impossible l tokens =
      if token_limited fl l && ltb_ℤ (capacity fl l) tokens
      then some (Reason.never_fits tokens (capacity fl l))
      else none

  -- `Fits`.
  unfoldable pub fits : Limits fl → F → ℤ → ℤ → Bool
  fits l balance tokens live =
      (not (token_limited fl l) || le (of_int tokens) balance)
      && (not (slot_limited fl l) || ltb_ℤ live l.max_concurrency)

-- `Result`: exactly one of a lease, a reason, or a hint for the wait.
pub data Attempt (L : Type 0) : Type 0 where
  admitted : L → Attempt L
  never : Reason → Attempt L
  later : ℤ → Attempt L

pub record Waiter : Type 0 where
  pub max_wait : ℤ
  pub initial : ℤ
  pub max : ℤ

-- What Wait reads of the world: the Err of the caller's context, whether MaxWait has elapsed since
-- the call, `rand.N(n)`, and a sleep, which says whether the context ended it before the timer.
pub record Surroundings (W : Type 0) : Type 0 where
  pub ctx_err : W → GoError
  pub budget_spent : W → Bool
  pub random : ℤ → W → ℤ × W
  pub sleep : ℤ → W → Bool × W

-- `d / 2` of a positive Duration.
abbrev half_of : ℤ → ℤ
half_of d = pos (pos_part d / 2)

-- `jitter`.
unfoldable pub jitter : {W : Type 0} → Surroundings W → ℤ → W → ℤ × W
unfolding add64 sub64
jitter env d w =
    if leb_ℤ d (pos 1)
    then (max_ℤ d (pos 1), w)
    else let (r, w') = env.random (add64 (sub64 d (half_of d)) (pos 1)) w in
      (add64 (half_of d) r, w')

module _ {W : Type 0} (env : Surroundings W) (key : String) (waiter : Waiter) where
  -- The Err of the context that each try receives.
  unfoldable pub wait_err : W → GoError
  wait_err w =
      if not (is_nil (env.ctx_err w))
      then env.ctx_err w
      else if ltb_ℤ (pos 0) waiter.max_wait && env.budget_spent w
      then GoError.deadline_exceeded
      else GoError.nil

  -- `ended`.
  unfoldable pub ended : When → ℤ → W → LimitError
  ended when hint w = record {
    cause = env.ctx_err w;
    key = key;
    reason =
        if is_nil (env.ctx_err w) then Reason.max_wait_exceeded when else Reason.context_done when;
    retry_after = hint;
    permanent = false;
  }

  -- The rejection of a request that can never fit.
  abbrev pub refused_for_good : Reason → LimitError
  refused_for_good reason = record {
    cause = GoError.nil;
    key = key;
    reason = reason;
    retry_after = pos 0;
    permanent = true;
  }

  -- How long to sleep: the jittered backoff, but not past a positive hint.
  unfoldable pub sleep_for : ℤ → ℤ → W → ℤ × W
  sleep_for backoff hint w =
      let (d, w') = jitter env backoff w in (if ltb_ℤ (pos 0) hint then min_ℤ d hint else d, w')

  abbrev pub next_backoff : ℤ → ℤ
  next_backoff backoff = min_ℤ (add64 backoff backoff) waiter.max

  module _ {L : Type 0} where
    -- What follows a try: `again` is the next round, and `none` means that the fuel ran out.
    unfoldable pub after_try :
        (ℤ → ℤ → W → Option (Result AcquireError L × W))
        → ℤ
        → ℤ
        → Result AcquireError (Attempt L)
        → W
        → Option (Result AcquireError L × W)
    after_try again backoff hint (err e) w =
        if is_nil (wait_err w)
        then some (err e, w)
        else some (err (AcquireError.limited (ended When.while_acquiring hint w)), w)
    after_try again backoff hint (ok (Attempt.admitted l)) w = some (ok l, w)
    after_try again backoff hint (ok (Attempt.never reason)) w =
        some (err (AcquireError.limited (refused_for_good reason)), w)
    after_try again backoff _ (ok (Attempt.later hint)) w =
        let (d, w1) = sleep_for backoff hint w in
        let (stopped, w2) = env.sleep d w1 in
        let next = again (next_backoff backoff) hint w2 in
        if stopped
        then some (err (AcquireError.limited (ended When.while_waiting hint w2)), w2)
        else next

    -- The loop of `Wait` with a backoff and the last hint, on fuel.
    unfoldable pub wait_from :
        (W → Result AcquireError (Attempt L) × W)
        → ℕ
        → ℤ
        → ℤ
        → W
        → Option (Result AcquireError L × W)
    wait_from try zero backoff hint w = none
    wait_from try (suc fuel) backoff hint w =
        let (r, w1) = try w in
        let tried = after_try (wait_from try fuel) backoff hint r w1 in
        if is_nil (wait_err w)
        then tried
        else some (err (AcquireError.limited (ended When.before_capacity hint w)), w)

    -- `Wait`.
    unfoldable pub wait :
        (W → Result AcquireError (Attempt L) × W) → ℕ → W → Option (Result AcquireError L × W)
    wait try fuel w = wait_from try fuel waiter.initial (pos 0) w
