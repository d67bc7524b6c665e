-- ===== src/Tests/BucketRuns.antt =====
-- bucket and llms/ratelimit/bucket.go: runs on concrete inputs.
use maestro_llms.Base.{
  ℕ, ◌+◌, ◌-◌, ◌/◌, ◌≡◌, ◌⊎◌, refl, ap, subst, String, true, none, some, [], ◌∷◌, ◌++◌, Result, ok,
  err, arith, ltb,
}
use maestro_llms.Base.Int.{pos, pos_part, ◌≤ℤ◌, max_ℤ, add64, sub64, wrap64, ◌+ℤ◌, ◌-ℤ◌}
use maestro_llms.Llms.Errors.{GoError}
use maestro_llms.Bucket.Limits.{
  Limits, validate, effective_buffer_factor, slot_limited, refill_per_second, capacity,
  token_limited,
}
use maestro_llms.Bucket.Core.{
  Attempt, AcquireError, LimitError, Reason, Surroundings, Waiter, wait_err, sleep_for, wait,
  settle, seconds_between, fits, impossible,
}
use maestro_llms.Bucket.Core.Waits.{RandomRange, Deadline, WaitEnd, sleep_for_bounds, wait-WaitEnd}
use maestro_llms.Bucket.Memory.{
  Config, Limiter, Lease, new_limiter, check_limits, fresh, lookup, limits_for, attempt,
  state_locked, settle_locked, admit, admit_settled, charge,
}
use maestro_llms.Bucket.Memory.Holding.{held, taken}
use maestro_llms.Bucket.Memory.Promise.{CountSteps, System, Step, Steps, held_by}
use maestro_llms.Bucket.Memory.Accounts.{live_of}
use maestro_llms.Bucket.Memory.Refines.{new_limiter_refines, new_limiter-live_of}
use maestro_llms.Ratelimit.{ReservationRequest}
use maestro_llms.Ratelimit.FromBucket.{
  BucketOps, CausesFromContext, FromContext, Outcome, reserve, reserve-Outcome,
}
use maestro_llms.Tests.LimiterRuns.{integers, request}

-- One request at a time on the key "k"; other keys are unknown.
abbrev single : Limits integers
single = record { tokens_per_minute = pos 600; max_concurrency = pos 1; buffer_factor = pos 1 }

abbrev cfg : Config integers
cfg = record {
  limits = ("k", single) ∷ [];
  default_limits = none;
  max_wait = pos 0;
  poll_interval = pos 0;
  max_poll_interval = pos 0;
}

abbrev new_one : Limiter integers
new_one = fresh integers cfg

made : new_limiter integers cfg ≡ some new_one
unfolding new_limiter check_limits validate effective_buffer_factor
made = refl

abbrev first : Result AcquireError (Attempt Lease) × Limiter integers
first = attempt integers new_one GoError.nil "k" (pos 50) (pos 0)

abbrev second : Result AcquireError (Attempt Lease) × Limiter integers
second = attempt integers first.1 GoError.nil "k" (pos 50) (pos 0)

abbrev after_two : System integers
after_two = record { limiter = second.1; granted = taken second.0 ++ (taken first.0 ++ []) }

two_attempts : Steps integers (record { limiter = new_one; granted = [] }) after_two
two_attempts =
    Steps.then_step
      (Steps.then_step Steps.start (Step.acquiring new_one [] GoError.nil "k" (pos 50) (pos 0)))
      (Step.acquiring first.1 (taken first.0 ++ []) GoError.nil "k" (pos 50) (pos 0))

-- The second attempt waits.
only_one : held_by integers after_two "k" ≡ 1
unfolding held_by held taken attempt state_locked limits_for lookup settle_locked admit
    admit_settled charge fresh settle seconds_between fits impossible capacity token_limited
    slot_limited refill_per_second effective_buffer_factor add64 sub64 wrap64 ◌+ℤ◌ ◌-ℤ◌
only_one = refl

new_limiter_refines_example :
    CountSteps integers (limits_for integers new_one) (λ q. 0) (held_by integers after_two)
new_limiter_refines_example = new_limiter_refines integers cfg new_one after_two made two_attempts

known : limits_for integers new_one "k" ≡ some single
unfolding limits_for lookup fresh
known = refl

limited : slot_limited integers single ≡ true
unfolding slot_limited
limited = refl

new_limiter-live_of_example :
    (pos (held "k" after_two.granted) ≤ℤ pos 1)
    × (live_of integers (after_two.limiter.keys "k") ≡ pos (held "k" after_two.granted))
new_limiter-live_of_example =
    new_limiter-live_of integers cfg new_one after_two "k" single made two_attempts known limited
      (omega arith)

-- A world that is the nanoseconds left of MaxWait; a sleep past them is cut short.
abbrev clock : Surroundings ℕ
clock = record {
  ctx_err = λ w. GoError.nil;
  budget_spent = λ w. ltb w 1;
  random = λ n w. (pos 0, w);
  sleep = λ d w. (ltb w (pos_part d + 1), w - pos_part d);
}

abbrev waiter : Waiter
waiter = record { max_wait = pos 40; initial = pos 10; max = pos 20 }

clock-RandomRange : RandomRange clock
unfolding RandomRange
clock-RandomRange n w h = (ground arith, ground (arith, h))

sleep_for_bounds_example :
    let d = (sleep_for clock "k" waiter (pos 10) (pos 3) 40).0 in
    (pos 1 ≤ℤ d)
    × (d ≤ℤ max_ℤ (pos 10) (pos 1))
    × (pos 1 ≤ℤ pos 3 → d ≤ℤ pos 3)
    × ((pos (pos_part (pos 10) / 2) ≤ℤ d) ⊎ ((pos 1 ≤ℤ pos 3) × (d ≡ pos 3)))
sleep_for_bounds_example =
    sleep_for_bounds clock "k" waiter (pos 10) (pos 3) 40 clock-RandomRange (omega arith)

abbrev busy : ℕ → Result AcquireError (Attempt (Unit {0})) × ℕ
busy w = (ok (Attempt.later (pos 0)), w)

busy_deadline : Deadline clock "k" waiter busy
unfolding wait_err
busy_deadline = record {
  left = λ w. w;
  spent = λ w h. ground (arith, h);
  try_left = λ w. omega arith;
  random_left = λ n w. omega arith;
  fired = λ d w h still. ground (arith, h, still);
  stopped = λ d w cut. ground (arith, cut);
}

wait-WaitEnd_example :
    (r : Result AcquireError (Unit {0})) × (w' : ℕ) × (wait clock "k" waiter busy 41 40
      ≡ some (r, w'))
    × WaitEnd clock "k" waiter busy r w'
unfolding busy_deadline
wait-WaitEnd_example =
    wait-WaitEnd clock "k" waiter busy clock-RandomRange busy_deadline 41 40 (omega arith)
      (omega arith) (omega arith)

-- A bucket that rejects every request for good.
abbrev too_big : LimitError
too_big = record {
  cause = GoError.nil;
  key = "k";
  reason = Reason.never_fits (pos 700) (pos 600);
  retry_after = pos 0;
  permanent = true;
}

abbrev full_bucket : BucketOps (Unit {0})
full_bucket = record {
  Lease = Unit {0};
  acquire = λ k n w. (err (AcquireError.limited too_big), w);
  adjust = λ l n w. (GoError.nil, w);
  release = λ l w. (GoError.nil, w);
}

abbrev by_model : ReservationRequest → String
by_model req = req.model

abbrev text_of : String → Reason → String
text_of k reason = k

abbrev cause_of : Result AcquireError (Unit {0}) × Unit {0} → GoError
cause_of (err (AcquireError.limited le), w) = le.cause
cause_of _ = GoError.nil

no_causes : CausesFromContext full_bucket by_model text_of
unfolding CausesFromContext
no_causes k n w w' le h = subst FromContext (ap cause_of h) FromContext.no_cause

reserve-Outcome_example :
    Outcome full_bucket by_model text_of request tt
      (reserve full_bucket by_model text_of request tt)
reserve-Outcome_example = reserve-Outcome full_bucket by_model text_of request tt no_causes
