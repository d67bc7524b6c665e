-- ===== src/Tests/LimiterRuns.antt =====
-- llms/ratelimit, llms/middleware/retry.go and bucket: runs on concrete inputs. Integers stand for
-- the floats: they have the laws that the theorems name.
use maestro_llms.Base.{ℕ, ◌/◌, ◌*◌, ◌≡◌, refl, true, false, some, List, [], ◌∷◌, arith}
use maestro_llms.Base.Int.{
  ℤ, pos, ◌≤ℤ◌, ◌<ℤ◌, ◌+ℤ◌, ◌-ℤ◌, -ℤ_parts, ltb_ℤ, leb_ℤ, min_ℤ, clamp64, add64, sub64, wrap64,
}
use maestro_llms.Base.Float.{Float}
use maestro_llms.Llms.Errors.{GoError, retry_after}
use maestro_llms.Llms.Usage.{Usage, zero_usage}
use maestro_llms.Middleware.Retry
use maestro_llms.Middleware.Retry.{RetryConfig, retry, default_retry_config, wait_of}
use maestro_llms.Middleware.Retry.Attempts.{
  Ended, Made, retry-Ended, log_call, log_sleep, log_random,
}
use maestro_llms.Middleware.Retry.Waits.{Constants, normalized_usable, wait_of_bounds}
use maestro_llms.Bucket.Limits.{
  Limits, validate, effective_buffer_factor, slot_limited, refill_per_second, capacity,
  token_limited,
}
use maestro_llms.Ratelimit.{effective_tokens, ReservationRequest, Operation, tokens, slots}
use maestro_llms.Ratelimit.Charging.{UsageInRange}
use maestro_llms.Ratelimit.Memory.{
  Config, Limiter, Reservation, new_limiter, fresh, limits_of, fills, chunk, refill, refill_loop,
  elapsed_seconds, try_acquire, has_tokens, has_slot, commit,
}
use maestro_llms.Ratelimit.Memory.Reserve.{Turn, Verdict, turn, acquire_turn}
use maestro_llms.Satint
use maestro_llms.Ratelimit.Memory.Refill.{WholePart, Bounded, Refilled, refill-Refilled}
use maestro_llms.Ratelimit.Memory.Granted.{held_slots, taken}
use maestro_llms.Ratelimit.Memory.Accounts.{System, Step, Steps}
use maestro_llms.Ratelimit.Memory.Slots.{new_limiter-Accounted}
use maestro_llms.Ratelimit.Memory.Balance.{commit_charges_once}

abbrev pub over_ℤ : ℤ → ℤ → ℤ
over_ℤ (pos n) (pos m) = pos (n / m)
over_ℤ a b = a

abbrev pub times_ℤ : ℤ → ℤ → ℤ
times_ℤ (pos n) (pos m) = pos (n * m)
times_ℤ a b = a

abbrev pub integers : Float
integers = record {
  F = ℤ;
  of_int = λ n. n;
  to_int = λ n. n;
  plus = ◌+ℤ◌;
  minus = ◌-ℤ◌;
  times = times_ℤ;
  over = over_ℤ;
  lt = ltb_ℤ;
  le = leb_ℤ;
  is_nan = λ x. false;
  is_inf = λ x. false;
  ratio = over_ℤ;
}

integers-Constants : Constants integers
integers-Constants = record {
  zero_number = (refl, refl);
  one_number = (refl, refl);
  two_number = (refl, refl);
  zero_zero = refl;
  one_zero = refl;
  one_one = refl;
  two_one = refl;
}

integers-WholePart : WholePart integers
integers-WholePart = record {
  whole_range = λ c one below. ground arith;
  rest_small = λ c below. ground (arith, -ℤ_parts c c);
}

-- The zero RetryConfig.
abbrev unset : RetryConfig integers
unset = record {
  max_attempts = pos 0;
  initial_delay = pos 0;
  max_delay = pos 0;
  backoff_factor = pos 0;
  jitter = pos 7;
}

normalized_usable_example :
    let n = Retry.normalized integers unset in
    (pos 1 ≤ℤ n.max_attempts)
    × (pos 1 ≤ℤ n.initial_delay)
    × (pos 1 ≤ℤ n.max_delay)
    × (false ≡ false)
    × (false ≡ false)
    × (ltb_ℤ n.backoff_factor (pos 1) ≡ false)
    × (false ≡ false)
    × (false ≡ false)
    × (ltb_ℤ n.jitter (pos 0) ≡ false)
    × (ltb_ℤ (pos 1) n.jitter ≡ false)
normalized_usable_example = normalized_usable integers integers-Constants unset

abbrev twice : RetryConfig integers
twice = record {
  max_attempts = pos 2;
  initial_delay = pos 5;
  max_delay = pos 60;
  backoff_factor = pos 2;
  jitter = pos 0;
}

abbrev hinted : GoError
hinted =
    GoError.limit_error
      (record { provider = "p"; model = "m"; reason = ""; retry_after = pos 40; permanent = false })
      GoError.nil

wait_of_bounds_example :
    let wait = wait_of integers twice (pos 5) hinted in
    (pos 0 <ℤ wait)
    × (wait ≤ℤ pos 60)
    × (min_ℤ (retry_after hinted) (pos 60) ≤ℤ wait)
    × (min_ℤ (pos 5) (pos 60) ≤ℤ wait)
wait_of_bounds_example = wait_of_bounds integers twice (pos 5) hinted (omega arith) (omega arith)

-- A call that always fails.
abbrev fails : ℤ → ℕ → ℕ × GoError × ℕ
fails attempt w = (0, hinted, w)

abbrev sleeps : ℤ → ℕ → GoError × ℕ
sleeps d w = (GoError.nil, w)

abbrev steady : ℕ → ℤ × ℕ
steady w = (pos 0, w)

abbrev no_response : ℕ
no_response = 9

abbrev start : ℕ × List (Made ℕ)
start = (3, [])

retry-Ended_example : Ended integers steady twice no_response fails sleeps (
    retry integers
      (log_random steady)
      twice
      no_response
      (log_call fails)
      (log_sleep sleeps)
      2
      start)
retry-Ended_example =
    retry-Ended integers steady twice no_response fails sleeps 2 3 (omega arith) (omega arith)
      (omega arith)

abbrev limits : Limits integers
limits = record { tokens_per_minute = pos 600; max_concurrency = pos 2; buffer_factor = pos 1 }

limited : token_limited integers limits ≡ true
unfolding token_limited
limited = refl

abbrev cfg : Config integers
cfg = record {
  tokens_per_minute = pos 600;
  max_concurrency = pos 2;
  max_wait = pos 0;
  poll_interval = pos 0;
  buffer_factor = pos 1;
}

-- A limiter of 600 tokens and 2 requests, with 100 tokens left and one request active.
abbrev used : Limiter integers
used = record {
  last_refill = pos 0;
  max_wait = pos 0;
  poll_interval = pos 100000000;
  refill_per_sec = pos 10;
  token_carry = pos 0;
  available_tok = pos 100;
  max_capacity = pos 600;
  active_reqs = pos 1;
  max_concurrency = pos 2;
  token_wait_hits = pos 0;
  slot_wait_hits = pos 0;
  token_limiting = true;
  slot_limiting = true;
}

used-Bounded : Bounded integers used
used-Bounded = ground arith

-- Two seconds later.
refill-Refilled_example : Refilled integers used (refill integers 4 (pos 2000000000) used)
refill-Refilled_example =
    refill-Refilled integers integers-WholePart (pos 2000000000) used used-Bounded

abbrev two_seconds_on : Limiter integers
two_seconds_on = record used { last_refill = pos 2000000000; available_tok = pos 120 }

refilled_used : refill integers 4 (pos 2000000000) used ≡ some two_seconds_on
unfolding refill refill_loop elapsed_seconds chunk fills add64 sub64 wrap64 ◌+ℤ◌ ◌-ℤ◌
refilled_used = refl

abbrev reservation : Reservation
reservation = record { tokens = pos 50; slots = pos 1; committed = false; released = false }

abbrev usage : Usage
usage = record zero_usage { input_tokens = pos 60; output_tokens = pos 10 }

usage-UsageInRange : UsageInRange usage
usage-UsageInRange = ground arith

abbrev settled : Limiter integers
settled = record two_seconds_on {
  available_tok = min_ℤ (clamp64 (pos 120 -ℤ (effective_tokens usage -ℤ pos 50))) (pos 600);
}

commit_charges_once_example :
    (commit integers 4 (pos 2000000000) usage used reservation
      ≡ some (settled, record reservation { committed = true }))
    × (commit integers 4 (pos 3000000000) zero_usage used (record reservation { committed = true })
        ≡ some (used, record reservation { committed = true }))
commit_charges_once_example =
    commit_charges_once integers 4 4 (pos 2000000000) (pos 3000000000) usage zero_usage used
      two_seconds_on used reservation usage-UsageInRange refl refl (omega arith, omega arith)
      refilled_used (omega arith, omega arith)

abbrev new_one : Limiter integers
new_one = fresh integers cfg (pos 0)

made : new_limiter integers cfg (pos 0) ≡ some new_one
unfolding new_limiter fresh limits_of validate effective_buffer_factor
made = refl

abbrev pub request : ReservationRequest
request = record {
  provider = "p";
  model = "m";
  operation = Operation.chat;
  purpose = "";
  estimated_units = record {
    input_tokens = pos 30;
    output_tokens_max = pos 20;
    total_tokens_max = pos 0;
    requests = pos 1;
  };
}

abbrev now_turn : Turn
now_turn = record { before = GoError.nil; now = pos 0; waited = pos 0; interrupted = GoError.nil }

abbrev charged : Limiter integers
charged = record new_one { available_tok = pos 550; active_reqs = pos 1 }

admitted_now : turn integers new_one request now_turn ≡ some (charged, Verdict.admitted reservation)
unfolding turn refill elapsed_seconds acquire_turn try_acquire has_tokens has_slot tokens slots
    fresh limits_of capacity effective_buffer_factor token_limited slot_limited refill_per_second
    Satint.add add64 sub64 wrap64 ◌+ℤ◌ ◌-ℤ◌
admitted_now = refl

abbrev one_granted : System integers
one_granted = record { limiter = charged; granted = reservation ∷ [] }

granted_step : Steps integers (record { limiter = new_one; granted = [] }) one_granted
unfolding taken
granted_step =
    Steps.then_step Steps.start (
      Step.reserving new_one charged [] request now_turn (Verdict.admitted reservation)
        admitted_now)

new_limiter-Accounted_example :
    (one_granted.limiter.active_reqs ≡ pos (held_slots one_granted.granted))
    × (one_granted.limiter.active_reqs ≤ℤ one_granted.limiter.max_concurrency)
new_limiter-Accounted_example =
    new_limiter-Accounted integers cfg (pos 0) new_one one_granted (omega arith) (omega arith) made
      granted_step
