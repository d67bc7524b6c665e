-- ===== src/Tests/CircuitRuns.antt =====
-- llms/middleware/circuit.go: a breaker on concrete calls.
use maestro_llms.Base.{
  ℕ, ◌+◌, ◌≤◌, ◌<◌, ◌≡◌, ◌≢◌, refl, true, false, List, [], ◌∷◌, arith, ◌⊎◌, length,
}
use maestro_llms.Base.Int.{
  ℤ, pos, pos_part, wrap64, ◌-ℤ◌, ◌+ℤ◌, ◌<ℤ◌, ◌≤ℤ◌, add64, +ℤ_parts, -ℤ_parts,
}
use maestro_llms.Llms.Errors.{GoError, is_nil, retryable, as_limit, as_provider}
use maestro_llms.Llms.Reasons.{ErrorKind}
use maestro_llms.Middleware.Circuit.{
  CircuitState, Breaker, Signal, default_circuit_config, new_breaker, normalized, allow, signal,
  guarded, record_result, trip,
}
use maestro_llms.Middleware.Circuit.Machine.{
  IsValid, Event, apply_all, new_breaker-IsValid, new_breaker-apply_all-IsValid,
  guarded_after_failure,
}
use maestro_llms.Middleware.Circuit.Streaks.{
  record_all, probe_all, AllAdmitted, count_failures, opens_at_threshold, closes_at_threshold,
}
use maestro_llms.Middleware.Circuit.Probes.{
  System, Move, OrderlyReach, Gated, OrderlyReach-Gated, stale_result_admits_probe,
}

abbrev refused : GoError
refused = GoError.deadline_exceeded

-- A failure, then a request.
abbrev events : List Event
events = Event.reports refused (pos 5) ∷ Event.asks (pos 9) ∷ []

new_breaker-apply_all-IsValid_example :
    IsValid (apply_all (new_breaker default_circuit_config "p" "m") events)
new_breaker-apply_all-IsValid_example =
    new_breaker-apply_all-IsValid default_circuit_config "p" "m" events (omega arith) (omega arith)

abbrev clock : ℕ → ℤ
clock w = pos w

abbrev no_answer : ℕ
no_answer = 0

abbrev answers : ℕ → ℕ × GoError × ℕ
answers w = (1, GoError.nil, w)

abbrev probing : Breaker
probing = record (new_breaker default_circuit_config "p" "m") { state = CircuitState.half_open }

probing-IsValid : IsValid probing
unfolding new_breaker
probing-IsValid = ground arith

abbrev times : List ℤ
times = pos 1 ∷ pos 2 ∷ pos 3 ∷ []

closes_at_threshold_example :
    AllAdmitted probing times
    × (((probe_all probing times).state ≡ CircuitState.closed)
          × (pos_part probing.successes + length times ≡ pos_part probing.cfg.success_threshold)
        ⊎ ((probe_all probing times).state ≡ CircuitState.half_open)
          × ((now : ℤ) → (allow (probe_all probing times) now).1 ≡ GoError.nil)
          × (pos_part probing.successes + length times < pos_part probing.cfg.success_threshold))
unfolding new_breaker
closes_at_threshold_example =
    closes_at_threshold probing times probing-IsValid refl refl (omega arith)

abbrev closed_breaker : Breaker
closed_breaker = new_breaker default_circuit_config "p" "m"

-- A provider that is down.
abbrev unavailable : GoError
unavailable =
    GoError.provider_error
      (record {
        provider = "p";
        model = "m";
        kind = ErrorKind.unavailable;
        status_code = pos 503;
        message = "";
        retry_after = pos 0;
      })
      GoError.nil

unavailable-failure : signal unavailable ≡ Signal.failure
unfolding signal retryable as_provider as_limit
unavailable-failure = refl

-- A breaker that the next failure trips.
abbrev worn : Breaker
worn = record closed_breaker { failures = pos 4 }

worn-IsValid : IsValid worn
unfolding new_breaker
worn-IsValid = ground arith

worn_trips : (record_result worn unavailable (pos 10)).state ≡ CircuitState.open_circuit
unfolding new_breaker normalized record_result signal retryable as_provider as_limit add64 wrap64
    trip ◌+ℤ◌
worn_trips = refl

guarded_after_failure_example :
    let b' = record_result worn unavailable (pos 10) in
    let result = guarded clock no_answer answers b' 20 in
    (pos 20 <ℤ pos 10 +ℤ worn.cfg.open_timeout
      → result ≡ (
        no_answer,
        GoError.circuit_open "p" "m" (pos 10 +ℤ worn.cfg.open_timeout -ℤ pos 20),
        b',
        20,
      ))
    × (pos 10 +ℤ worn.cfg.open_timeout ≤ℤ pos 20
        → ((allow b' (pos 20)).0.state ≡ CircuitState.half_open)
          × ((allow b' (pos 20)).0.probing ≡ true)
          × (result.0 ≡ 1)
          × (result.1 ≡ GoError.nil)
          × (result.3 ≡ 20))
unfolding new_breaker
guarded_after_failure_example =
    guarded_after_failure clock no_answer answers worn unavailable (pos 10) 20 worn-IsValid
      unavailable-failure worn_trips (omega arith) (omega arith)
      (omega (arith, -ℤ_parts (pos 20) (pos 10)))

abbrev one_result : List (GoError × ℤ)
one_result = (unavailable, pos 1) ∷ []

opens_at_threshold_example :
    (((record_all closed_breaker one_result).state ≡ CircuitState.open_circuit)
      × (pos_part closed_breaker.cfg.failure_threshold
          ≤ pos_part closed_breaker.failures + count_failures one_result))
    ⊎ (((record_all closed_breaker one_result).state ≡ CircuitState.closed)
        × (pos_part (record_all closed_breaker one_result).failures
            ≡ pos_part closed_breaker.failures + count_failures one_result)
        × (pos_part closed_breaker.failures + count_failures one_result
            < pos_part closed_breaker.cfg.failure_threshold))
unfolding new_breaker
opens_at_threshold_example =
    opens_at_threshold closed_breaker one_result
      (new_breaker-IsValid default_circuit_config "p" "m" (omega arith) (omega arith)) refl
      (ground (arith, unavailable-failure), tt)

abbrev fresh : System
fresh = record { breaker = closed_breaker; probes = 0; others = 0 }

-- A call is admitted.
abbrev one_call : System
one_call = record { breaker = (allow closed_breaker (pos 1)).0; probes = 0; others = 1 }

one_call-OrderlyReach : OrderlyReach fresh one_call
unfolding new_breaker
one_call-OrderlyReach = OrderlyReach.next OrderlyReach.here (Move.admit_other (pos 1) refl refl) tt

OrderlyReach-Gated_example : Gated one_call
OrderlyReach-Gated_example = OrderlyReach-Gated default_circuit_config "p" "m" one_call-OrderlyReach

-- One probe in flight, and one call from before the trip.
abbrev busy : System
busy = record { breaker = record probing { probing = true }; probes = 1; others = 1 }

busy-IsValid : IsValid busy.breaker
unfolding new_breaker
busy-IsValid = ground arith

nil_is_success : signal GoError.nil ≢ Signal.failure
unfolding signal
nil_is_success = λ e. cc

stale_result_admits_probe_example :
    let b' = record_result busy.breaker GoError.nil (pos 7) in
    let u : System = record busy { breaker = b'; others = 0 } in
    let v : System = record u { breaker = (allow b' (pos 8)).0; probes = 2 } in
    (busy.breaker.probing ≡ true → is_nil (allow busy.breaker (pos 8)).1 ≡ false)
    × Move busy u
    × ((allow b' (pos 8)).1 ≡ GoError.nil)
    × Move u v
    × (v.breaker.state ≡ CircuitState.half_open)
unfolding new_breaker
stale_result_admits_probe_example =
    stale_result_admits_probe busy GoError.nil (pos 7) (pos 8) 0 busy-IsValid refl refl
      nil_is_success (ground (arith, +ℤ_parts busy.breaker.successes (pos 1)))
