-- ===== src/Middleware/Circuit/Streaks.antt =====
-- llms/middleware/circuit.go: when a breaker opens and when it closes.
use maestro_llms.Base.{
  ℕ, suc, ◌+◌, ◌≤◌, ◌<◌, ◌≡◌, ◌≢◌, false, List, [], ◌∷◌, arith, inl, inr, ◌⊎◌, length,
}
use maestro_llms.Base.Int.{ℤ, pos, pos_part, +ℤ_parts}
use maestro_llms.Llms.Errors.{GoError}
use maestro_llms.Middleware.Circuit.{CircuitState, Breaker, Signal, allow, signal, record_result}
use maestro_llms.Middleware.Circuit.Machine.{
  IsValid, record_result-IsValid, allow-IsValid, count_one,
}

-- Errors that are recorded one after another.
abbrev pub record_all : Breaker → List (GoError × ℤ) → Breaker
record_all b [] = b
record_all b ((err, now) ∷ rs) = record_all (record_result b err now) rs

-- No success among them.
abbrev pub NoSuccess : List (GoError × ℤ) → Type 0
NoSuccess [] = Unit
NoSuccess ((err, now) ∷ rs) = (signal err ≢ Signal.success) × NoSuccess rs

abbrev one_failure : Signal → ℕ
one_failure Signal.failure = 1
one_failure _ = 0

abbrev pub count_failures : List (GoError × ℤ) → ℕ
count_failures [] = 0
count_failures ((err, now) ∷ rs) = one_failure (signal err) + count_failures rs

open-record_result :
    (b : Breaker) (err : GoError) (now : ℤ)
    → b.state ≡ CircuitState.open_circuit
    → (record_result b err now).state ≡ CircuitState.open_circuit
unfolding record_result
open-record_result b err now o = ground arith

open-record_all :
    (b : Breaker) (rs : List (GoError × ℤ))
    → b.state ≡ CircuitState.open_circuit
    → (record_all b rs).state ≡ CircuitState.open_circuit
open-record_all b [] o = o
open-record_all b ((err, now) ∷ rs) o =
    open-record_all (record_result b err now) rs (open-record_result b err now o)

-- One result, in the closed state.
closed-record_result :
    (b : Breaker) (err : GoError) (now : ℤ)
    → IsValid b
    → b.state ≡ CircuitState.closed
    → signal err ≢ Signal.success
    → let b' = record_result b err now in
      (b'.cfg ≡ b.cfg)
      × ((b'.state ≡ CircuitState.closed)
            × (pos_part b'.failures ≡ pos_part b.failures + one_failure (signal err))
          ⊎ (b'.state ≡ CircuitState.open_circuit)
            × (pos_part b.cfg.failure_threshold ≤ pos_part b.failures + one_failure (signal err)))
unfolding record_result
closed-record_result b err now v c n =
    ground (arith, count_one b.failures b.cfg.failure_threshold, +ℤ_parts b.failures (pos 1))

-- From a valid closed breaker, results with no success among them open it exactly when the failures
-- counted so far and those among the results reach the threshold; short of it, it stays closed with
-- just those failures counted. A neutral result counts for nothing.
pub opens_at_threshold :
    (b : Breaker) (rs : List (GoError × ℤ))
    → IsValid b
    → b.state ≡ CircuitState.closed
    → NoSuccess rs
    → let b' = record_all b rs in
      ((b'.state ≡ CircuitState.open_circuit)
        × (pos_part b.cfg.failure_threshold ≤ pos_part b.failures + count_failures rs))
      ⊎ ((b'.state ≡ CircuitState.closed)
          × (pos_part b'.failures ≡ pos_part b.failures + count_failures rs)
          × (pos_part b.failures + count_failures rs < pos_part b.cfg.failure_threshold))
opens_at_threshold b [] v c n = ground (arith, v.failures_below, v.failure_range)
opens_at_threshold b ((err, now) ∷ rs) v c n =
    let b' = record_result b err now in
    let (same, next) = closed-record_result b err now v c n.0 in
    elim next [
      | inl (closed, f) ↦
          ground (arith, opens_at_threshold b' rs (record_result-IsValid b err now v) closed n.1)
      | inr (opened, f) ↦ inl (open-record_all b' rs opened, omega arith)
    ]

-- Callers one after another, each of which asks and then records a success.
abbrev pub probe_all : Breaker → List ℤ → Breaker
probe_all b [] = b
probe_all b (now ∷ ts) = probe_all (record_result (allow b now).0 GoError.nil now) ts

-- Each of these probes is admitted.
abbrev pub AllAdmitted : Breaker → List ℤ → Type 0
AllAdmitted b [] = Unit
AllAdmitted b (now ∷ ts) =
    ((allow b now).1 ≡ GoError.nil) × AllAdmitted (record_result (allow b now).0 GoError.nil now) ts

probe-half_open :
    (b : Breaker) (now : ℤ)
    → IsValid b
    → b.state ≡ CircuitState.half_open
    → b.probing ≡ false
    → let b' = record_result (allow b now).0 GoError.nil now in
      ((allow b now).1 ≡ GoError.nil)
      × (b'.cfg ≡ b.cfg)
      × ((b'.state ≡ CircuitState.half_open)
            × (b'.probing ≡ false)
            × (pos_part b'.successes ≡ suc (pos_part b.successes))
          ⊎ (b'.state ≡ CircuitState.closed)
            × (pos_part b.cfg.success_threshold ≡ suc (pos_part b.successes)))
unfolding allow record_result
probe-half_open b now v h p =
    ground (arith, count_one b.successes b.cfg.success_threshold, +ℤ_parts b.successes (pos 1))

probe_none :
    (b : Breaker) (ts : List ℤ)
    → b.state ≡ CircuitState.closed
    → length ts ≤ 0
    → (probe_all b ts).state ≡ CircuitState.closed
probe_none b [] c h = c
probe_none b (t ∷ ts) c h = absurd (omega arith)

admitted_none : (b : Breaker) (ts : List ℤ) → length ts ≤ 0 → AllAdmitted b ts
admitted_none b [] h = tt
admitted_none b (t ∷ ts) h = absurd (omega arith)

admits :
    (b : Breaker) (now : ℤ)
    → b.state ≡ CircuitState.half_open
    → b.probing ≡ false
    → (allow b now).1 ≡ GoError.nil
unfolding allow
admits b now h p = ground arith

-- From a valid half-open breaker with an open gate, callers that one after another ask and record a
-- success, at most as many as are wanting to SuccessThreshold, are all admitted. They close it with
-- just the one that reaches the threshold; with fewer it stays half-open, and admits the next one at any
-- time.
pub closes_at_threshold :
    (b : Breaker) (ts : List ℤ)
    → IsValid b
    → b.state ≡ CircuitState.half_open
    → b.probing ≡ false
    → pos_part b.successes + length ts ≤ pos_part b.cfg.success_threshold
    → let b' = probe_all b ts in
      AllAdmitted b ts
      × (((b'.state ≡ CircuitState.closed)
            × (pos_part b.successes + length ts ≡ pos_part b.cfg.success_threshold))
          ⊎ ((b'.state ≡ CircuitState.half_open)
              × ((now : ℤ) → (allow b' now).1 ≡ GoError.nil)
              × (pos_part b.successes + length ts < pos_part b.cfg.success_threshold)))
closes_at_threshold b [] v h p le =
    (tt, inr (h, λ now. admits b now h p, ground (arith, v.successes_below, v.success_range)))
closes_at_threshold b (now ∷ ts) v h p le =
    let b' = record_result (allow b now).0 GoError.nil now in
    let v' = record_result-IsValid (allow b now).0 GoError.nil now (allow-IsValid b now v) in
    let (admitted, same, next) = probe-half_open b now v h p in
    elim next [
      | inl (half, free, n) ↦
          let rest : pos_part b'.successes + length ts ≤ pos_part b'.cfg.success_threshold =
            ground arith in
          let (all, ends) = closes_at_threshold b' ts v' half free rest in
          (
            (admitted, all),
            elim ends [
              | inl (closed, e) ↦ inl (closed, ground arith)
              | inr (open_still, more, l) ↦ inr (open_still, more, ground arith)
            ],
          )
      | inr (closed, n) ↦
          let none_left : length ts ≤ 0 = omega arith in
          (
            (admitted, admitted_none b' ts none_left),
            inl (probe_none b' ts closed none_left, omega arith),
          )
    ]
