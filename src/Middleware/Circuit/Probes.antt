-- ===== src/Middleware/Circuit/Probes.antt =====
-- llms/middleware/circuit.go: the gate that lets one probe through, with calls in flight.
use maestro_llms.Base.{ℕ, suc, ◌≤◌, ◌<◌, ◌≡◌, ◌≢◌, refl, String, true, false, arith}
use maestro_llms.Base.Int.{ℤ, pos, ◌<ℤ◌, ◌+ℤ◌, +ℤ_parts}
use maestro_llms.Llms.Errors.{GoError, is_nil}
use maestro_llms.Middleware.Circuit.{
  CircuitConfig, CircuitState, Breaker, Signal, new_breaker, allow, signal, record_result,
}
use maestro_llms.Middleware.Circuit.Machine.{IsValid, count_one}

-- A breaker with the calls that it has admitted and that have not recorded a result: probes, which
-- it admitted by the half-open state, and other calls.
pub record System : Type 0 where
  pub breaker : Breaker
  pub probes : ℕ
  pub others : ℕ

-- The moves of concurrent callers.
pub data Move (s : System) : System → Type 0 where
  -- a call is admitted in the closed state
  admit_other :
      (now : ℤ) {t : System}
      → s.breaker.state ≡ CircuitState.closed
      → t ≡ record s { breaker = (allow s.breaker now).0; others = suc s.others }
      → Move s t
  -- a probe is admitted
  admit_probe :
      (now : ℤ) {t : System}
      → s.breaker.state ≢ CircuitState.closed
      → (allow s.breaker now).1 ≡ GoError.nil
      → t ≡ record s { breaker = (allow s.breaker now).0; probes = suc s.probes }
      → Move s t
  -- a probe records its result
  finish_probe :
      (err : GoError) (now : ℤ) (n : ℕ) {t : System}
      → s.probes ≡ suc n
      → t ≡ record s { breaker = record_result s.breaker err now; probes = n }
      → Move s t
  -- another call records its result
  finish_other :
      (err : GoError) (now : ℤ) (n : ℕ) {t : System}
      → s.others ≡ suc n
      → t ≡ record s { breaker = record_result s.breaker err now; others = n }
      → Move s t

-- No call but a probe records while the breaker is half-open.
abbrev pub Orderly : {s t : System} → Move s t → Type 0
Orderly (Move.admit_other now c e) = Unit
Orderly (Move.admit_probe now c a e) = Unit
Orderly (Move.finish_probe err now n p e) = Unit
Orderly {s} (Move.finish_other err now n p e) = s.breaker.state ≢ CircuitState.half_open

pub data OrderlyReach (s : System) : System → Type 0 where
  here : OrderlyReach s s
  next : {t u : System} → OrderlyReach s t → (m : Move t u) → Orderly m → OrderlyReach s u

-- At most one probe is in flight, and then the gate is shut.
pub record Gated (s : System) : Type 0 where
  pub single : s.probes ≤ 1
  pub shut : 0 < s.probes → (s.breaker.state ≡ CircuitState.half_open) × (s.breaker.probing ≡ true)

Move-Gated : {s t : System} (m : Move s t) → Orderly m → Gated s → Gated t
unfolding allow record_result
Move-Gated (Move.admit_other now c e) o g = ground arith
Move-Gated (Move.admit_probe now c a e) o g = ground arith
Move-Gated (Move.finish_probe err now n p e) o g = ground arith
Move-Gated (Move.finish_other err now n p e) o g = ground arith

-- From a fresh breaker with no call in flight, moves in which no call but a probe records a result
-- while the breaker is half-open never lead to two probes in flight.
pub OrderlyReach-Gated :
    (cfg : CircuitConfig) (provider model : String) {s : System}
    → OrderlyReach (record { breaker = new_breaker cfg provider model; probes = 0; others = 0 }) s
    → Gated s
OrderlyReach-Gated cfg provider model OrderlyReach.here = record {
  single = omega arith;
  shut = λ h. absurd (omega arith);
}
OrderlyReach-Gated cfg provider model (OrderlyReach.next r m o) =
    Move-Gated m o (OrderlyReach-Gated cfg provider model r)

-- In the half-open state a call that is no probe, such as one admitted before the breaker tripped, may
-- record a result err, and any such result that is not a failure, and that would not close the
-- breaker, opens the gate: while a shut gate refused the next caller before it, allow then admits that
-- caller, at any time, as one more probe beside those in flight, and the breaker is still half-open.
pub stale_result_admits_probe :
    (s : System) (err : GoError) (t now : ℤ) (n : ℕ)
    → IsValid s.breaker
    → s.breaker.state ≡ CircuitState.half_open
    → s.others ≡ suc n
    → signal err ≢ Signal.failure
    → s.breaker.successes +ℤ pos 1 <ℤ s.breaker.cfg.success_threshold
    → let b' = record_result s.breaker err t in
      let u : System = record s { breaker = b'; others = n } in
      let v : System = record u { breaker = (allow b' now).0; probes = suc s.probes } in
      (s.breaker.probing ≡ true → is_nil (allow s.breaker now).1 ≡ false)
      × Move s u
      × ((allow b' now).1 ≡ GoError.nil)
      × Move u v
      × (v.breaker.state ≡ CircuitState.half_open)
unfolding allow record_result
stale_result_admits_probe s err t now n v h o f c =
    let b' = record_result s.breaker err t in
    let counted = count_one s.breaker.successes s.breaker.cfg.success_threshold in
    let sum = +ℤ_parts s.breaker.successes (pos 1) in
    let u : System = record s { breaker = b'; others = n } in
    let admitted : (allow b' now).1 ≡ GoError.nil = ground (arith, counted, sum) in
    (
      λ shut. ground arith,
      Move.finish_other err t n o refl,
      admitted,
      Move.admit_probe now (ground (arith, counted, sum)) admitted refl,
      ground (arith, counted, sum),
    )
