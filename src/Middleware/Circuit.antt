-- ===== src/Middleware/Circuit.antt =====
-- llms/middleware/circuit.go: the circuit breaker. Times are nanoseconds, and the clock's reading is
-- an argument of what reads it. The mutex makes `allow` and `record` single steps; what happens
-- between them, other calls included, is left to the caller of the model.
pub mod Machine
pub mod Streaks
pub mod Probes
use maestro_llms.Base.{
  String, Bool, true, false, not, ◌&&◌, ◌||◌, Option, none, some, is_some, if◌then◌else◌,
}
use maestro_llms.Base.Int.{ℤ, pos, ◌-ℤ◌, ltb_ℤ, leb_ℤ, clamp64, add64, sub64}
use maestro_llms.Llms.Errors.{GoError, is_nil, retryable, as_limit}

pub record CircuitConfig : Type 0 where
  pub failure_threshold : ℤ
  pub success_threshold : ℤ
  pub open_timeout : ℤ

-- `DefaultCircuitConfig`, 30 seconds open.
abbrev pub default_circuit_config : CircuitConfig
default_circuit_config = record {
  failure_threshold = pos 5;
  success_threshold = pos 3;
  open_timeout = pos 30000000000;
}

-- `CircuitConfig.normalized`.
unfoldable pub normalized : CircuitConfig → CircuitConfig
normalized c = record {
  failure_threshold =
      if ltb_ℤ c.failure_threshold (pos 1)
      then default_circuit_config.failure_threshold
      else c.failure_threshold;
  success_threshold =
      if ltb_ℤ c.success_threshold (pos 1)
      then default_circuit_config.success_threshold
      else c.success_threshold;
  open_timeout =
      if leb_ℤ c.open_timeout (pos 0) then default_circuit_config.open_timeout else c.open_timeout;
}

pub data CircuitState : Type 0 where
  closed open_circuit half_open : CircuitState

pub record Breaker : Type 0 where
  pub opened_at : ℤ
  pub provider : String
  pub model : String
  pub cfg : CircuitConfig
  pub state : CircuitState
  pub failures : ℤ
  pub successes : ℤ
  pub probing : Bool

-- The breaker that `CircuitChat` and `CircuitEmbeddings` make for a wrapped client.
unfoldable pub new_breaker : CircuitConfig → String → String → Breaker
unfolding normalized
new_breaker cfg provider model = record {
  opened_at = pos 0;
  provider = provider;
  model = model;
  cfg = normalized cfg;
  state = CircuitState.closed;
  failures = pos 0;
  successes = pos 0;
  probing = false;
}

-- `b.cfg.OpenTimeout - time.Since(b.openedAt)`; time.Since is clamped to a Duration.
unfoldable pub remaining : Breaker → ℤ → ℤ
unfolding ◌-ℤ◌ sub64
remaining b now = sub64 b.cfg.open_timeout (clamp64 (now -ℤ b.opened_at))

allow_in : CircuitState → Breaker → ℤ → Breaker × GoError
unfolding remaining
allow_in CircuitState.closed b now = (b, GoError.nil)
allow_in CircuitState.open_circuit b now =
    if ltb_ℤ (pos 0) (remaining b now)
    then (b, GoError.circuit_open b.provider b.model (remaining b now))
    else (
      record b { state = CircuitState.half_open; successes = pos 0; probing = true },
      GoError.nil,
    )
allow_in CircuitState.half_open b now =
    if b.probing
    then (b, GoError.circuit_open b.provider b.model (pos 0))
    else (record b { probing = true }, GoError.nil)

-- `breaker.allow`.
unfoldable pub allow : Breaker → ℤ → Breaker × GoError
unfolding allow_in
allow b now = allow_in b.state b now

-- `breaker.trip`.
unfoldable pub trip : Breaker → ℤ → Breaker
trip b now = record b {
  state = CircuitState.open_circuit;
  opened_at = now;
  failures = pos 0;
  successes = pos 0;
  probing = false;
}

-- What `record` takes a call's error for.
pub data Signal : Type 0 where
  success failure neutral : Signal

-- A retryable error counts, but not one with a *llms.LimitError in its chain.
unfoldable pub signal : GoError → Signal
unfolding retryable as_limit
signal err =
    if is_nil err
    then Signal.success
    else if retryable err && not (is_some (as_limit err))
    then Signal.failure
    else Signal.neutral

on_failure : CircuitState → Breaker → ℤ → Breaker
unfolding trip add64
on_failure CircuitState.closed b now =
    let b' = record b { failures = add64 b.failures (pos 1) } in
    if leb_ℤ b.cfg.failure_threshold b'.failures then trip b' now else b'
on_failure CircuitState.half_open b now = trip b now
on_failure CircuitState.open_circuit b now = trip b now

on_success : CircuitState → Breaker → Breaker
unfolding add64
on_success CircuitState.closed b = record b { failures = pos 0 }
on_success CircuitState.half_open b =
    let b' = record b { successes = add64 b.successes (pos 1) } in
    if leb_ℤ b.cfg.success_threshold b'.successes
    then record b' {
      state = CircuitState.closed;
      failures = pos 0;
      successes = pos 0;
      probing = false;
    }
    else record b' { probing = false }
on_success CircuitState.open_circuit b = b

on_neutral : CircuitState → Breaker → Breaker
on_neutral CircuitState.half_open b = record b { probing = false }
on_neutral _ b = b

fold_signal : Signal → Breaker → ℤ → Breaker
unfolding on_failure on_success on_neutral
fold_signal Signal.failure b now = on_failure b.state b now
fold_signal Signal.success b now = on_success b.state b
fold_signal Signal.neutral b now = on_neutral b.state b

-- `breaker.record`; `now` is read where the breaker trips.
unfoldable pub record_result : Breaker → GoError → ℤ → Breaker
unfolding fold_signal signal
record_result b err now = fold_signal (signal err) b now

module _ {W Resp : Type 0} (now : W → ℤ) where
  -- `guarded`, for a call that no other call of the breaker overlaps.
  unfoldable pub guarded :
      Resp → (W → Resp × GoError × W) → Breaker → W → Resp × GoError × Breaker × W
  unfolding allow record_result
  guarded zero call b w =
      let (b', refused) = allow b (now w) in
      let (resp, err, w') = call w in
      if not (is_nil refused)
      then (zero, refused, b', w)
      else (resp, err, record_result b' err (now w'), w')
