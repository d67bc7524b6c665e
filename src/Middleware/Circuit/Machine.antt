-- ===== src/Middleware/Circuit/Machine.antt =====
-- llms/middleware/circuit.go: what holds of a breaker after any sequence of calls of allow and
-- record, in any order.
use maestro_llms.Base.{◌≡◌, refl, sym, String, true, false, List, [], ◌∷◌, arith}
use maestro_llms.Base.Int.{
  ℤ, pos, ◌≤ℤ◌, ◌<ℤ◌, ◌+ℤ◌, ◌-ℤ◌, max_int, clamp64, add64, sub64, sub64_exact, add64_exact,
  +ℤ_parts, -ℤ_parts, eq_of_parts,
}
use maestro_llms.Llms.Errors.{GoError}
use maestro_llms.Middleware.Circuit.{
  CircuitConfig, CircuitState, Breaker, Signal, new_breaker, allow, record_result, remaining,
  guarded, trip, signal,
}

pub record IsValid (b : Breaker) : Type 0 where
  pub failure_range : (pos 1 ≤ℤ b.cfg.failure_threshold) × (b.cfg.failure_threshold ≤ℤ max_int)
  pub success_range : (pos 1 ≤ℤ b.cfg.success_threshold) × (b.cfg.success_threshold ≤ℤ max_int)
  pub timeout_set : pos 1 ≤ℤ b.cfg.open_timeout
  pub failures_below : (pos 0 ≤ℤ b.failures) × (b.failures <ℤ b.cfg.failure_threshold)
  pub successes_below : (pos 0 ≤ℤ b.successes) × (b.successes <ℤ b.cfg.success_threshold)
  pub closed_rests : b.state ≡ CircuitState.closed → (b.probing ≡ false) × (b.successes ≡ pos 0)
  pub open_rests :
      b.state ≡ CircuitState.open_circuit
      → (b.probing ≡ false) × (b.failures ≡ pos 0) × (b.successes ≡ pos 0)
  pub half_open_unfailed : b.state ≡ CircuitState.half_open → b.failures ≡ pos 0

pub new_breaker-IsValid :
    (cfg : CircuitConfig) (provider model : String)
    → cfg.failure_threshold ≤ℤ max_int
    → cfg.success_threshold ≤ℤ max_int
    → IsValid (new_breaker cfg provider model)
unfolding new_breaker
new_breaker-IsValid cfg provider model f s = ground arith

pub allow-IsValid : (b : Breaker) (now : ℤ) → IsValid b → IsValid (allow b now).0
unfolding allow
allow-IsValid b now v = ground arith

-- Below a threshold, counting one more does not wrap.
pub count_one :
    (n limit : ℤ) → pos 0 ≤ℤ n → n <ℤ limit → limit ≤ℤ max_int → add64 n (pos 1) ≡ n +ℤ pos 1
count_one n limit a h m = add64_exact n (pos 1) (ground (arith, +ℤ_parts n (pos 1)))

pub record_result-IsValid :
    (b : Breaker) (err : GoError) (now : ℤ) → IsValid b → IsValid (record_result b err now)
unfolding record_result
record_result-IsValid b err now v = ground (
  arith,
  count_one b.failures b.cfg.failure_threshold,
  count_one b.successes b.cfg.success_threshold,
  +ℤ_parts b.failures (pos 1),
  +ℤ_parts b.successes (pos 1),
)

-- A call of the breaker by some caller: `allow`, or `record` with an error, at a time.
pub data Event : Type 0 where
  asks : ℤ → Event
  reports : GoError → ℤ → Event

pub apply : Breaker → Event → Breaker
apply b (Event.asks now) = (allow b now).0
apply b (Event.reports err now) = record_result b err now

unfoldable pub apply_all : Breaker → List Event → Breaker
apply_all b [] = b
apply_all b (e ∷ es) = apply_all (apply b e) es

apply-IsValid : (b : Breaker) (e : Event) → IsValid b → IsValid (apply b e)
unfolding apply
apply-IsValid b (Event.asks now) v = allow-IsValid b now v
apply-IsValid b (Event.reports err now) v = record_result-IsValid b err now v

apply_all-IsValid : (b : Breaker) (es : List Event) → IsValid b → IsValid (apply_all b es)
unfolding apply_all
apply_all-IsValid b [] v = v
apply_all-IsValid b (e ∷ es) v = apply_all-IsValid (apply b e) es (apply-IsValid b e v)

-- Whatever callers do, in any order: the counts stay below the thresholds, the gate is shut for no
-- probe outside the half-open state, a closed breaker has no success counted, and an open one no
-- failure either. The thresholds of the config may be any ints.
pub new_breaker-apply_all-IsValid :
    (cfg : CircuitConfig) (provider model : String) (es : List Event)
    → cfg.failure_threshold ≤ℤ max_int
    → cfg.success_threshold ≤ℤ max_int
    → IsValid (apply_all (new_breaker cfg provider model) es)
new_breaker-apply_all-IsValid cfg provider model es f s =
    apply_all-IsValid (new_breaker cfg provider model) es
      (new_breaker-IsValid cfg provider model f s)

-- A failure that leaves the breaker open has tripped it then.
tripped :
    (b : Breaker) (err : GoError) (t : ℤ)
    → signal err ≡ Signal.failure
    → (record_result b err t).state ≡ CircuitState.open_circuit
    → record_result b err t ≡ trip b t
unfolding record_result trip
tripped b err t f o = ground arith

-- The time that an elapsed time leaves, without a wrap.
remaining_exact :
    (timeout opened now : ℤ)
    → pos 0 ≤ℤ timeout
    → timeout ≤ℤ max_int
    → opened ≤ℤ now
    → now -ℤ opened ≤ℤ max_int
    → sub64 timeout (clamp64 (now -ℤ opened)) ≡ opened +ℤ timeout -ℤ now
remaining_exact timeout opened now h m past small =
    let spent = now -ℤ opened in
    let unclamped : clamp64 spent ≡ spent = ground (arith, -ℤ_parts now opened) in
    rw unclamped (
      ground (
        arith,
        sub64_exact timeout spent,
        -ℤ_parts now opened,
        -ℤ_parts timeout spent,
        +ℤ_parts opened timeout,
        -ℤ_parts (opened +ℤ timeout) now,
        eq_of_parts (sub64 timeout spent) (opened +ℤ timeout -ℤ now),
      ))

remaining-trip :
    (b : Breaker) (t now : ℤ)
    → pos 0 ≤ℤ b.cfg.open_timeout
    → b.cfg.open_timeout ≤ℤ max_int
    → t ≤ℤ now
    → now -ℤ t ≤ℤ max_int
    → remaining (trip b t) now ≡ t +ℤ b.cfg.open_timeout -ℤ now
unfolding remaining trip
remaining-trip b t now h m past small = remaining_exact b.cfg.open_timeout t now h m past small

-- A call that asks an open breaker, with time left and without.
module _ {W Resp : Type 0} (clock : W → ℤ) (zero : Resp) (call : W → Resp × GoError × W)
    (b : Breaker) (w : W) (opened : b.state ≡ CircuitState.open_circuit) where
  refused_open :
      pos 0 <ℤ remaining b (clock w)
      → guarded clock zero call b w
        ≡ (zero, GoError.circuit_open b.provider b.model (remaining b (clock w)), b, w)
  unfolding guarded
  refused_open left = ground arith

  asked_open :
      remaining b (clock w) ≤ℤ pos 0
      → let (b', refused) = allow b (clock w) in
        (refused ≡ GoError.nil) × (b'.state ≡ CircuitState.half_open) × (b'.probing ≡ true)
  unfolding allow
  asked_open over = ground arith

  called_open :
      remaining b (clock w) ≤ℤ pos 0
      → let result = guarded clock zero call b w in
        (result.0 ≡ (call w).0) × (result.1 ≡ (call w).1) × (result.3 ≡ (call w).2)
  unfolding guarded
  called_open over = rw (asked_open over).0 (refl, refl, refl)

-- A call that fails and leaves the breaker open, from whatever state, opens it for just OpenTimeout. Of
-- the calls that ask later, one that asks before that time is over makes no call and changes nothing,
-- and gets the zero response with an error that holds the time left; one that asks from then on turns
-- the breaker half-open as its probe, makes its call and gets its result. The clock is not before the failure, and within an int of it.
pub guarded_after_failure :
    {W Resp : Type 0} (clock : W → ℤ) (zero : Resp) (call : W → Resp × GoError × W) (b : Breaker)
    (err : GoError) (t : ℤ) (w : W)
    → IsValid b
    → signal err ≡ Signal.failure
    → (record_result b err t).state ≡ CircuitState.open_circuit
    → b.cfg.open_timeout ≤ℤ max_int
    → t ≤ℤ clock w
    → clock w -ℤ t ≤ℤ max_int
    → let b' = record_result b err t in
      let result = guarded clock zero call b' w in
      (clock w <ℤ t +ℤ b.cfg.open_timeout
        → result ≡ (
          zero,
          GoError.circuit_open b.provider b.model (t +ℤ b.cfg.open_timeout -ℤ clock w),
          b',
          w,
        ))
      × (t +ℤ b.cfg.open_timeout ≤ℤ clock w
          → ((allow b' (clock w)).0.state ≡ CircuitState.half_open)
            × ((allow b' (clock w)).0.probing ≡ true)
            × (result.0 ≡ (call w).0)
            × (result.1 ≡ (call w).1)
            × (result.3 ≡ (call w).2))
unfolding trip
guarded_after_failure clock zero call b err t w v f o m past small =
    let left : remaining (trip b t) (clock w) ≡ t +ℤ b.cfg.open_timeout -ℤ clock w =
      remaining-trip b t (clock w) (omega (arith, v.timeout_set)) m past small in
    let parts = -ℤ_parts (t +ℤ b.cfg.open_timeout) (clock w) in
    let same = tripped b err t f o in
    rw same (
      λ early.
          (rw (sym left) (
            refused_open clock zero call (trip b t) w refl
              (rw left (omega (arith, early, parts))))),
      λ late.
          let over : remaining (trip b t) (clock w) ≤ℤ pos 0 =
            rw left (omega (arith, late, parts)) in
          let (asked, half, shut) = asked_open clock zero call (trip b t) w refl over in
          let (resp, failed, world) = called_open clock zero call (trip b t) w refl over in
          (half, shut, resp, failed, world),
    )
