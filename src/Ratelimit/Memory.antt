-- ===== src/Ratelimit/Memory.antt =====
-- llms/ratelimit/memory.go: InMemoryLimiter. Each method runs under the mutex, so it is one step on
-- the limiter; the clock's reading, in nanoseconds, is an argument of what reads it.
pub mod Refill
pub mod Reserve
pub mod Granted
pub mod Keeps
pub mod Accounts
pub mod Admission
pub mod Settlement
pub mod Slots
pub mod Balance
use maestro_llms.Base.{
  ℕ, zero, suc, Bool, true, false, not, ◌&&◌, ◌||◌, Option, none, some, if◌then◌else◌,
}
use maestro_llms.Base.Int.{ℤ, pos, ◌-ℤ◌, ltb_ℤ, leb_ℤ, min_ℤ, max_ℤ, max_int, clamp64, add64, sub64}
use maestro_llms.Base.Float.{Float}
use maestro_llms.Llms.Usage.{Usage}
use maestro_llms.Satint
use maestro_llms.Bucket.Limits
use maestro_llms.Bucket.Limits.{BadLimits}
use maestro_llms.Ratelimit.{effective_tokens}

-- `reservation`, without the pointer to its limiter.
pub record Reservation : Type 0 where
  pub tokens : ℤ
  pub slots : ℤ
  pub committed : Bool
  pub released : Bool

module _ (fl : Float) where
  open fl use {F, of_int, to_int, plus, minus, times, over, lt, le, ratio}

  pub record Config : Type 0 where
    pub tokens_per_minute : ℤ
    pub max_concurrency : ℤ
    pub max_wait : ℤ
    pub poll_interval : ℤ
    pub buffer_factor : F

  -- `InMemoryLimiter`, but for its clock and mutex.
  pub record Limiter : Type 0 where
    pub last_refill : ℤ
    pub max_wait : ℤ
    pub poll_interval : ℤ
    pub refill_per_sec : F
    pub token_carry : F
    pub available_tok : ℤ
    pub max_capacity : ℤ
    pub active_reqs : ℤ
    pub max_concurrency : ℤ
    pub token_wait_hits : ℤ
    pub slot_wait_hits : ℤ
    pub token_limiting : Bool
    pub slot_limiting : Bool

  unfoldable pub limits_of : Config → Limits.Limits fl
  limits_of cfg = record {
    tokens_per_minute = cfg.tokens_per_minute;
    max_concurrency = cfg.max_concurrency;
    buffer_factor = cfg.buffer_factor;
  }

  unfoldable pub fresh : Config → ℤ → Limiter
  unfolding limits_of
  fresh cfg now = record {
    last_refill = now;
    max_wait = cfg.max_wait;
    poll_interval = if leb_ℤ cfg.poll_interval (pos 0) then pos 100000000 else cfg.poll_interval;
    refill_per_sec = Limits.refill_per_second fl (limits_of cfg);
    token_carry = of_int (pos 0);
    available_tok = Limits.capacity fl (limits_of cfg);
    max_capacity = Limits.capacity fl (limits_of cfg);
    active_reqs = pos 0;
    max_concurrency = cfg.max_concurrency;
    token_wait_hits = pos 0;
    slot_wait_hits = pos 0;
    token_limiting = Limits.token_limited fl (limits_of cfg);
    slot_limiting = Limits.slot_limited fl (limits_of cfg);
  }

  -- `NewInMemoryLimiter`: the limiter, or none where the limits do not pass Validate.
  unfoldable pub new_limiter : Config → ℤ → Option Limiter
  unfolding fresh
  new_limiter cfg now = elim (Limits.validate fl (limits_of cfg)) [
    | some e ↦ none
    | none ↦ some (fresh cfg now)
  ]

  -- `maxCarry`.
  abbrev pub max_carry : F
  max_carry = of_int max_int

  -- The chunk of the carry that a round takes.
  unfoldable pub chunk : F → ℤ
  chunk carry = if lt carry max_carry then to_int carry else max_int

  -- Whether the chunk fills the bucket.
  unfoldable pub fills : Limiter → ℤ → Bool
  unfolding sub64
  fills l whole =
      leb_ℤ (sub64 l.max_capacity max_int) l.available_tok
      && leb_ℤ (sub64 l.max_capacity l.available_tok) whole

  -- The loop of `refillLocked`, on fuel: `none` means that the fuel ran out.
  unfoldable pub refill_loop : ℕ → Limiter → Option Limiter
  unfolding chunk fills sub64 add64
  refill_loop zero l = none
  refill_loop (suc fuel) l =
      let whole = chunk l.token_carry in
      let rest = refill_loop fuel (record l {
        token_carry = minus l.token_carry (of_int whole);
        available_tok = add64 l.available_tok whole;
      }) in
      if not (le (of_int (pos 1)) l.token_carry)
      then some l
      else if fills l whole
      then some (record l { available_tok = l.max_capacity; token_carry = of_int (pos 0) })
      else rest

  -- `now.Sub(l.lastRefill).Seconds()`, which divides a Duration by a second.
  unfoldable pub elapsed_seconds : ℤ → ℤ → F
  unfolding ◌-ℤ◌
  elapsed_seconds last now = over (of_int (clamp64 (now -ℤ last))) (of_int (pos 1000000000))

  -- `refillLocked`.
  unfoldable pub refill : ℕ → ℤ → Limiter → Option Limiter
  unfolding refill_loop elapsed_seconds
  refill fuel now l =
      let elapsed = elapsed_seconds l.last_refill now in
      let l' = record l {
        last_refill = now;
        token_carry = plus l.token_carry (times elapsed l.refill_per_sec);
      } in
      if not l.token_limiting
      then some l
      else if le elapsed (of_int (pos 0))
      then some l
      else refill_loop fuel l'

  unfoldable pub has_tokens : Limiter → ℤ → Bool
  has_tokens l tokens = not l.token_limiting || leb_ℤ tokens l.available_tok

  unfoldable pub has_slot : Limiter → ℤ → Bool
  unfolding sub64
  has_slot l slots = not l.slot_limiting || leb_ℤ slots (sub64 l.max_concurrency l.active_reqs)

  -- `maxDurationNS`.
  abbrev max_duration_ns : F
  max_duration_ns = of_int max_int

  -- The deficit of `retryAfterLocked`.
  unfoldable pub deficit : Limiter → ℤ → F
  unfolding sub64
  deficit l tokens =
      if leb_ℤ (sub64 tokens max_int) l.available_tok
      then of_int (sub64 tokens l.available_tok)
      else minus (of_int tokens) (of_int l.available_tok)

  -- `retryAfterLocked`.
  unfoldable pub retry_after : Limiter → ℤ → Bool → ℤ
  unfolding deficit
  retry_after l tokens enough =
      let ns = times (over (deficit l tokens) l.refill_per_sec) (of_int (pos 1000000000)) in
      if enough || le l.refill_per_sec (of_int (pos 0))
      then pos 0
      else if le (deficit l tokens) (of_int (pos 0))
      then pos 0
      else if le max_duration_ns ns
      then max_int
      else to_int ns

  -- `tryAcquireLocked`.
  unfoldable pub try_acquire : Limiter → ℤ → ℤ → Limiter × Bool × ℤ
  unfolding has_tokens has_slot sub64 add64
  try_acquire l tokens slots =
      let taken = record l {
        available_tok = if l.token_limiting then sub64 l.available_tok tokens else l.available_tok;
        active_reqs = Satint.add l.active_reqs slots;
      } in
      let waiting = record l {
        token_wait_hits =
            if has_tokens l tokens then l.token_wait_hits else add64 l.token_wait_hits (pos 1);
        slot_wait_hits =
            if has_slot l slots then l.slot_wait_hits else add64 l.slot_wait_hits (pos 1);
      } in
      if has_tokens l tokens && has_slot l slots
      then (taken, true, pos 0)
      else (waiting, false, retry_after waiting tokens (has_tokens l tokens))

  -- The part of `Commit` behind its refill.
  unfoldable pub charge : Limiter → ℤ → ℤ → Limiter
  unfolding sub64
  charge l used reserved = record l {
    available_tok = min_ℤ (Satint.sub l.available_tok (sub64 used reserved)) l.max_capacity;
  }

  -- `reservation.Commit`, on the fuel of the refill loop.
  unfoldable pub commit : ℕ → ℤ → Usage → Limiter → Reservation → Option (Limiter × Reservation)
  unfolding refill charge
  commit fuel now usage l r =
      let r' = record r { committed = true } in
      if r.committed
      then some (l, r)
      else if not l.token_limiting
      then some (l, r')
      else elim (refill fuel now l) [
        | none ↦ none
        | some l' ↦ some (charge l' (effective_tokens usage) r.tokens, r')
      ]

  -- `reservation.Release`.
  unfoldable pub release : Limiter → Reservation → Limiter × Reservation
  unfolding sub64
  release l r = if r.released then (l, r) else (
    record l { active_reqs = max_ℤ (sub64 l.active_reqs r.slots) (pos 0) },
    record r { released = true },
  )
