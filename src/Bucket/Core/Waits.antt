-- ===== src/Bucket/Core/Waits.antt =====
-- bucket/internal/core/core.go: the sleeps of a wait, and how it ends.
use maestro_llms.Base.{
  ℕ, zero, suc, ◌+◌, ◌-◌, ◌/◌, ◌≤◌, ◌≡◌, ◌⊎◌, refl, String, true, false, Option, some, Result, ok,
  err, arith, inl, inr, Bool-cases,
}
use maestro_llms.Base.Int.{
  ℤ, pos, negsuc, pos_part, ◌≤ℤ◌, ◌<ℤ◌, leb_ℤ, ltb_ℤ, min_ℤ, max_ℤ, max_int, add64, sub64,
  add64_pos, sub64_pos,
}
use maestro_llms.Llms.Errors.{is_nil}
use maestro_llms.Bucket.Core.{
  When, Reason, AcquireError, Attempt, Waiter, Surroundings, jitter, wait_err, ended,
  refused_for_good, sleep_for, next_backoff, after_try, wait_from, wait,
}

-- What rand.N promises: for a positive n, a number from 0 up to n - 1.
unfoldable pub RandomRange : {W : Type 0} → Surroundings W → Type 0
RandomRange {W} env =
    (n : ℤ) (w : W) → pos 1 ≤ℤ n → (pos 0 ≤ℤ (env.random n w).0) × ((env.random n w).0 <ℤ n)

half_bounds : (d : ℕ) → 2 ≤ d → (1 ≤ d / 2) × (d / 2 + d / 2 ≤ d) × (d ≤ d / 2 + d / 2 + 1)
half_bounds d h = ground arith

-- The range of a jittered duration from 2 on.
drawn :
    (d : ℕ) (r : ℤ)
    → 2 ≤ d
    → pos d ≤ℤ max_int
    → pos 0 ≤ℤ r
    → r <ℤ add64 (sub64 (pos d) (pos (d / 2))) (pos 1)
    → let s = add64 (pos (d / 2)) r in (pos 1 ≤ℤ s) × (s ≤ℤ pos d) × (pos (d / 2) ≤ℤ s)
drawn d (negsuc r) big small low high = absurd (ground (arith, low))
drawn d (pos r) big small low high =
    let half = half_bounds d big in
    let rest = sub64_pos d (d / 2) (omega (arith, half)) small in
    let width = add64_pos (d - d / 2) 1 (ground (arith, half, small)) in
    let below : r ≤ d - d / 2 = ground (arith, high, rest, width) in
    let sum = add64_pos (d / 2) r (ground (arith, half, below, small)) in
    ground (arith, sum, below, half)

-- A sleep cut to a hint.
hinted_bounds :
    (j hint most half : ℤ)
    → pos 1 ≤ℤ j
    → j ≤ℤ most
    → half ≤ℤ j
    → pos 1 ≤ℤ hint
    → let d = min_ℤ j hint in
      (pos 1 ≤ℤ d)
      × (d ≤ℤ most)
      × (pos 1 ≤ℤ hint → d ≤ℤ hint)
      × ((half ≤ℤ d) ⊎ ((pos 1 ≤ℤ hint) × (d ≡ hint)))
hinted_bounds j hint most half one below over positive = elim (Bool-cases (ltb_ℤ hint j)) [
  | inl cut ↦ rw cut (positive, ground (arith, cut, below), λ h. omega arith, inr (positive, refl))
  | inr whole ↦ rw whole (one, below, λ h. ground (arith, whole), inl over)
]

module _ {W : Type 0} (env : Surroundings W) where
  jitter_bounds :
      (d : ℤ) (w : W)
      → RandomRange env
      → d ≤ℤ max_int
      → let j = (jitter env d w).0 in
        (pos 1 ≤ℤ j) × (j ≤ℤ max_ℤ d (pos 1)) × (pos (pos_part d / 2) ≤ℤ j)
  unfolding jitter RandomRange
  jitter_bounds (negsuc d) w range small = ground arith
  jitter_bounds (pos d) w range small = elim (Bool-cases (leb_ℤ (pos d) (pos 1))) [
    | inl short ↦ rw (short, jitter) (ground (arith, short))
    | inr long ↦
        let half = half_bounds d (ground (arith, long)) in
        let rest = sub64_pos d (d / 2) (omega (arith, half)) small in
        let width = add64_pos (d - d / 2) 1 (ground (arith, half, small)) in
        let r =
          range (add64 (sub64 (pos d) (pos (d / 2))) (pos 1)) w (ground (arith, rest, width)) in
        let s = drawn d _ (ground (arith, long)) small r.0 r.1 in
        rw (long, jitter) (s.0, ground (arith, s.1, long), s.2)
  ]

  -- Where rand.N draws from its range, a wait sleeps at least a nanosecond, at least half the backoff
  -- or just the hint, at most the backoff (or a nanosecond), and never past a positive hint.
  pub sleep_for_bounds :
      (key : String) (waiter : Waiter) (backoff hint : ℤ) (w : W)
      → RandomRange env
      → backoff ≤ℤ max_int
      → let d = (sleep_for env key waiter backoff hint w).0 in
        (pos 1 ≤ℤ d)
        × (d ≤ℤ max_ℤ backoff (pos 1))
        × (pos 1 ≤ℤ hint → d ≤ℤ hint)
        × ((pos (pos_part backoff / 2) ≤ℤ d) ⊎ ((pos 1 ≤ℤ hint) × (d ≡ hint)))
  unfolding sleep_for
  sleep_for_bounds key waiter backoff hint w range small =
      let j = jitter_bounds backoff w range small in
      elim (Bool-cases (ltb_ℤ (pos 0) hint)) [
        | inr unhinted ↦
            rw (unhinted, sleep_for) (j.0, j.1, λ h. absurd (ground (arith, h, unhinted)), inl j.2)
        | inl hinted ↦
            rw (hinted, sleep_for)
              (hinted_bounds _ hint (max_ℤ backoff (pos 1)) (pos (pos_part backoff / 2)) j.0 j.1 j.2
                (ground (arith, hinted)))
      ]

-- The hint that a wait reports: none before a first try, or that of a try.
pub data Hinted {W L : Type 0} (try : W → Result AcquireError (Attempt L) × W) : ℤ → Type 0 where
  unhinted : {hint : ℤ} → hint ≡ pos 0 → Hinted try hint
  hinted : {hint : ℤ} (v w : W) → try v ≡ (ok (Attempt.later hint), w) → Hinted try hint

-- How a wait ends: with what a try that began with the context live has just returned, a lease, an
-- error or that the request never fits; or with its context, whose error is then set.
pub data WaitEnd {W L : Type 0} (env : Surroundings W) (key : String) (waiter : Waiter)
    (try : W → Result AcquireError (Attempt L) × W) : Result AcquireError L → W → Type 0 where
  leased :
      (l : L) (v w : W)
      → is_nil (wait_err env key waiter v) ≡ true
      → try v ≡ (ok (Attempt.admitted l), w)
      → WaitEnd env key waiter try (ok l) w
  failed :
      (e : AcquireError) (v w : W)
      → is_nil (wait_err env key waiter v) ≡ true
      → try v ≡ (err e, w)
      → is_nil (wait_err env key waiter w) ≡ true
      → WaitEnd env key waiter try (err e) w
  refused :
      (reason : Reason) (v w : W)
      → is_nil (wait_err env key waiter v) ≡ true
      → try v ≡ (ok (Attempt.never reason), w)
      → WaitEnd env key waiter try
          (err (AcquireError.limited (refused_for_good env key waiter reason)))
          w
  gave_up :
      (when : When) (hint : ℤ) (w : W)
      → Hinted try hint
      → is_nil (wait_err env key waiter w) ≡ false
      → WaitEnd env key waiter try (err (AcquireError.limited (ended env key waiter when hint w))) w

-- The time left before the wait's context ends, at latest, as documented of deadlines and timers: no
-- call adds to it, a timer that fires after a sleep has used some up, and with none left the context
-- has an error; it also has one where the `select` saw it end.
pub record Deadline {W L : Type 0} (env : Surroundings W) (key : String) (waiter : Waiter)
    (try : W → Result AcquireError (Attempt L) × W) : Type 0 where
  pub left : W → ℕ
  pub spent : (w : W) → left w ≡ 0 → is_nil (wait_err env key waiter w) ≡ false
  pub try_left : (w : W) → left (try w).1 ≤ left w
  pub random_left : (n : ℤ) (w : W) → left (env.random n w).1 ≤ left w
  pub fired :
      (d : ℤ) (w : W)
      → pos 1 ≤ℤ d
      → (env.sleep d w).0 ≡ false
      → suc (left (env.sleep d w).1) ≤ left w
  pub stopped :
      (d : ℤ) (w : W)
      → (env.sleep d w).0 ≡ true
      → is_nil (wait_err env key waiter (env.sleep d w).1) ≡ false

module _ {W L : Type 0} (env : Surroundings W) (key : String) (waiter : Waiter)
    (try : W → Result AcquireError (Attempt L) × W) (range : RandomRange env)
    (deadline : Deadline env key waiter try) where
  open deadline use {left}

  jitter-left : (d : ℤ) (w : W) → left (jitter env d w).1 ≤ left w
  unfolding jitter
  jitter-left d w = elim (Bool-cases (leb_ℤ d (pos 1))) [
    | inl short ↦ rw (short, jitter) (omega arith)
    | inr long ↦ rw (long, jitter) (deadline.random_left _ w)
  ]

  sleep_for-left :
      (backoff hint : ℤ) (w : W) → left (sleep_for env key waiter backoff hint w).1 ≤ left w
  unfolding sleep_for
  sleep_for-left backoff hint w = jitter-left backoff w

  -- A run of the loop that returned.
  data Returned : Option (Result AcquireError L × W) → Type 0 where
    returned :
        (r : Result AcquireError L) (w : W)
        → WaitEnd env key waiter try r w
        → Returned (some (r, w))

  after_try-Returned :
      (again : ℤ → ℤ → W → Option (Result AcquireError L × W)) (backoff hint : ℤ) (v : W)
      (r : Result AcquireError (Attempt L)) (w : W)
      → is_nil (wait_err env key waiter v) ≡ true
      → try v ≡ (r, w)
      → Hinted try hint
      → backoff ≤ℤ max_int
      → ((hint' : ℤ) (w' : W)
          → Hinted try hint'
          → suc (left w') ≤ left w
          → Returned (again (next_backoff env key waiter backoff) hint' w'))
      → Returned (after_try env key waiter again backoff hint r w)
  unfolding after_try
  after_try-Returned again backoff hint v (ok (Attempt.admitted l)) w live tried said small next =
      returned _ _ (leased l v w live tried)
  after_try-Returned again backoff hint v (ok (Attempt.never reason)) w live tried said small next =
      returned _ _ (refused reason v w live tried)
  after_try-Returned again backoff hint v (err e) w began tried said small next =
      elim (Bool-cases (is_nil (wait_err env key waiter w))) [
        | inl live ↦ rw (live, after_try) (returned _ _ (failed e v w began tried live))
        | inr ended ↦
            rw (ended, after_try) (returned _ _ (gave_up When.while_acquiring hint w said ended))
      ]
  after_try-Returned again backoff hint v (ok (Attempt.later hint')) w live tried said small next =
      let (d, w1) = sleep_for env key waiter backoff hint' w in
      let positive = (sleep_for_bounds env key waiter backoff hint' w range small).0 in
      elim (Bool-cases (env.sleep d w1).0) [
        | inl stopped ↦
            rw (stopped, after_try)
              (returned _ _ (
                gave_up When.while_waiting hint' _ (hinted v w tried)
                  (deadline.stopped d w1 stopped)))
        | inr fired ↦
            rw (fired, after_try)
              (next hint' _ (hinted v w tried)
                (omega (arith, deadline.fired d w1 positive fired, sleep_for-left backoff hint' w)))
      ]

  next_backoff_small :
      (backoff : ℤ) → waiter.max ≤ℤ max_int → next_backoff env key waiter backoff ≤ℤ max_int
  next_backoff_small backoff h = ground (arith, h)

  -- The loop with more fuel than time left.
  wait_from-Returned :
      (fuel : ℕ) (backoff hint : ℤ) (w : W)
      → waiter.max ≤ℤ max_int
      → backoff ≤ℤ max_int
      → Hinted try hint
      → suc (left w) ≤ fuel
      → Returned (wait_from env key waiter try fuel backoff hint w)
  unfolding wait_from
  wait_from-Returned zero backoff hint w cap small said enough = absurd (omega (arith, enough))
  wait_from-Returned (suc fuel) backoff hint w cap small said enough =
      elim (Bool-cases (is_nil (wait_err env key waiter w))) [
        | inr ended ↦
            rw (ended, wait_from) (returned _ _ (gave_up When.before_capacity hint w said ended))
        | inl live ↦
            rw (live, wait_from)
              (after_try-Returned _ backoff hint w _ _ live refl said small (λ hint' w' said' less.
                wait_from-Returned fuel _ hint' w' cap (next_backoff_small backoff cap) said'
                  (omega (arith, less, deadline.try_left w, enough))))
      ]

  Returned-some :
      (o : Option (Result AcquireError L × W))
      → Returned o
      → (r : Result AcquireError L) × (w' : W) × (o ≡ some (r, w'))
        × WaitEnd env key waiter try r w'
  Returned-some _ (returned r w' e) = (r, w', refl, e)

  -- Where the context of the wait ends some time, rand.N draws from its range and the poll intervals
  -- are ints, Wait returns: with as many rounds as one more than the nanoseconds left it has a
  -- result. It is what the last try, begun with the context live, returned: a lease, or, with the
  -- context live still, its error, or the permanent rejection of a request that the try said never
  -- fits; or it is the report of an ended wait, and then the context has ended and the hint is
  -- that of a try, or none. A try that says to come back later does not end the wait by itself.
  pub wait-WaitEnd :
      (fuel : ℕ) (w : W)
      → waiter.initial ≤ℤ max_int
      → waiter.max ≤ℤ max_int
      → suc (left w) ≤ fuel
      → (r : Result AcquireError L) × (w' : W) × (wait env key waiter try fuel w ≡ some (r, w'))
        × WaitEnd env key waiter try r w'
  unfolding wait
  wait-WaitEnd fuel w small cap enough =
      Returned-some _
        (wait_from-Returned fuel waiter.initial (pos 0) w cap small (unhinted refl) enough)
