-- ===== src/Bucket/Memory.antt =====
-- bucket/memory/memory.go: the process-local limiter with a bucket for each key. A method's body
-- under the mutex is one step on the limiter; the clock's reading is an argument. A lease holds its
-- key, whose state the limiter never drops.
pub mod Holding
pub mod Attempts
pub mod Returns
pub mod Promise
pub mod Accounts
pub mod Refines
use maestro_llms.Base.{
  ℕ, String, Bool, true, false, not, Option, none, some, List, [], ◌∷◌, Result, ok, err,
  if◌then◌else◌, str_eq,
}
use maestro_llms.Base.Int.{ℤ, pos, leb_ℤ, max_ℤ, add64, sub64}
use maestro_llms.Base.Float.{Float}
use maestro_llms.Llms.Errors.{GoError, is_nil}
use maestro_llms.Bucket.Limits.{Limits, BadLimits, validate, capacity, token_limited}
use maestro_llms.Bucket.Core.{
  Attempt, AcquireError, Reason, Waiter, Surroundings, wait, wait_err, settle, adjusted,
  retry_after, impossible, fits,
}

-- `lease`, without the pointer to its limiter.
pub record Lease : Type 0 where
  pub key : String
  pub tokens : ℤ
  pub adjusted : Bool
  pub released : Bool

module _ (fl : Float) where
  open fl use {F, of_int, minus}

  pub record Config : Type 0 where
    pub limits : List (String × Limits fl)
    pub default_limits : Option (Limits fl)
    pub max_wait : ℤ
    pub poll_interval : ℤ
    pub max_poll_interval : ℤ

  pub record KeyState : Type 0 where
    pub last_refill : ℤ
    pub limits : Limits fl
    pub balance : F
    pub live : ℤ

  -- `Limiter`: `keys` is the map `state`.
  pub record Limiter : Type 0 where
    pub limits : List (String × Limits fl)
    pub def : Option (Limits fl)
    pub keys : String → Option KeyState
    pub waiter : Waiter

  -- The first error of the configured limits, with its key.
  unfoldable pub check_limits : List (String × Limits fl) → Option (String × BadLimits)
  check_limits [] = none
  check_limits ((key, l) ∷ rest) =
      let later = check_limits rest in
      elim (validate fl l) [ some e ↦ some (key, e) | none ↦ later ]

  check_default : Option (Limits fl) → Option BadLimits
  check_default none = none
  check_default (some l) = validate fl l

  abbrev no_keys : String → Option KeyState
  no_keys key = none

  unfoldable pub fresh : Config → Limiter
  fresh cfg =
      let poll = if leb_ℤ cfg.poll_interval (pos 0) then pos 100000000 else cfg.poll_interval in
      let max_poll =
        if leb_ℤ cfg.max_poll_interval (pos 0) then pos 1000000000 else cfg.max_poll_interval in
      record {
        limits = cfg.limits;
        def = cfg.default_limits;
        keys = no_keys;
        waiter = record { max_wait = cfg.max_wait; initial = poll; max = max_ℤ poll max_poll };
      }

  -- `New`: none where some limits do not pass Validate.
  unfoldable pub new_limiter : Config → Option Limiter
  unfolding check_limits check_default fresh
  new_limiter cfg = elim (check_limits cfg.limits) [
    | some e ↦ none
    | none ↦ elim (check_default cfg.default_limits) [ some e ↦ none | none ↦ some (fresh cfg) ]
  ]

  -- `l.limits[key]`
  unfoldable pub lookup : List (String × Limits fl) → String → Option (Limits fl)
  lookup [] key = none
  lookup ((k, l) ∷ rest) key = if str_eq k key then some l else lookup rest key

  -- The limits of a key: its own, or the default ones.
  unfoldable pub limits_for : Limiter → String → Option (Limits fl)
  unfolding lookup
  limits_for l key = elim (lookup l.limits key) [ some lim ↦ some lim | none ↦ l.def ]

  -- `l.state[key] = s`
  abbrev pub with_key : Limiter → String → KeyState → Limiter
  with_key l key s = record l { keys = λ q. if str_eq q key then some s else l.keys q }

  abbrev pub full : Limits fl → ℤ → KeyState
  full lim now = record {
    last_refill = now;
    limits = lim;
    balance = of_int (capacity fl lim);
    live = pos 0;
  }

  -- `stateLocked`: the key's state, or none for an unknown key.
  unfoldable pub state_locked : Limiter → String → ℤ → Option (KeyState × Limiter)
  unfolding limits_for
  state_locked l key now = elim (l.keys key) [
    | some s ↦ some (s, l)
    | none ↦ elim (limits_for l key) [
      | none ↦ none
      | some lim ↦ some (full lim now, with_key l key (full lim now))
    ]
  ]

  -- `settleLocked`.
  unfoldable pub settle_locked : KeyState → ℤ → KeyState
  settle_locked s now = record s {
    balance = settle fl s.limits s.balance s.last_refill now;
    last_refill = now;
  }

  -- The charge of an admitted request.
  unfoldable pub charge : KeyState → ℤ → KeyState
  unfolding add64
  charge s tokens = record s {
    balance = if token_limited fl s.limits then minus s.balance (of_int tokens) else s.balance;
    live = add64 s.live (pos 1);
  }

  -- What an attempt does once the key's state is settled, by the reason and by whether it fits.
  unfoldable pub admit_settled :
      Limiter → String → ℤ → KeyState → Option Reason → Bool → Attempt Lease × Limiter
  unfolding charge
  admit_settled l key tokens s (some reason) fit = (Attempt.never reason, l)
  admit_settled l key tokens s none true = (
    Attempt.admitted (record { key = key; tokens = tokens; adjusted = false; released = false }),
    with_key l key (charge s tokens),
  )
  admit_settled l key tokens s none false =
      (Attempt.later (retry_after fl s.limits s.balance tokens), with_key l key s)

  unfoldable pub admit : Limiter → String → ℤ → ℤ → KeyState → Attempt Lease × Limiter
  unfolding settle_locked admit_settled
  admit l key tokens now s =
      let s' = settle_locked s now in
      admit_settled l key tokens s' (impossible fl s.limits tokens)
        (fits fl s'.limits s'.balance tokens s'.live)

  -- `bucket.UnknownKey`.
  abbrev pub unknown_key : String → GoError
  unknown_key key = GoError.errorf key (GoError.opaque "bucket: unknown key" GoError.nil)

  -- An attempt of `Acquire`, with the Err of its context; `tokens` is what Acquire was given.
  unfoldable pub attempt :
      Limiter → GoError → String → ℤ → ℤ → Result AcquireError (Attempt Lease) × Limiter
  unfolding state_locked admit
  attempt l ctx_err key tokens now =
      let charged = max_ℤ tokens (pos 0) in
      if not (is_nil ctx_err)
      then (err (AcquireError.other (GoError.errorf "memory" ctx_err)), l)
      else elim (state_locked l key now) [
        | none ↦ (err (AcquireError.other (unknown_key key)), l)
        | some (s, l') ↦ let (a, l2) = admit l' key charged now s in (ok a, l2)
      ]

  on_key : Limiter → String → (KeyState → KeyState) → Limiter
  on_key l key f = elim (l.keys key) [ none ↦ l | some s ↦ with_key l key (f s) ]

  -- `Adjust`.
  unfoldable pub adjust : Limiter → Lease → ℤ → ℤ → Limiter × Lease
  unfolding on_key settle_locked
  adjust l r actual now =
      let settled = λ (s : KeyState). settle_locked s now in
      if r.adjusted then (l, r) else (
        on_key l r.key (λ s. record (settled s) {
          balance = adjusted fl s.limits (settled s).balance r.tokens (max_ℤ actual (pos 0));
        }),
        record r { adjusted = true },
      )

  -- `Release`.
  unfoldable pub release : Limiter → Lease → Limiter × Lease
  unfolding on_key sub64
  release l r = if r.released then (l, r) else (
    on_key l r.key (λ s. record s { live = max_ℤ (sub64 s.live (pos 1)) (pos 0) }),
    record r { released = true },
  )

  -- `Acquire`: Wait over the attempts, on fuel, where the world holds the limiter and the clock.
  module _ {W : Type 0} (env : Surroundings W) (get : W → Limiter) (put : Limiter → W → W)
      (clock : W → ℤ) where
    unfoldable pub try_acquire : String → Waiter → ℤ → W → Result AcquireError (Attempt Lease) × W
    unfolding attempt
    try_acquire key waiter tokens w =
        let (r, l) = attempt (get w) (wait_err env key waiter w) key tokens (clock w) in
        (r, put l w)

    unfoldable pub acquire : ℕ → String → ℤ → W → Option (Result AcquireError Lease × W)
    unfolding try_acquire
    acquire fuel key tokens w =
        wait env key (get w).waiter (try_acquire key (get w).waiter tokens) fuel w
