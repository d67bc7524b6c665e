-- ===== src/Ratelimit/Memory/Refill.antt =====
-- llms/ratelimit/memory.go: the refill loop ends, and only adds.
use maestro_llms.Base.{
  ℕ, zero, suc, ◌≡◌, refl, sym, ap, subst, ◌∙◌, Bool, true, false, not, Option, some, arith, inl,
  inr, Bool-cases, if◌then◌else◌,
}
use maestro_llms.Base.Int.{
  ℤ, pos, wrap64_exact, ◌≤ℤ◌, ◌<ℤ◌, ◌+ℤ◌, ◌-ℤ◌, max_int, min_int, add64, sub64, add64_exact,
  +ℤ_parts, -ℤ_parts, leb_ℤ,
}
use maestro_llms.Base.Float.{Float}
use maestro_llms.Ratelimit.Memory.{
  Limiter, chunk, fills, refill_loop, refill, elapsed_seconds, max_carry,
}

module _ (fl : Float) where
  open fl use {F, of_int, to_int, minus, lt, le}

  -- What IEEE 754 says of a carry of at least 1 that is below 2^63: its integer part is an int of at
  -- least 1, and taking it away leaves less than 1.
  pub record WholePart : Type 0 where
    pub whole_range :
        (c : F)
        → le (of_int (pos 1)) c ≡ true
        → lt c (max_carry fl) ≡ true
        → (pos 1 ≤ℤ to_int c) × (to_int c ≤ℤ max_int)
    pub rest_small :
        (c : F)
        → lt c (max_carry fl) ≡ true
        → le (of_int (pos 1)) (minus c (of_int (to_int c))) ≡ false

  -- The capacity and the balance of a limiter that counts tokens.
  pub record Bounded (l : Limiter fl) : Type 0 where
    pub capacity_range : (pos 0 ≤ℤ l.max_capacity) × (l.max_capacity ≤ℤ max_int)
    pub balance_range : (min_int ≤ℤ l.available_tok) × (l.available_tok ≤ℤ l.max_capacity)

  chunk_range :
      WholePart
      → (c : F) → le (of_int (pos 1)) c ≡ true
      → (pos 1 ≤ℤ chunk fl c) × (chunk fl c ≤ℤ max_int)
  unfolding chunk
  chunk_range ieee c h = elim (Bool-cases (lt c (max_carry fl))) [
    | inl small ↦ rw small (ieee.whole_range c h small)
    | inr large ↦ rw large (omega arith)
  ]

  -- The test for a full bucket is the exact one: neither difference in it wraps around where it counts.
  fills-exact :
      (l : Limiter fl) (whole : ℤ)
      → Bounded l
      → pos 1 ≤ℤ whole
      → whole ≤ℤ max_int
      → fills fl l whole ≡ leb_ℤ l.max_capacity (l.available_tok +ℤ whole)
  unfolding fills sub64
  fills-exact l whole b lo hi = ground (
    arith,
    b.capacity_range,
    b.balance_range,
    wrap64_exact (l.max_capacity -ℤ max_int),
    wrap64_exact (l.max_capacity -ℤ l.available_tok),
    -ℤ_parts l.max_capacity max_int,
    -ℤ_parts l.max_capacity l.available_tok,
    +ℤ_parts l.available_tok whole,
  )

  -- What a refill does to a limiter: it ends, and moves the balance up, to the capacity at most.
  pub data Refilled (l : Limiter fl) : Option (Limiter fl) → Type 0 where
    refilled :
        (l' : Limiter fl)
        → l.available_tok ≤ℤ l'.available_tok
        → l'.available_tok ≤ℤ l.max_capacity
        → l'.max_capacity ≡ l.max_capacity
        → l'.active_reqs ≡ l.active_reqs
        → Refilled l (some l')

  after : Limiter fl → Limiter fl
  after l = record l {
    token_carry = minus l.token_carry (of_int (chunk fl l.token_carry));
    available_tok = add64 l.available_tok (chunk fl l.token_carry);
  }

  -- What the next round finds.
  record Next (l l2 : Limiter fl) : Type 0 where
    bounded : Bounded l2
    moved : l2.available_tok ≡ l.available_tok +ℤ chunk fl l.token_carry
    room : l2.available_tok <ℤ l.max_capacity
    capacity_same : l2.max_capacity ≡ l.max_capacity

  -- A balance that a chunk does not lift to the capacity goes up by the exact chunk.
  after-Next :
      WholePart
      → (l : Limiter fl) → Bounded l
      → le (of_int (pos 1)) l.token_carry ≡ true
      → fills fl l (chunk fl l.token_carry) ≡ false
      → Next l (after l)
  unfolding after
  after-Next ieee l b h f =
      let whole = chunk fl l.token_carry in
      let range = chunk_range ieee l.token_carry h in
      let less = sym (fills-exact l whole b range.0 range.1) ∙ f in
      let exact = add64_exact l.available_tok whole (
        ground (
          arith,
          less,
          range,
          b.capacity_range,
          b.balance_range,
          +ℤ_parts l.available_tok whole,
        )) in
      record {
        bounded = record {
          capacity_range = b.capacity_range;
          balance_range = (
            ground (arith, less, exact, range, b.balance_range, +ℤ_parts l.available_tok whole),
            ground (arith, less, exact, +ℤ_parts l.available_tok whole),
          );
        };
        moved = exact;
        room = ground (arith, less, exact, +ℤ_parts l.available_tok whole);
        capacity_same = refl;
      }

  ended :
      (n : ℕ) (l : Limiter fl)
      → Bounded l
      → le (of_int (pos 1)) l.token_carry ≡ false
      → Refilled l (refill_loop fl (suc n) l)
  unfolding refill_loop
  ended n l b h = rw h (refilled l (omega arith) b.balance_range.1 refl refl)

  widen :
      WholePart
      → (l l2 : Limiter fl) {o : Option (Limiter fl)} → le (of_int (pos 1)) l.token_carry ≡ true
      → Next l l2
      → l2.active_reqs ≡ l.active_reqs
      → Refilled l2 o
      → Refilled l o
  widen ieee l l2 big next same (refilled l' up down cap act) =
      let range = chunk_range ieee l.token_carry big in
      refilled l'
        (ground (arith, up, range, next.moved, +ℤ_parts l.available_tok (chunk fl l.token_carry)))
        (ground (arith, down, next.capacity_same)) (cap ∙ next.capacity_same) (act ∙ same)

  one_round :
      (n : ℕ)
      → WholePart
      → (l : Limiter fl) → Bounded l
      → (le (of_int (pos 1)) l.token_carry ≡ true
          → Next l (after l)
          → Refilled (after l) (refill_loop fl n (after l)))
      → Refilled l (refill_loop fl (suc n) l)
  unfolding refill_loop after
  one_round n ieee l b rest = elim (Bool-cases (le (of_int (pos 1)) l.token_carry)) [
    | inr small ↦ rw small (refilled l (omega arith) b.balance_range.1 refl refl)
    | inl big ↦ elim (Bool-cases (fills fl l (chunk fl l.token_carry))) [
      | inl full ↦ rw big (
          rw full (
            refilled (record l { available_tok = l.max_capacity; token_carry = of_int (pos 0) })
              b.balance_range.1 (omega arith) refl refl))
      | inr not_full ↦ rw big (
          rw not_full (
            widen ieee l (after l) big (after-Next ieee l b big not_full) refl
              (rest big (after-Next ieee l b big not_full))))
    ]
  ]

  -- A round with a carry below 2^63 is the last but one.
  small_carry :
      WholePart
      → (l : Limiter fl) → le (of_int (pos 1)) l.token_carry ≡ true
      → lt l.token_carry (max_carry fl) ≡ true
      → le (of_int (pos 1)) (after l).token_carry ≡ false
  unfolding chunk after
  small_carry ieee l big h = rw h (ieee.rest_small l.token_carry h)

  large_chunk :
      (l : Limiter fl) → lt l.token_carry (max_carry fl) ≡ false → chunk fl l.token_carry ≡ max_int
  unfolding chunk
  large_chunk l h = rw h refl

  -- The rounds left, by what the balance still lacks: at most two chunks of the largest int fit.
  data Rounds : ℕ → ℤ → ℤ → Type 0 where
    fills_next : (n : ℕ) {cap balance : ℤ} → cap ≤ℤ balance +ℤ max_int → Rounds (suc n) cap balance
    one_more :
        (n : ℕ) {cap balance : ℤ} → Rounds n cap (balance +ℤ max_int) → Rounds (suc n) cap balance

  after_large :
      (n : ℕ) (l : Limiter fl)
      → Rounds (suc n) l.max_capacity l.available_tok
      → le (of_int (pos 1)) l.token_carry ≡ true
      → Next l (after l)
      → lt l.token_carry (max_carry fl) ≡ false
      → Rounds n (after l).max_capacity (after l).available_tok
  unfolding after
  after_large n l (fills_next _ full) big next large =
      ground (arith, full, next.moved, next.room, large_chunk l large)
  after_large n l (one_more _ rounds) big next large =
      subst (λ z. Rounds n l.max_capacity z)
        (sym (next.moved ∙ ap (λ w. l.available_tok +ℤ w) (large_chunk l large))) rounds

  after_round :
      (n : ℕ)
      → WholePart
      → (l : Limiter fl) → Rounds n l.max_capacity l.available_tok
      → Bounded l
      → Refilled l (refill_loop fl (suc n) l)
  after_round zero ieee l rounds b = elim rounds [ ]
  after_round (suc n) ieee l rounds b = one_round (suc n) ieee l b (λ big next.
      elim (Bool-cases (lt l.token_carry (max_carry fl))) [
        | inl small ↦ ended n (after l) next.bounded (small_carry ieee l big small)
        | inr large ↦
            after_round n ieee (after l) (after_large n l rounds big next large) next.bounded
      ])

  -- Four rounds are enough from any balance.
  enough_fuel : (cap balance : ℤ) → cap ≤ℤ max_int → min_int ≤ℤ balance → Rounds 3 cap balance
  enough_fuel cap balance hi lo = one_more 2 (
      one_more 1 (
        fills_next 0 (
          ground (
            arith,
            +ℤ_parts balance max_int,
            +ℤ_parts (balance +ℤ max_int) max_int,
            +ℤ_parts (balance +ℤ max_int +ℤ max_int) max_int,
          ))))

  same_start :
      (l2 l : Limiter fl) {o : Option (Limiter fl)}
      → l2.available_tok ≡ l.available_tok
      → l2.max_capacity ≡ l.max_capacity
      → l2.active_reqs ≡ l.active_reqs
      → Refilled l2 o
      → Refilled l o
  same_start l2 l tok cap act (refilled l' up down same act') =
      refilled l' (ground (arith, up, tok)) (ground (arith, down, cap)) (same ∙ cap) (act' ∙ act)

  unless_idle :
      (l : Limiter fl)
      → Bounded l
      → (limiting backwards : Bool) {o : Option (Limiter fl)} → Refilled l o
      → Refilled l (if not limiting then some l else if backwards then some l else o)
  unless_idle l b false backwards r = refilled l (omega arith) b.balance_range.1 refl refl
  unless_idle l b true true r = refilled l (omega arith) b.balance_range.1 refl refl
  unless_idle l b true false r = r

  -- A refill of a limiter whose balance is at most its capacity ends within four rounds, whatever the
  -- clock says. It never lowers the balance and never lifts it above the capacity, by wrapping around
  -- or otherwise, and it leaves the slots alone.
  pub refill-Refilled :
      WholePart → (now : ℤ) → (l : Limiter fl) → Bounded l → Refilled l (refill fl 4 now l)
  unfolding refill
  refill-Refilled ieee now l b =
      unless_idle l b l.token_limiting (le (elapsed_seconds fl l.last_refill now) (of_int (pos 0)))
        (same_start _ l refl refl refl (
          after_round 3 ieee _ (enough_fuel _ _ b.capacity_range.1 b.balance_range.0)
            record { capacity_range = b.capacity_range; balance_range = b.balance_range }))
