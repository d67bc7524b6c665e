-- ===== src/Ratelimit/Memory/Keeps.antt =====
-- llms/ratelimit/memory.go: a refill leaves the concurrency fields alone.
use maestro_llms.Base.{
  ℕ, zero, suc, ◌≡◌, refl, ◌∙◌, Bool, true, false, Option, none, some, if◌then◌else◌, not,
}
use maestro_llms.Base.Int.{ℤ, pos}
use maestro_llms.Base.Float.{Float}
use maestro_llms.Ratelimit.Memory.{Limiter, refill_loop, refill, elapsed_seconds, fills, chunk}

module _ (fl : Float) where
  open fl use {of_int, le}

  -- The fields that a refill leaves alone.
  pub record SameSlots (l l' : Limiter fl) : Type 0 where
    pub limiting : l'.slot_limiting ≡ l.slot_limiting
    pub limit : l'.max_concurrency ≡ l.max_concurrency
    pub active : l'.active_reqs ≡ l.active_reqs

  pub data Kept (l : Limiter fl) : Option (Limiter fl) → Type 0 where
    out_of_fuel : Kept l none
    kept : (l' : Limiter fl) → SameSlots l l' → Kept l (some l')

  pub same : (l : Limiter fl) → SameSlots l l
  same l = record { limiting = refl; limit = refl; active = refl }

  pub either_branch :
      (b : Bool) (l : Limiter fl) (x y : Option (Limiter fl))
      → Kept l x
      → Kept l y
      → Kept l (if b then x else y)
  either_branch true l x y hx hy = hx
  either_branch false l x y hx hy = hy

  from_same : (l l2 : Limiter fl) {o : Option (Limiter fl)} → SameSlots l l2 → Kept l2 o → Kept l o
  from_same l l2 s out_of_fuel = out_of_fuel
  from_same l l2 s (kept l' t) = kept l' record {
    limiting = t.limiting ∙ s.limiting;
    limit = t.limit ∙ s.limit;
    active = t.active ∙ s.active;
  }

  refill_loop-Kept : (n : ℕ) (l : Limiter fl) → Kept l (refill_loop fl n l)
  unfolding refill_loop
  refill_loop-Kept zero l = out_of_fuel
  refill_loop-Kept (suc n) l =
      either_branch (not (le (of_int (pos 1)) l.token_carry)) l _ _ (kept l (same l)) (
        either_branch (fills fl l (chunk fl l.token_carry)) l _ _
          (kept _ record { limiting = refl; limit = refl; active = refl })
          (from_same l _ (record { limiting = refl; limit = refl; active = refl })
            (refill_loop-Kept n _)))

  pub refill-Kept : (n : ℕ) (now : ℤ) (l : Limiter fl) → Kept l (refill fl n now l)
  unfolding refill
  refill-Kept n now l = either_branch (not l.token_limiting) l _ _ (kept l (same l)) (
      either_branch (le (elapsed_seconds fl l.last_refill now) (of_int (pos 0))) l _ _
        (kept l (same l))
        (from_same l _ (record { limiting = refl; limit = refl; active = refl })
          (refill_loop-Kept n _)))
