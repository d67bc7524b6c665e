-- ===== src/Ratelimit/Memory/Balance.antt =====
-- llms/ratelimit/memory.go: what Commit charges, against exact integers.
use maestro_llms.Base.{
  ℕ, ◌≡◌, refl, ap, ◌∙◌, if◌then◌else◌, Bool, true, false, Option, none, some, arith, not,
}
use maestro_llms.Base.Int.{
  ℤ, pos, ◌≤ℤ◌, ◌-ℤ◌, -ℤ_parts, InRange, max_int, clamp64, min_ℤ, sub64, sub64_exact,
}
use maestro_llms.Base.Float.{Float}
use maestro_llms.Llms.Usage.{Usage}
use maestro_llms.Satint
use maestro_llms.Satint.Bounds.{sub-clamp64}
use maestro_llms.Ratelimit.{effective_tokens}
use maestro_llms.Ratelimit.Charging.{UsageInRange, effective_tokens_bounds}
use maestro_llms.Ratelimit.Memory.{Limiter, Reservation, refill, charge, commit}

-- The balance after a charge, as an exact integer clamped to the int range.
charged_balance :
    (available used reserved : ℤ)
    → InRange available
    → (pos 0 ≤ℤ used) × (used ≤ℤ max_int)
    → (pos 0 ≤ℤ reserved) × (reserved ≤ℤ max_int)
    → Satint.sub available (sub64 used reserved) ≡ clamp64 (available -ℤ (used -ℤ reserved))
charged_balance available used reserved a u r =
    rw (sub64_exact used reserved (ground (arith, -ℤ_parts used reserved)))
      (sub-clamp64 available (used -ℤ reserved) a (ground (arith, -ℤ_parts used reserved)))

pick {ℓ} :
    {A : Type ℓ} (x y z : A) (b c : Bool)
    → b ≡ false
    → c ≡ true
    → (if b then x else if not c then y else z) ≡ z
pick x y z b c hb hc = rw hb (rw hc refl)

module _ (fl : Float) where
  settle_after : Option (Limiter fl) → Usage → Reservation → Option (Limiter fl × Reservation)
  settle_after o usage r = elim o [
    | none ↦ none
    | some l' ↦ some (charge fl l' (effective_tokens usage) r.tokens, record r { committed = true })
  ]

  -- The first Commit of a reservation, on a limiter that counts tokens, refills and then takes the
  -- charge less the reserved tokens from the balance: the exact difference, or the nearest int, and at
  -- most the capacity. Any later Commit of the same reservation, on
  -- the limiter in whatever state, changes nothing.
  pub commit_charges_once :
      (fuel fuel' : ℕ) (now now' : ℤ) (usage usage' : Usage) (l l1 l' : Limiter fl)
      (r : Reservation)
      → UsageInRange usage
      → l.token_limiting ≡ true
      → r.committed ≡ false
      → (pos 0 ≤ℤ r.tokens) × (r.tokens ≤ℤ max_int)
      → refill fl fuel now l ≡ some l1
      → InRange l1.available_tok
      → let l2 = record l1 {
        available_tok =
            min_ℤ
              (clamp64 (l1.available_tok -ℤ (effective_tokens usage -ℤ r.tokens)))
              l1.max_capacity;
      } in
        let r2 = record r { committed = true } in
        (commit fl fuel now usage l r ≡ some (l2, r2))
        × (commit fl fuel' now' usage' l' r2 ≡ some (l', r2))
  unfolding commit charge settle_after
  commit_charges_once fuel fuel' now now' usage usage' l l1 l' r u on first reserved refilled
        range =
      let b = effective_tokens_bounds usage u in
      let exact =
        charged_balance l1.available_tok (effective_tokens usage) r.tokens range (b.1, b.2)
          reserved in
      (
        pick _ _ _ r.committed l.token_limiting first on
            ∙ ap (λ o. settle_after o usage r) refilled
            ∙ ap
                (λ z. some (
                  record l1 { available_tok = min_ℤ z l1.max_capacity },
                  record r { committed = true },
                ))
                exact,
        refl,
      )
