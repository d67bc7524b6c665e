-- ===== src/Ratelimit/Memory/Slots.antt =====
-- llms/ratelimit/memory.go: the concurrency lease, over every interleaving of calls.
use maestro_llms.Base.{◌≡◌, refl, ◌∙◌, subst, Option, none, some, [], arith}
use maestro_llms.Base.Int.{ℤ, pos, ◌≤ℤ◌, max_int, ltb_ℤ}
use maestro_llms.Base.Float.{Float}
use maestro_llms.Bucket.Limits.{BadLimits, slot_limited}
use maestro_llms.Ratelimit.Memory.{Config, new_limiter, fresh, limits_of, Limiter}
use maestro_llms.Ratelimit.Memory.Granted.{held_slots, all_of_none}
use maestro_llms.Ratelimit.Memory.Accounts.{
  System, Step, reserving, committing, releasing, reading, Steps, start, then_step, Accounted,
}
use maestro_llms.Ratelimit.Memory.Admission.{TurnAccounted, turn-TurnAccounted, turned_some}
use maestro_llms.Ratelimit.Memory.Settlement.{
  Committed, commit-Committed, after_commit, release-Accounted, StatsAccounted,
  stats-StatsAccounted, read_some,
}

module _ (fl : Float) where
  Step-Accounted : (s t : System fl) → Step fl s t → Accounted fl s → Accounted fl t
  Step-Accounted _ _ (reserving l l' rs req t v h) a =
      turned_some fl (subst (λ o. TurnAccounted fl rs o) h (turn-TurnAccounted fl l rs req t a))
  Step-Accounted _ _ (committing l l' xs ys r r' now usage h) a =
      after_commit fl xs ys (subst (λ o. Committed fl l r o) h (commit-Committed fl l r now usage))
        a
  Step-Accounted _ _ (reading l l' rs now snapshot h) a =
      read_some fl (subst (λ o. StatsAccounted fl rs o) h (stats-StatsAccounted fl l rs now a))
  Step-Accounted _ _ (releasing l xs ys r) a = release-Accounted fl l xs ys r a

  steps-Accounted : (s t : System fl) → Steps fl s t → Accounted fl s → Accounted fl t
  steps-Accounted s t start a = a
  steps-Accounted s t (then_step {t = m} before step) a =
      Step-Accounted m t step (steps-Accounted s m before a)

  data Made (cfg : Config fl) : Option (Limiter fl) → Type 0 where
    not_made : Made cfg none
    made :
        (l : Limiter fl)
        → l.slot_limiting ≡ ltb_ℤ (pos 0) cfg.max_concurrency
        → l.max_concurrency ≡ cfg.max_concurrency
        → l.active_reqs ≡ pos 0
        → Made cfg (some l)

  valid_config :
      (cfg : Config fl) (now : ℤ) (v : Option BadLimits)
      → Made cfg (elim v [ some e ↦ none | none ↦ some (fresh fl cfg now) ])
  unfolding fresh slot_limited limits_of
  valid_config cfg now none = made _ refl refl refl
  valid_config cfg now (some e) = not_made

  new_limiter-Made : (cfg : Config fl) (now : ℤ) → Made cfg (new_limiter fl cfg now)
  unfolding new_limiter
  new_limiter-Made cfg now = valid_config cfg now _

  first-Accounted :
      (cfg : Config fl) (l : Limiter fl)
      → pos 1 ≤ℤ cfg.max_concurrency
      → cfg.max_concurrency ≤ℤ max_int
      → Made cfg (some l)
      → Accounted fl (record { limiter = l; granted = [] })
  unfolding held_slots
  first-Accounted cfg l lo hi (made _ on limit none_yet) = record {
    limits_slots = on ∙ ground arith;
    limit_range = ground (arith, limit);
    none_negative = all_of_none;
    counted = none_yet;
    within = ground (arith, none_yet, limit);
  }

  -- Take a limiter that NewInMemoryLimiter made with a positive MaxConcurrency, and any calls on it
  -- in any order: turns of waiting Reserves, Stats, Commits and Releases, of any reservation granted before,
  -- any number of times. Its count of active requests is the sum of the slots of the reservations that
  -- are granted and not yet released, and it is at most MaxConcurrency.
  pub new_limiter-Accounted :
      (cfg : Config fl) (now : ℤ) (l : Limiter fl) (s : System fl)
      → pos 1 ≤ℤ cfg.max_concurrency
      → cfg.max_concurrency ≤ℤ max_int
      → new_limiter fl cfg now ≡ some l
      → Steps fl (record { limiter = l; granted = [] }) s
      → (s.limiter.active_reqs ≡ pos (held_slots s.granted))
        × (s.limiter.active_reqs ≤ℤ s.limiter.max_concurrency)
  new_limiter-Accounted cfg now l s lo hi h steps =
      let a =
        steps-Accounted _ s steps
          (first-Accounted cfg l lo hi (subst (λ o. Made cfg o) h (new_limiter-Made cfg now))) in
      (a.counted, a.within)
