-- ===== src/Bucket/Memory/Refines.antt =====
-- bucket/memory/memory.go: the limiter over every interleaving of calls.
use maestro_llms.Base.{◌≡◌, refl, sym, ap, ◌∙◌, String, true, Option, none, some, []}
use maestro_llms.Base.Int.{pos, ◌≤ℤ◌, max_int}
use maestro_llms.Base.Float.{Float}
use maestro_llms.Bucket.Limits.{Limits, BadLimits, slot_limited}
use maestro_llms.Bucket.Memory.{Config, Limiter, limits_for, new_limiter, fresh}
use maestro_llms.Bucket.Memory.Holding.{held, unused, limit_positive, within_limit, counted_at}
use maestro_llms.Bucket.Memory.Attempts.{attempt-limits_for, attempt-Grants}
use maestro_llms.Bucket.Memory.Returns.{adjust-limits_for, release-limits_for}
use maestro_llms.Bucket.Memory.Promise.{
  CountStep, keeps, CountSteps, System, Step, acquiring, adjusting, releasing, Steps, start,
  then_step, held_by, Holds,
}
use maestro_llms.Bucket.Memory.Accounts.{
  granting, attempt-Holds, adjusted_held, adjusting-Holds, releasing-Holds, live_of, counted_live,
  freeing,
}

module _ (fl : Float) where
  -- A system with the given limits, in which every limited key counts its leases.
  pub record Valid (limits : String → Option (Limits fl)) (s : System fl) : Type 0 where
    pub same_limits : (q : String) → limits_for fl s.limiter q ≡ limits q
    pub holds : Holds fl limits s

  Step-Valid :
      (limits : String → Option (Limits fl)) (s t : System fl)
      → Step fl s t
      → Valid limits s
      → Valid limits t
  Step-Valid limits _ _ (acquiring l rs ctx key tokens now) v = record {
    same_limits = λ q. attempt-limits_for fl l ctx key q tokens now ∙ v.same_limits q;
    holds = attempt-Holds fl limits l rs ctx key tokens now v.same_limits v.holds;
  }
  Step-Valid limits _ _ (adjusting l xs ys r actual now) v = record {
    same_limits = λ q. adjust-limits_for fl l r actual now q ∙ v.same_limits q;
    holds = adjusting-Holds fl limits l xs ys r actual now v.holds;
  }
  Step-Valid limits _ _ (releasing l xs ys r) v = record {
    same_limits = λ q. release-limits_for fl l r q ∙ v.same_limits q;
    holds = releasing-Holds fl limits l xs ys r v.holds;
  }

  Step-CountStep :
      (limits : String → Option (Limits fl)) (s t : System fl)
      → Step fl s t
      → Valid limits t
      → CountStep fl limits (held_by fl s) (held_by fl t)
  unfolding held_by
  Step-CountStep limits s t (acquiring l rs ctx key tokens now) v =
      granting fl limits s t key _ refl (attempt-Grants fl l ctx key tokens now) v.holds
  Step-CountStep limits _ _ (adjusting l xs ys r actual now) v =
      keeps (λ q. sym (adjusted_held fl l xs ys r actual now q))
  Step-CountStep limits _ _ (releasing l xs ys r) v = freeing fl limits l xs ys r _ refl

  steps_refine :
      (limits : String → Option (Limits fl)) (s t : System fl)
      → Steps fl s t
      → Valid limits s
      → Valid limits t × CountSteps fl limits (held_by fl s) (held_by fl t)
  steps_refine limits s _ start v = (v, start)
  steps_refine limits s t (then_step {t = m} before step) v =
      let (at_m, run) = steps_refine limits s m before v in
      let at_t = Step-Valid limits m t step at_m in
      (at_t, then_step run (Step-CountStep limits m t step at_t))

  passed_checks :
      (l0 l : Limiter fl) (bad : Option (String × BadLimits)) (bad_default : Option BadLimits)
      → (elim bad [ some e ↦ none | none ↦ elim bad_default [ some e ↦ none | none ↦ some l0 ] ])
        ≡ some l
      → l0 ≡ l
  passed_checks l0 l (some e) d h = cc
  passed_checks l0 l none (some e) h = cc
  passed_checks l0 l none none h = cc

  new_limiter-fresh :
      (cfg : Config fl) (l : Limiter fl) → new_limiter fl cfg ≡ some l → fresh fl cfg ≡ l
  unfolding new_limiter
  new_limiter-fresh cfg l h = passed_checks (fresh fl cfg) l _ _ h

  first-Valid :
      (cfg : Config fl) (l : Limiter fl)
      → new_limiter fl cfg ≡ some l
      → Valid (limits_for fl l) (record { limiter = l; granted = [] })
  unfolding Holds held fresh
  first-Valid cfg l h = record {
    same_limits = λ q. refl;
    holds = λ q lim e limited small.
        counted_at fl lim _ _ _ (ap (λ m. m.keys q) (new_limiter-fresh cfg l h)) (unused refl);
  }

  -- Take a limiter that New made, and any calls on it in any order: attempts of Acquire on any keys,
  -- Adjusts and Releases of any lease granted before, any number of times. Seen as the number of
  -- leases held of each key, it makes the steps of the promise: it grants one lease of one key, and
  -- then only if that keeps within the key's MaxConcurrency, frees one that is held, or changes
  -- nothing; and no step of a key changes the count of another.
  pub new_limiter_refines :
      (cfg : Config fl) (l : Limiter fl) (s : System fl)
      → new_limiter fl cfg ≡ some l
      → Steps fl (record { limiter = l; granted = [] }) s
      → CountSteps fl (limits_for fl l) (λ q. 0) (held_by fl s)
  unfolding held_by held
  new_limiter_refines cfg l s h steps =
      (steps_refine (limits_for fl l) _ s steps (first-Valid cfg l h)).1

  -- Take a limiter that New made, and any calls on it in any order. For a key whose limits have a
  -- positive MaxConcurrency, at most that many leases are held, and the count of the key's state is
  -- the number held.
  pub new_limiter-live_of :
      (cfg : Config fl) (l : Limiter fl) (s : System fl) (q : String) (lim : Limits fl)
      → new_limiter fl cfg ≡ some l
      → Steps fl (record { limiter = l; granted = [] }) s
      → limits_for fl l q ≡ some lim
      → slot_limited fl lim ≡ true
      → lim.max_concurrency ≤ℤ max_int
      → (pos (held q s.granted) ≤ℤ lim.max_concurrency)
        × (live_of fl (s.limiter.keys q) ≡ pos (held q s.granted))
  unfolding Holds
  new_limiter-live_of cfg l s q lim h steps e limited small =
      let v = (steps_refine (limits_for fl l) _ s steps (first-Valid cfg l h)).0 in
      let c = v.holds q lim e limited small in
      (within_limit fl lim _ _ c (limit_positive fl lim limited), counted_live fl lim _ _ c)
