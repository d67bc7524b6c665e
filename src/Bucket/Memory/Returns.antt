-- ===== src/Bucket/Memory/Returns.antt =====
-- bucket/memory/memory.go: what Adjust and Release do to the leases of each key.
use maestro_llms.Base.{
  ℕ, suc, inl, inr, ◌≡◌, refl, sym, ap, subst, ◌∙◌, String, true, false, Option, none, some, arith,
  str_eq, str_eq_iff, str_eq_refl, Bool-cases, Option-cases,
}
use maestro_llms.Base.Int.{ℤ, pos, ◌≤ℤ◌, max_ℤ, max_int, ◌-ℤ◌, sub64, wrap64_exact}
use maestro_llms.Base.Float.{Float}
use maestro_llms.Bucket.Limits.{Limits}
use maestro_llms.Bucket.Memory.{
  Lease, KeyState, Limiter, limits_for, settle_locked, on_key, adjust, release,
}
use maestro_llms.Bucket.Memory.Holding.{Counted, unused, used, recounted, none_held, counted_at}

one_down : (n : ℕ) → pos (suc n) ≤ℤ max_int → max_ℤ (sub64 (pos (suc n)) (pos 1)) (pos 0) ≡ pos n
unfolding sub64 ◌-ℤ◌
one_down n h = ground (arith, wrap64_exact (pos (suc n) -ℤ pos 1))

module _ (fl : Float) where
  on_key_at :
      (l : Limiter fl) (key : String) (f : KeyState fl → KeyState fl) (o : Option (KeyState fl))
      → l.keys key ≡ o
      → (on_key fl l key f).keys key ≡ (elim o [ none ↦ none | some s ↦ some (f s) ])
  unfolding on_key
  on_key_at l key f none h = rw (h, on_key) h
  on_key_at l key f (some s) h = rw (h, on_key) (rw (str_eq_refl key) refl)

  on_key_elsewhere :
      (l : Limiter fl) (key q : String) (f : KeyState fl → KeyState fl)
      → str_eq q key ≡ false
      → (on_key fl l key f).keys q ≡ l.keys q
  unfolding on_key
  on_key_elsewhere l key q f h = ground (arith, h)

  -- A change of a key's state that keeps its limits and takes the count from n to m.
  on_key-Counted :
      (l : Limiter fl) (key : String) (f : KeyState fl → KeyState fl) (lim : Limits fl) (n m : ℕ)
      → (n ≡ 0 → m ≡ 0)
      → ((s : KeyState fl) → Counted fl lim n (some s) → Counted fl lim m (some (f s)))
      → Counted fl lim n (l.keys key)
      → Counted fl lim m ((on_key fl l key f).keys key)
  on_key-Counted l key f lim n m zeros change c = elim (Option-cases (l.keys key)) [
    | inl unset ↦
        counted_at fl lim m none _ (sym (on_key_at l key f none unset))
          (unused (zeros (none_held fl lim n (counted_at fl lim n _ _ unset c))))
    | inr (s, set) ↦
        counted_at fl lim m (some (f s)) _ (sym (on_key_at l key f (some s) set))
          (change s (counted_at fl lim n _ _ set c))
  ]

  one_less :
      (lim : Limits fl) (n : ℕ) (s s' : KeyState fl)
      → lim.max_concurrency ≤ℤ max_int
      → s'.limits ≡ s.limits
      → s'.live ≡ max_ℤ (sub64 s.live (pos 1)) (pos 0)
      → Counted fl lim (suc n) (some s)
      → Counted fl lim n (some s')
  one_less lim n s s' small e f (used _ same counts within) =
      used s' (e ∙ same)
        (f
          ∙ ap (λ z. max_ℤ (sub64 z (pos 1)) (pos 0)) counts
          ∙ one_down n (ground (arith, within, small)))
        (ground (arith, within))

  -- A change of one key's state that keeps the counts is one at every key.
  on_key_keeps :
      (l : Limiter fl) (key : String) (f : KeyState fl → KeyState fl) (q : String) (lim : Limits fl)
      (n : ℕ)
      → ((s : KeyState fl) → Counted fl lim n (some s) → Counted fl lim n (some (f s)))
      → Counted fl lim n (l.keys q)
      → Counted fl lim n ((on_key fl l key f).keys q)
  on_key_keeps l key f q lim n keep c = elim (Bool-cases (str_eq q key)) [
    | inr away ↦ counted_at fl lim n _ _ (sym (on_key_elsewhere l key q f away)) c
    | inl here ↦
        subst (λ k. Counted fl lim n (l.keys k) → Counted fl lim n ((on_key fl l key f).keys k))
          (sym ((str_eq_iff q key).0 here)) (on_key-Counted l key f lim n n (λ z. z) keep) c
  ]

  pub adjust-Counted :
      (l : Limiter fl) (r : Lease) (actual now : ℤ) (q : String) (lim : Limits fl) (n : ℕ)
      → Counted fl lim n (l.keys q)
      → Counted fl lim n ((adjust fl l r actual now).0.keys q)
  unfolding adjust settle_locked
  adjust-Counted l r actual now q lim n c = elim (Bool-cases r.adjusted) [
    | inl again ↦ rw (again, adjust) c
    | inr first ↦
        rw (first, adjust)
          (on_key_keeps l r.key _ q lim n (λ s. recounted fl lim n s _ refl refl) c)
  ]

  pub release_elsewhere :
      (l : Limiter fl) (r : Lease) (q : String)
      → str_eq q r.key ≡ false
      → (release fl l r).0.keys q ≡ l.keys q
  unfolding release on_key
  release_elsewhere l r q h = ground (arith, h)

  pub release-Counted :
      (l : Limiter fl) (r : Lease) (lim : Limits fl) (n : ℕ)
      → r.released ≡ false
      → lim.max_concurrency ≤ℤ max_int
      → Counted fl lim (suc n) (l.keys r.key)
      → Counted fl lim n ((release fl l r).0.keys r.key)
  unfolding release on_key
  release-Counted l r lim n h small c = elim (Bool-cases r.released) [
    | inl again ↦ absurd (ground (arith, h, again))
    | inr held_still ↦
        rw (held_still, release)
          (on_key-Counted l r.key _ lim (suc n) n (λ e. ground (arith, e))
            (λ s c2. one_less lim n s _ small refl refl c2) c)
  ]

  pub adjust-limits_for :
      (l : Limiter fl) (r : Lease) (actual now : ℤ) (q : String)
      → limits_for fl (adjust fl l r actual now).0 q ≡ limits_for fl l q
  unfolding adjust on_key limits_for
  adjust-limits_for l r actual now q = ground arith

  pub release-limits_for :
      (l : Limiter fl) (r : Lease) (q : String)
      → limits_for fl (release fl l r).0 q ≡ limits_for fl l q
  unfolding release on_key limits_for
  release-limits_for l r q = ground arith

  pub adjust_lease :
      (l : Limiter fl) (r : Lease) (actual now : ℤ)
      → let r' = (adjust fl l r actual now).1 in (r'.key ≡ r.key) × (r'.released ≡ r.released)
  unfolding adjust
  adjust_lease l r actual now = ground arith

  pub release_lease :
      (l : Limiter fl) (r : Lease)
      → let r' = (release fl l r).1 in (r'.key ≡ r.key) × (r'.released ≡ true)
  unfolding release
  release_lease l r = ground arith

  pub release_again :
      (l : Limiter fl) (r : Lease) → r.released ≡ true → (release fl l r).0.keys ≡ l.keys
  unfolding release
  release_again l r h = rw (h, release) refl
