-- ===== src/Bucket/Memory/Holding.antt =====
-- bucket/memory/memory.go: what each method does to the leases of one key.
use maestro_llms.Base.{
  ℕ, ◌+◌, ◌≡◌, refl, subst, ◌∙◌, String, true, false, not, ◌&&◌, Option, none, some, List, [], ◌∷◌,
  ◌++◌, Result, ok, err, arith, if◌then◌else◌, str_eq, str_eq_iff,
}
use maestro_llms.Base.Int.{pos, ◌≤ℤ◌}
use maestro_llms.Base.Float.{Float}
use maestro_llms.Bucket.Limits.{Limits, slot_limited}
use maestro_llms.Bucket.Core.{Attempt, AcquireError}
use maestro_llms.Bucket.Memory.{Lease, KeyState}

-- The leases of a key that are not yet released.
unfoldable pub held : String → List Lease → ℕ
held q [] = 0
held q (r ∷ rs) = (if not r.released && str_eq r.key q then 1 else 0) + held q rs

unfoldable pub taken : Result AcquireError (Attempt Lease) → List Lease
taken (ok (Attempt.admitted r)) = r ∷ []
taken (ok (Attempt.never reason)) = []
taken (ok (Attempt.later hint)) = []
taken (err e) = []

pub held-append : (q : String) (xs ys : List Lease) → held q (xs ++ ys) ≡ held q xs + held q ys
unfolding held
held-append q [] ys = omega arith
held-append q (x ∷ xs) ys = ground (arith, held-append q xs ys)

-- One lease apart from the others.
pub held-middle :
    (q : String) (xs ys : List Lease) (r : Lease)
    → held q (xs ++ r ∷ ys)
      ≡ (if not r.released && str_eq r.key q then 1 else 0) + held q (xs ++ ys)
unfolding held
held-middle q [] ys r = refl
held-middle q (x ∷ xs) ys r = ground (arith, held-middle q xs ys r)

-- An attempt takes nothing, or one lease of its key.
pub data Grants (key : String) : List Lease → Type 0 where
  no_lease : Grants key []
  one_lease : (r : Lease) → r.key ≡ key → r.released ≡ false → Grants key (r ∷ [])

-- None of them belongs to another key.
pub held-Grants :
    (key q : String) (rs : List Lease) → str_eq q key ≡ false → Grants key rs → held q rs ≡ 0
unfolding held
held-Grants key q _ away no_lease = refl
held-Grants key q _ away (one_lease r at_key live) =
    ground (arith, at_key, str_eq_iff r.key q, str_eq_iff q key)

module _ (fl : Float) where
  -- The state of a key counts its leases, and they are within its limit.
  pub data Counted (lim : Limits fl) (n : ℕ) : Option (KeyState fl) → Type 0 where
    unused : n ≡ 0 → Counted lim n none
    used :
        (s : KeyState fl)
        → s.limits ≡ lim
        → s.live ≡ pos n
        → pos n ≤ℤ lim.max_concurrency
        → Counted lim n (some s)

  pub limit_positive : (lim : Limits fl) → slot_limited fl lim ≡ true → pos 1 ≤ℤ lim.max_concurrency
  unfolding slot_limited
  limit_positive lim h = ground (arith, h)

  pub within_limit :
      (lim : Limits fl) (n : ℕ) (o : Option (KeyState fl))
      → Counted lim n o
      → pos 1 ≤ℤ lim.max_concurrency
      → pos n ≤ℤ lim.max_concurrency
  within_limit lim n _ (unused none_held) limit = ground (arith, none_held)
  within_limit lim n _ (used s same counts within) limit = within

  -- A state with the same limits and count.
  pub recounted :
      (lim : Limits fl) (n : ℕ) (s s' : KeyState fl)
      → s'.limits ≡ s.limits
      → s'.live ≡ s.live
      → Counted lim n (some s)
      → Counted lim n (some s')
  recounted lim n s s' e f (used _ same counts within) = used s' (e ∙ same) (f ∙ counts) within

  pub none_held : (lim : Limits fl) (n : ℕ) → Counted lim n none → n ≡ 0
  none_held lim n (unused h) = h

  pub counted_at :
      (lim : Limits fl) (n : ℕ) (o o' : Option (KeyState fl))
      → o ≡ o'
      → Counted lim n o
      → Counted lim n o'
  counted_at lim n o o' e c = subst (λ o2. Counted lim n o2) e c

  pub counted_of :
      (lim : Limits fl) (n m : ℕ) (o : Option (KeyState fl))
      → n ≡ m
      → Counted lim n o
      → Counted lim m o
  counted_of lim n m o e c = subst (λ k. Counted lim k o) e c
