-- ===== src/Bucket/Memory/Attempts.antt =====
-- bucket/memory/memory.go: what an attempt of Acquire does to the leases of each key.
use maestro_llms.Base.{
  ℕ, suc, ◌+◌, inl, inr, ◌≡◌, refl, sym, ap, ◌∙◌, String, Bool, true, false, not, Option, none,
  some, Result, ok, err, arith, str_eq, str_eq_refl, Bool-cases, Option-cases,
}
use maestro_llms.Base.Int.{ℤ, pos, ◌≤ℤ◌, max_ℤ, max_int, add64, add64_one}
use maestro_llms.Base.Float.{Float}
use maestro_llms.Llms.Errors.{GoError, is_nil}
use maestro_llms.Bucket.Limits.{Limits, slot_limited}
use maestro_llms.Bucket.Core.{Attempt, AcquireError, Reason, fits}
use maestro_llms.Bucket.Memory.{
  Lease, KeyState, Limiter, full, limits_for, state_locked, settle_locked, charge, admit,
  admit_settled, attempt, unknown_key,
}
use maestro_llms.Bucket.Memory.Holding.{
  held, taken, Grants, no_lease, one_lease, Counted, used, recounted, none_held, counted_at,
  counted_of,
}

module _ (fl : Float) where
  granted-Counted :
      (lim : Limits fl) (n : ℕ) (s : KeyState fl) (balance : fl.F) (tokens : ℤ)
      → slot_limited fl lim ≡ true
      → lim.max_concurrency ≤ℤ max_int
      → fits fl s.limits balance tokens s.live ≡ true
      → Counted fl lim n (some s)
      → (s' : KeyState fl) → s'.limits ≡ s.limits
      → s'.live ≡ add64 s.live (pos 1)
      → Counted fl lim (suc n) (some s')
  unfolding fits slot_limited
  granted-Counted lim n s balance tokens limited small h (used _ same counts within) s' e f =
      let room : pos (suc n) ≤ℤ lim.max_concurrency = ground (arith, same, counts, h, limited) in
      used s' (e ∙ same)
        (f ∙ ap (λ z. add64 z (pos 1)) counts ∙ add64_one n (ground (arith, room, small))) room

  -- A state found, or made, for a key.
  data Found (l : Limiter fl) (key : String) (lim : Limits fl) (n : ℕ)
      : Option (KeyState fl × Limiter fl) → Type 0 where
    found :
        (s : KeyState fl) (l' : Limiter fl)
        → Counted fl lim n (some s)
        → l'.keys key ≡ some s
        → Found l key lim n (some (s, l'))

  state_locked-Found :
      (l : Limiter fl) (key : String) (now : ℤ) (lim : Limits fl) (n : ℕ)
      → limits_for fl l key ≡ some lim
      → pos 0 ≤ℤ lim.max_concurrency
      → Counted fl lim n (l.keys key)
      → Found l key lim n (state_locked fl l key now)
  unfolding state_locked
  state_locked-Found l key now lim n e positive c = elim (Option-cases (l.keys key)) [
    | inl none_yet ↦
        let none = none_held fl lim n (counted_at fl lim n _ _ none_yet c) in
        rw (none_yet, state_locked)
          (rw e (
            found (full fl lim now) _
              (used _ refl (ap pos (sym none)) (ground (arith, none, positive)))
              (rw (str_eq_refl key) refl)))
    | inr (s, here) ↦ rw (here, state_locked) (found s l (counted_at fl lim n _ _ here c) here)
  ]

  -- What an attempt takes and leaves for its key.
  abbrev Attempted :
      String → Limits fl → ℕ → Result AcquireError (Attempt Lease) × Limiter fl → Type 0
  Attempted key lim n out = Counted fl lim (held key (taken out.0) + n) (out.1.keys key)

  admit_settled-Counted :
      (l : Limiter fl) (key : String) (tokens : ℤ) (lim : Limits fl) (n : ℕ) (s : KeyState fl)
      → slot_limited fl lim ≡ true
      → lim.max_concurrency ≤ℤ max_int
      → Counted fl lim n (some s)
      → Counted fl lim n (l.keys key)
      → (never : Option Reason) (fit : Bool) → fits fl s.limits s.balance tokens s.live ≡ fit
      → let out = admit_settled fl l key tokens s never fit in Attempted key lim n (ok out.0, out.1)
  unfolding admit_settled taken held charge
  admit_settled-Counted l key tokens lim n s limited small c here (some reason) fit h =
      counted_of fl lim _ _ (l.keys key) (omega arith) here
  admit_settled-Counted l key tokens lim n s limited small c here none false h =
      rw (str_eq_refl key) (counted_of fl lim _ _ (some s) (omega arith) c)
  admit_settled-Counted l key tokens lim n s limited small c here none true h =
      rw (str_eq_refl key) (
        counted_of fl lim _ _ (some (charge fl s tokens)) (omega arith) (
          granted-Counted lim n s s.balance tokens limited small h c (charge fl s tokens) refl
            refl))

  pub attempt_elsewhere :
      (l : Limiter fl) (ctx : GoError) (key q : String) (tokens now : ℤ)
      → str_eq q key ≡ false
      → (attempt fl l ctx key tokens now).1.keys q ≡ l.keys q
  unfolding attempt admit admit_settled state_locked settle_locked charge
  attempt_elsewhere l ctx key q tokens now h = ground (arith, h)

  attempt-Found :
      (l : Limiter fl) (key : String) (tokens now : ℤ) (lim : Limits fl) (n : ℕ)
      (o : Option (KeyState fl × Limiter fl))
      → slot_limited fl lim ≡ true
      → lim.max_concurrency ≤ℤ max_int
      → Found l key lim n o
      → Attempted key lim n (elim o [
        | none ↦ (err (AcquireError.other (unknown_key fl key)), l)
        | some (s, l') ↦ let (a, l2) = admit fl l' key tokens now s in (ok a, l2)
      ])
  unfolding admit settle_locked
  attempt-Found l key tokens now lim n _ limited small (found s l' c here) =
      let s' = settle_locked fl s now in
      admit_settled-Counted l' key tokens lim n s' limited small
        (recounted fl lim n s s' refl refl c) (counted_at fl lim n _ _ (sym here) c) _ _ refl

  -- Of the leases of a key with a limit, an attempt grants one only if there is room.
  pub attempt-Counted :
      (l : Limiter fl) (ctx : GoError) (key : String) (tokens now : ℤ) (lim : Limits fl) (n : ℕ)
      → limits_for fl l key ≡ some lim
      → slot_limited fl lim ≡ true
      → lim.max_concurrency ≤ℤ max_int
      → Counted fl lim n (l.keys key)
      → Counted fl lim
          (held key (taken (attempt fl l ctx key tokens now).0) + n)
          ((attempt fl l ctx key tokens now).1.keys key)
  unfolding attempt slot_limited taken held
  attempt-Counted l ctx key tokens now lim n e limited small c =
      elim (Bool-cases (not (is_nil ctx))) [
        | inl ended ↦ rw (ended, attempt) (counted_of fl lim _ _ (l.keys key) (omega arith) c)
        | inr live ↦
            rw (live, attempt)
              (attempt-Found l key (max_ℤ tokens (pos 0)) now lim n _ limited small
                (state_locked-Found l key now lim n e (ground (arith, limited)) c))
      ]

  -- No method changes the configured limits.
  pub attempt-limits_for :
      (l : Limiter fl) (ctx : GoError) (key q : String) (tokens now : ℤ)
      → limits_for fl (attempt fl l ctx key tokens now).1 q ≡ limits_for fl l q
  unfolding attempt admit admit_settled state_locked limits_for
  attempt-limits_for l ctx key q tokens now = ground arith

  admit_settled-Grants :
      (l : Limiter fl) (key : String) (tokens : ℤ) (s : KeyState fl) (never : Option Reason)
      (fit : Bool)
      → Grants key (taken (ok (admit_settled fl l key tokens s never fit).0))
  unfolding admit_settled taken
  admit_settled-Grants l key tokens s (some reason) fit = no_lease
  admit_settled-Grants l key tokens s none true = one_lease _ refl refl
  admit_settled-Grants l key tokens s none false = no_lease

  attempt_at :
      (l : Limiter fl) (ctx : GoError) (key : String) (tokens now : ℤ) (ended : Bool)
      (o : Option (KeyState fl × Limiter fl))
      → not (is_nil ctx) ≡ ended
      → state_locked fl l key now ≡ o
      → Grants key (taken (attempt fl l ctx key tokens now).0)
  unfolding attempt admit taken
  attempt_at l ctx key tokens now true o e f = rw (e, attempt) no_lease
  attempt_at l ctx key tokens now false none e f = rw (e, attempt) (rw f no_lease)
  attempt_at l ctx key tokens now false (some (s, l')) e f =
      rw (e, attempt) (rw f (admit_settled-Grants l' key _ _ _ _))

  pub attempt-Grants :
      (l : Limiter fl) (ctx : GoError) (key : String) (tokens now : ℤ)
      → Grants key (taken (attempt fl l ctx key tokens now).0)
  attempt-Grants l ctx key tokens now = attempt_at l ctx key tokens now _ _ refl refl
