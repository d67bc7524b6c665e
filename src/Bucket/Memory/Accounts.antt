-- ===== src/Bucket/Memory/Accounts.antt =====
-- bucket/memory/memory.go: each call keeps the counts.
use maestro_llms.Base.{
  ℕ, ◌+◌, ◌≡◌, refl, sym, ap, subst, ◌∙◌, String, Bool, true, false, not, ◌&&◌, Option, none, some,
  List, ◌∷◌, ◌++◌, arith, if◌then◌else◌, inl, inr, str_eq, str_eq_iff, str_eq_refl, Bool-cases,
}
use maestro_llms.Base.Int.{ℤ, pos}
use maestro_llms.Base.Float.{Float}
use maestro_llms.Llms.Errors.{GoError}
use maestro_llms.Bucket.Limits.{Limits}
use maestro_llms.Bucket.Memory.{Lease, KeyState, Limiter, limits_for, attempt, adjust, release}
use maestro_llms.Bucket.Memory.Holding.{
  held, held-append, held-middle, taken, Grants, no_lease, one_lease, held-Grants, Counted, unused,
  used, limit_positive, within_limit, counted_at, counted_of,
}
use maestro_llms.Bucket.Memory.Attempts.{attempt_elsewhere, attempt-Counted, attempt-Grants}
use maestro_llms.Bucket.Memory.Returns.{
  adjust-Counted, release_elsewhere, release-Counted, adjust_lease, release_lease, release_again,
}
use maestro_llms.Bucket.Memory.Promise.{
  Room, CountStep, keeps, grants, frees, System, held_by, Holds,
}

module _ (fl : Float) where
  -- An attempt of a key grants nothing or one lease, for which there is room.
  pub granting :
      (limits : String → Option (Limits fl)) (s t : System fl) (key : String) (got : List Lease)
      → t.granted ≡ got ++ s.granted
      → Grants key got
      → Holds fl limits t
      → CountStep fl limits (held_by fl s) (held_by fl t)
  unfolding Room Holds held held_by
  granting limits s t key _ e no_lease holds = keeps (λ q. ap (held q) e)
  granting limits s t key _ e (one_lease r at_key live) holds =
      let counted : (q : String)
          → held q (r ∷ s.granted) ≡ (if str_eq key q then 1 else 0) + held q s.granted =
        λ q. rw at_key (rw live refl) in
      grants key
        (λ lim same limited small.
          within_limit fl lim _ _
            (subst (λ k. Counted fl lim k (t.limiter.keys key))
              (ap (held key) e ∙ counted key ∙ rw (str_eq_refl key) (omega arith))
              (holds key lim same limited small))
            (limit_positive fl lim limited))
        (λ q. ap (held q) e ∙ counted q)

  pub attempt-Holds :
      (limits : String → Option (Limits fl)) (l : Limiter fl) (rs : List Lease) (ctx : GoError)
      (key : String) (tokens now : ℤ)
      → ((q : String) → limits_for fl l q ≡ limits q)
      → Holds fl limits (record { limiter = l; granted = rs })
      → let out = attempt fl l ctx key tokens now in
        Holds fl limits (record { limiter = out.1; granted = taken out.0 ++ rs })
  unfolding Holds
  attempt-Holds limits l rs ctx key tokens now same holds q lim e limited small =
      let out = attempt fl l ctx key tokens now in
      let got = taken out.0 in
      elim (Bool-cases (str_eq q key)) [
        | inr away ↦
            counted_at fl lim _ _ _ (sym (attempt_elsewhere fl l ctx key q tokens now away)) (
              counted_of fl lim _ _ _
                (omega (
                  arith,
                  held-append q got rs,
                  held-Grants key q got away (attempt-Grants fl l ctx key tokens now),
                ))
                (holds q lim e limited small))
        | inl here ↦
            let q_key = (str_eq_iff q key).0 here in
            let at_key = ap limits (sym q_key) ∙ e in
            subst (λ k. Counted fl lim (held k (got ++ rs)) (out.1.keys k)) (sym q_key)
              (counted_of fl lim _ _ _ (sym (held-append key got rs)) (
                attempt-Counted fl l ctx key tokens now lim (held key rs) (same key ∙ at_key)
                  limited small (holds key lim at_key limited small)))
      ]

  pub adjusted_held :
      (l : Limiter fl) (xs ys : List Lease) (r : Lease) (actual now : ℤ) (q : String)
      → held q (xs ++ r ∷ ys) ≡ held q (xs ++ (adjust fl l r actual now).1 ∷ ys)
  adjusted_held l xs ys r actual now q =
      let r' = (adjust fl l r actual now).1 in
      ground (arith, held-middle q xs ys r, held-middle q xs ys r', adjust_lease fl l r actual now)

  released_held :
      (l : Limiter fl) (xs ys : List Lease) (r : Lease) (q : String)
      → held q (xs ++ r ∷ ys)
        ≡ (if not r.released && str_eq r.key q then 1 else 0)
          + held q (xs ++ (release fl l r).1 ∷ ys)
  released_held l xs ys r q =
      let r' = (release fl l r).1 in
      ground (arith, held-middle q xs ys r, held-middle q xs ys r', release_lease fl l r)

  pub adjusting-Holds :
      (limits : String → Option (Limits fl)) (l : Limiter fl) (xs ys : List Lease) (r : Lease)
      (actual now : ℤ)
      → Holds fl limits (record { limiter = l; granted = xs ++ r ∷ ys })
      → let out = adjust fl l r actual now in
        Holds fl limits (record { limiter = out.0; granted = xs ++ out.1 ∷ ys })
  unfolding Holds
  adjusting-Holds limits l xs ys r actual now holds q lim e limited small =
      counted_of fl lim _ _ _ (adjusted_held l xs ys r actual now q)
        (adjust-Counted fl l r actual now q lim _ (holds q lim e limited small))

  pub releasing-Holds :
      (limits : String → Option (Limits fl)) (l : Limiter fl) (xs ys : List Lease) (r : Lease)
      → Holds fl limits (record { limiter = l; granted = xs ++ r ∷ ys })
      → let out = release fl l r in
        Holds fl limits (record { limiter = out.0; granted = xs ++ out.1 ∷ ys })
  unfolding Holds
  releasing-Holds limits l xs ys r holds q lim e limited small =
      let before = holds q lim e limited small in
      elim (Bool-cases r.released) [
        | inl again ↦
            counted_at fl lim _ _ _ (sym (ap (λ f. f q) (release_again fl l r again)))
              (counted_of fl lim _ _ _ (ground (arith, released_held l xs ys r q, again)) before)
        | inr live ↦ elim (Bool-cases (str_eq q r.key)) [
          | inr away ↦ counted_at fl lim _ _ _ (sym (release_elsewhere fl l r q away)) (
              counted_of fl lim _ _ _
                (ground (
                  arith,
                  released_held l xs ys r q,
                  live,
                  away,
                  str_eq_iff q r.key,
                  str_eq_iff r.key q,
                ))
                before)
          | inl here ↦
              let at_key = (str_eq_iff q r.key).0 here in
              let after = xs ++ (release fl l r).1 ∷ ys in
              subst (λ k. Counted fl lim (held k after) ((release fl l r).0.keys k)) (sym at_key)
                (release-Counted fl l r lim _ live small (
                  counted_of fl lim _ _ _
                    (ground (arith, released_held l xs ys r r.key, live, str_eq_refl r.key))
                    (subst (λ k. Counted fl lim (held k (xs ++ r ∷ ys)) (l.keys k)) at_key before)))
        ]
      ]

  -- The count that a key's state keeps; a key without state has none.
  unfoldable pub live_of : Option (KeyState fl) → ℤ
  live_of none = pos 0
  live_of (some s) = s.live

  pub counted_live :
      (lim : Limits fl) (n : ℕ) (o : Option (KeyState fl)) → Counted fl lim n o → live_of o ≡ pos n
  unfolding live_of
  counted_live lim n _ (unused e) = ap pos (sym e)
  counted_live lim n _ (used s same counts within) = counts

  pub freeing :
      (limits : String → Option (Limits fl)) (l : Limiter fl) (xs ys : List Lease) (r : Lease)
      (released : Bool)
      → r.released ≡ released
      → CountStep fl limits
          (λ q. held q (xs ++ r ∷ ys))
          (λ q. held q (xs ++ (release fl l r).1 ∷ ys))
  freeing limits l xs ys r true h = keeps (λ q. ground (arith, released_held l xs ys r q, h))
  freeing limits l xs ys r false h = frees r.key (λ q. ground (arith, released_held l xs ys r q, h))
