-- ===== src/Ratelimit/Memory/Settlement.antt =====
-- llms/ratelimit/memory.go: Commit, Release and Stats keep the accounts of the slots.
use maestro_llms.Base.{
  ℕ, ◌+◌, ◌≡◌, refl, ◌∙◌, sym, ap, Bool, true, false, Option, none, some, List, ◌∷◌, ◌++◌, arith,
  if◌then◌else◌, not, Bool-cases, inl, inr,
}
use maestro_llms.Base.Int.{
  ℤ, pos, pos_part, ◌≤ℤ◌, -ℤ_parts, eq_of_parts, max_int, sub64, sub64_exact, max_ℤ,
}
use maestro_llms.Base.Float.{Float}
use maestro_llms.Llms.Usage.{Usage}
use maestro_llms.Ratelimit.{effective_tokens}
use maestro_llms.Ratelimit.Memory.{Limiter, Reservation, refill, charge, commit, release}
use maestro_llms.Ratelimit.Memory.Granted.{held_slots, held_slots-append, at_middle, replaced}
use maestro_llms.Ratelimit.Memory.Keeps.{SameSlots, Kept, kept, out_of_fuel, same, refill-Kept}
use maestro_llms.Ratelimit.Memory.Reserve.{LimiterSnapshot, stats}
use maestro_llms.Ratelimit.Memory.Accounts.{Accounted, moved, regranted}

module _ (fl : Float) where
  -- What Commit leaves alone.
  pub data Committed (l : Limiter fl) (r : Reservation)
      : Option (Limiter fl × Reservation) → Type 0 where
    no_commit : Committed l r none
    committed :
        (l' : Limiter fl) (r' : Reservation)
        → SameSlots fl l l'
        → r'.slots ≡ r.slots
        → r'.released ≡ r.released
        → Committed l r (some (l', r'))

  committed-if :
      (b : Bool) (l : Limiter fl) (r : Reservation) (x y : Option (Limiter fl × Reservation))
      → Committed l r x
      → Committed l r y
      → Committed l r (if b then x else y)
  committed-if true l r x y hx hy = hx
  committed-if false l r x y hx hy = hy

  charged :
      (l : Limiter fl) (o : Option (Limiter fl)) (r : Reservation) (usage : Usage)
      → Kept fl l o
      → Committed l r (elim o [
        | none ↦ none
        | some l' ↦
            some (charge fl l' (effective_tokens usage) r.tokens, record r { committed = true })
      ])
  unfolding charge
  charged l none r usage out_of_fuel = no_commit
  charged l (some l') r usage (kept _ s) =
      committed _ _ record { limiting = s.limiting; limit = s.limit; active = s.active } refl refl

  pub commit-Committed :
      (l : Limiter fl) (r : Reservation) (now : ℤ) (usage : Usage)
      → Committed l r (commit fl 4 now usage l r)
  unfolding commit
  commit-Committed l r now usage =
      committed-if r.committed l r _ _ (committed l r (same fl l) refl refl) (
        committed-if (not l.token_limiting) l r _ _ (committed l _ (same fl l) refl refl)
          (charged l _ r usage (refill-Kept fl 4 now l)))

  pub after_commit :
      {l l' : Limiter fl} {r r' : Reservation} (xs ys : List Reservation)
      → Committed l r (some (l', r'))
      → Accounted fl (record { limiter = l; granted = xs ++ r ∷ ys })
      → Accounted fl (record { limiter = l'; granted = xs ++ r' ∷ ys })
  after_commit {l = l} {l' = l'} {r = r} {r' = r'} xs ys (committed _ _ s e f) a =
      regranted fl l' xs ys r r' e f (moved fl l l' (xs ++ r ∷ ys) s a)

  held_middle :
      (xs ys : List Reservation) (r : Reservation)
      → held_slots (xs ++ r ∷ ys)
        ≡ (if r.released then 0 else pos_part r.slots) + (held_slots xs + held_slots ys)
  unfolding held_slots
  held_middle xs ys r = ground (arith, held_slots-append xs (r ∷ ys))

  freed :
      (active k : ℤ) (n : ℕ)
      → pos 0 ≤ℤ k
      → active ≡ pos (pos_part k + n)
      → active ≤ℤ max_int
      → max_ℤ (sub64 active k) (pos 0) ≡ pos n
  freed active k n nonneg count hi =
      ground (arith, sub64_exact active k, -ℤ_parts active k, eq_of_parts (sub64 active k) (pos n))

  pub release-Accounted :
      (l : Limiter fl) (xs ys : List Reservation) (r : Reservation)
      → Accounted fl (record { limiter = l; granted = xs ++ r ∷ ys })
      → Accounted fl
          (record { limiter = (release fl l r).0; granted = xs ++ (release fl l r).1 ∷ ys })
  unfolding release
  release-Accounted l xs ys r a = elim (Bool-cases r.released) [
    | inl twice ↦ rw twice (regranted fl l xs ys r _ refl (sym twice) a)
    | inr first ↦
        let count = held_middle xs ys r in
        let left =
          freed l.active_reqs r.slots (held_slots xs + held_slots ys)
            (at_middle xs ys r a.none_negative) (a.counted ∙ ap pos (count ∙ rw first refl))
            (ground (arith, a.within, a.limit_range)) in
        rw first record {
          limits_slots = a.limits_slots;
          limit_range = a.limit_range;
          none_negative = replaced xs ys r _ refl a.none_negative;
          counted =
              left ∙ ap pos (ground (arith, held_middle xs ys (record r { released = true })));
          within = ground (arith, left, count, a.counted, a.within);
        }
  ]

  pub data StatsAccounted (rs : List Reservation)
      : Option (Limiter fl × LimiterSnapshot) → Type 0 where
    no_stats : StatsAccounted rs none
    read :
        (l : Limiter fl) (snapshot : LimiterSnapshot)
        → Accounted fl (record { limiter = l; granted = rs })
        → StatsAccounted rs (some (l, snapshot))

  pub stats-StatsAccounted :
      (l : Limiter fl) (rs : List Reservation) (now : ℤ)
      → Accounted fl (record { limiter = l; granted = rs })
      → StatsAccounted rs (stats fl now l)
  unfolding stats
  stats-StatsAccounted l rs now a = go (refill fl 4 now l) (refill-Kept fl 4 now l)
    where
      go :
          (o : Option (Limiter fl))
          → Kept fl l o
          → StatsAccounted rs (elim o [
            | none ↦ none
            | some l' ↦ some (
              l',
              record {
                available_tokens = l'.available_tok;
                max_capacity = l'.max_capacity;
                active_requests = l'.active_reqs;
                max_concurrency = l'.max_concurrency;
                token_wait_hits = l'.token_wait_hits;
                slot_wait_hits = l'.slot_wait_hits;
              },
            )
          ])
      go none out_of_fuel = no_stats
      go (some l') (kept _ s) = read _ _ (moved fl l l' rs s a)

  pub read_some :
      {rs : List Reservation} {l : Limiter fl} {p : LimiterSnapshot}
      → StatsAccounted rs (some (l, p))
      → Accounted fl (record { limiter = l; granted = rs })
  read_some (read _ _ a) = a
