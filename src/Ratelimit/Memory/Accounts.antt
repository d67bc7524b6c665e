-- ===== src/Ratelimit/Memory/Accounts.antt =====
-- llms/ratelimit/memory.go: the concurrency lease as a step relation, and its accounts.
use maestro_llms.Base.{◌≡◌, ◌∙◌, sym, ap, true, some, List, ◌∷◌, ◌++◌, arith}
use maestro_llms.Base.Int.{ℤ, pos, ◌≤ℤ◌, max_int}
use maestro_llms.Base.Float.{Float}
use maestro_llms.Llms.Usage.{Usage}
use maestro_llms.Ratelimit.{ReservationRequest}
use maestro_llms.Ratelimit.Memory.{Limiter, Reservation, commit, release}
use maestro_llms.Ratelimit.Memory.Granted.{held_slots, taken, NoneNegative, replaced, same_held}
use maestro_llms.Ratelimit.Memory.Keeps.{SameSlots}
use maestro_llms.Ratelimit.Memory.Reserve.{LimiterSnapshot, stats, Turn, Verdict, turn}

module _ (fl : Float) where
  -- A limiter and the reservations it has granted.
  pub record System : Type 0 where
    pub limiter : Limiter fl
    pub granted : List Reservation

  -- One call, or one turn of a waiting Reserve, under the mutex.
  pub data Step : System → System → Type 0 where
    reserving :
        (l l' : Limiter fl) (rs : List Reservation) (req : ReservationRequest) (t : Turn)
        (v : Verdict)
        → turn fl l req t ≡ some (l', v)
        → Step
            (record { limiter = l; granted = rs })
            (record { limiter = l'; granted = taken v ++ rs })
    committing :
        (l l' : Limiter fl) (xs ys : List Reservation) (r r' : Reservation) (now : ℤ)
        (usage : Usage)
        → commit fl 4 now usage l r ≡ some (l', r')
        → Step
            (record { limiter = l; granted = xs ++ r ∷ ys })
            (record { limiter = l'; granted = xs ++ r' ∷ ys })
    releasing :
        (l : Limiter fl) (xs ys : List Reservation) (r : Reservation)
        → Step
            (record { limiter = l; granted = xs ++ r ∷ ys })
            (record { limiter = (release fl l r).0; granted = xs ++ (release fl l r).1 ∷ ys })
    reading :
        (l l' : Limiter fl) (rs : List Reservation) (now : ℤ) (snapshot : LimiterSnapshot)
        → stats fl now l ≡ some (l', snapshot)
        → Step (record { limiter = l; granted = rs }) (record { limiter = l'; granted = rs })

  pub data Steps (s : System) : System → Type 0 where
    start : Steps s s
    then_step : {t u : System} → Steps s t → Step t u → Steps s u

  -- The limiter counts exactly the slots held, and they are within the limit.
  pub record Accounted (s : System) : Type 0 where
    pub limits_slots : s.limiter.slot_limiting ≡ true
    pub limit_range : (pos 0 ≤ℤ s.limiter.max_concurrency) × (s.limiter.max_concurrency ≤ℤ max_int)
    pub counted : s.limiter.active_reqs ≡ pos (held_slots s.granted)
    pub none_negative : NoneNegative s.granted
    pub within : s.limiter.active_reqs ≤ℤ s.limiter.max_concurrency

  pub moved :
      (l l2 : Limiter fl) (rs : List Reservation)
      → SameSlots fl l l2
      → Accounted (record { limiter = l; granted = rs })
      → Accounted (record { limiter = l2; granted = rs })
  moved l l2 rs s a = record {
    limits_slots = s.limiting ∙ a.limits_slots;
    limit_range = ground (arith, s.limit, a.limit_range);
    none_negative = a.none_negative;
    counted = s.active ∙ a.counted;
    within = ground (arith, s.limit, s.active, a.within);
  }

  pub regranted :
      (l : Limiter fl) (xs ys : List Reservation) (r r' : Reservation)
      → r'.slots ≡ r.slots
      → r'.released ≡ r.released
      → Accounted (record { limiter = l; granted = xs ++ r ∷ ys })
      → Accounted (record { limiter = l; granted = xs ++ r' ∷ ys })
  regranted l xs ys r r' e f a = record {
    limits_slots = a.limits_slots;
    limit_range = a.limit_range;
    none_negative = replaced xs ys r r' e a.none_negative;
    counted = a.counted ∙ ap pos (sym (same_held xs ys r r' e f));
    within = a.within;
  }
