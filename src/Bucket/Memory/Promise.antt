-- ===== src/Bucket/Memory/Promise.antt =====
-- bucket/memory/memory.go: what the limiter promises, a count for each key, and its calls as steps.
use maestro_llms.Base.{
  ℕ, suc, ◌+◌, ◌≡◌, String, true, Option, some, List, ◌∷◌, ◌++◌, if◌then◌else◌, str_eq,
}
use maestro_llms.Base.Int.{ℤ, pos, ◌≤ℤ◌, max_int}
use maestro_llms.Base.Float.{Float}
use maestro_llms.Llms.Errors.{GoError}
use maestro_llms.Bucket.Limits.{Limits, slot_limited}
use maestro_llms.Bucket.Memory.{Lease, Limiter, attempt, adjust, release}
use maestro_llms.Bucket.Memory.Holding.{held, taken, Counted}

-- What the limiter promises: a number of held leases for each key.
abbrev pub Count : Type 0
Count = String → ℕ

module _ (fl : Float) where
  -- A further lease of a key with these limits keeps within MaxConcurrency.
  unfoldable pub Room : Limits fl → ℕ → Type 0
  Room lim n =
      slot_limited fl lim ≡ true
      → lim.max_concurrency ≤ℤ max_int
      → pos (suc n) ≤ℤ lim.max_concurrency

  -- A step of the promise, for the limits of each key: nothing, a grant of one lease where there
  -- is room, or the release of one that is held. All other keys keep their counts.
  pub data CountStep (limits : String → Option (Limits fl)) (h h' : Count) : Type 0 where
    keeps : ((q : String) → h' q ≡ h q) → CountStep limits h h'
    grants :
        (key : String)
        → ((lim : Limits fl) → limits key ≡ some lim → Room lim (h key))
        → ((q : String) → h' q ≡ (if str_eq key q then 1 else 0) + h q)
        → CountStep limits h h'
    frees :
        (key : String)
        → ((q : String) → h q ≡ (if str_eq key q then 1 else 0) + h' q)
        → CountStep limits h h'

  pub data CountSteps (limits : String → Option (Limits fl)) (h : Count) : Count → Type 0 where
    start : CountSteps limits h h
    then_step :
        {h1 h2 : Count} → CountSteps limits h h1 → CountStep limits h1 h2 → CountSteps limits h h2

  -- A limiter and the leases it has granted.
  pub record System : Type 0 where
    pub limiter : Limiter fl
    pub granted : List Lease

  -- One attempt of an Acquire, or one call on a lease granted before, under the mutex.
  pub data Step : System → System → Type 0 where
    acquiring :
        (l : Limiter fl) (rs : List Lease) (ctx : GoError) (key : String) (tokens now : ℤ)
        → Step
            (record { limiter = l; granted = rs })
            (record {
              limiter = (attempt fl l ctx key tokens now).1;
              granted = taken (attempt fl l ctx key tokens now).0 ++ rs;
            })
    adjusting :
        (l : Limiter fl) (xs ys : List Lease) (r : Lease) (actual now : ℤ)
        → Step
            (record { limiter = l; granted = xs ++ r ∷ ys })
            (record {
              limiter = (adjust fl l r actual now).0;
              granted = xs ++ (adjust fl l r actual now).1 ∷ ys;
            })
    releasing :
        (l : Limiter fl) (xs ys : List Lease) (r : Lease)
        → Step
            (record { limiter = l; granted = xs ++ r ∷ ys })
            (record { limiter = (release fl l r).0; granted = xs ++ (release fl l r).1 ∷ ys })

  pub data Steps (s : System) : System → Type 0 where
    start : Steps s s
    then_step : {t u : System} → Steps s t → Step t u → Steps s u

  -- The leases of each key that are held.
  unfoldable pub held_by : System → Count
  held_by s q = held q s.granted

  -- Every key with a limit counts its leases, within the limit.
  unfoldable pub Holds : (String → Option (Limits fl)) → System → Type 0
  Holds limits s =
      (q : String) (lim : Limits fl)
      → limits q ≡ some lim
      → slot_limited fl lim ≡ true
      → lim.max_concurrency ≤ℤ max_int
      → Counted fl lim (held q s.granted) (s.limiter.keys q)
