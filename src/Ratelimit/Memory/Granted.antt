-- ===== src/Ratelimit/Memory/Granted.antt =====
-- llms/ratelimit/memory.go: the slots of a list of reservations.
use maestro_llms.Base.{
  ℕ, ◌+◌, ◌≡◌, refl, ap, Bool, true, List, [], ◌∷◌, ◌++◌, arith, if◌then◌else◌, ◌&&◌,
}
use maestro_llms.Base.Int.{pos, pos_part, ◌≤ℤ◌}
use maestro_llms.Ratelimit.Memory.{Reservation}
use maestro_llms.Ratelimit.Memory.Reserve.{Verdict}

-- The slots that reservations hold.
unfoldable pub held_slots : List Reservation → ℕ
held_slots [] = 0
held_slots (r ∷ rs) = (if r.released then 0 else pos_part r.slots) + held_slots rs

unfoldable pub taken : Verdict → List Reservation
taken (Verdict.admitted r) = r ∷ []
taken (Verdict.refused e) = []
taken (Verdict.sleeps d) = []

pub held_slots-append :
    (xs ys : List Reservation) → held_slots (xs ++ ys) ≡ held_slots xs + held_slots ys
unfolding held_slots
held_slots-append [] ys = omega arith
held_slots-append (a ∷ xs) ys = ground (arith, held_slots-append xs ys)

-- No reservation holds a negative number of slots.
pub data NoneNegative : List Reservation → Type 0 where
  all_of_none : NoneNegative []
  and_first :
      {r : Reservation} {rs : List Reservation}
      → pos 0 ≤ℤ r.slots
      → NoneNegative rs
      → NoneNegative (r ∷ rs)

pub at_middle :
    (xs ys : List Reservation) (r : Reservation) → NoneNegative (xs ++ r ∷ ys) → pos 0 ≤ℤ r.slots
at_middle [] ys r (and_first h hs) = h
at_middle (x ∷ xs) ys r (and_first h hs) = at_middle xs ys r hs

pub replaced :
    (xs ys : List Reservation) (r r' : Reservation)
    → r'.slots ≡ r.slots
    → NoneNegative (xs ++ r ∷ ys)
    → NoneNegative (xs ++ r' ∷ ys)
replaced [] ys r r' e (and_first h hs) = and_first (ground (arith, e, h)) hs
replaced (x ∷ xs) ys r r' e (and_first h hs) = and_first h (replaced xs ys r r' e hs)

pub same_held :
    (xs ys : List Reservation) (r r' : Reservation)
    → r'.slots ≡ r.slots
    → r'.released ≡ r.released
    → held_slots (xs ++ r' ∷ ys) ≡ held_slots (xs ++ r ∷ ys)
unfolding held_slots
same_held [] ys r r' e f = rw e (rw f refl)
same_held (x ∷ xs) ys r r' e f =
    ap (λ n. (if x.released then 0 else pos_part x.slots) + n) (same_held xs ys r r' e f)

pub and_right : (a b : Bool) → (a && b) ≡ true → b ≡ true
and_right a b h = ground arith
