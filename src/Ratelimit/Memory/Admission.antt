-- ===== src/Ratelimit/Memory/Admission.antt =====
-- llms/ratelimit/memory.go: a turn of Reserve keeps the accounts of the slots.
use maestro_llms.Base.{
  ℕ, ◌+◌, ◌≡◌, true, Option, none, some, List, [], ◌++◌, arith, ◌&&◌, Bool-cases, inl, inr,
}
use maestro_llms.Base.Int.{
  ℤ, pos, pos_part, ◌≤ℤ◌, -ℤ_parts, +ℤ_parts, eq_of_parts, max_int, sub64_exact,
}
use maestro_llms.Base.Float.{Float}
use maestro_llms.Llms.Errors.{is_nil}
use maestro_llms.Satint
use maestro_llms.Satint.Bounds.{add-clamp64}
use maestro_llms.Ratelimit.{UsageUnits, ReservationRequest, tokens, slots}
use maestro_llms.Ratelimit.Memory.{Limiter, Reservation, refill, try_acquire, has_slot, has_tokens}
use maestro_llms.Ratelimit.Memory.Granted.{held_slots, taken, and_first, and_right}
use maestro_llms.Ratelimit.Memory.Keeps.{Kept, kept, out_of_fuel, refill-Kept}
use maestro_llms.Ratelimit.Memory.Reserve.{Turn, Verdict, acquire_turn, turn, wait_for}
use maestro_llms.Ratelimit.Memory.Accounts.{Accounted, moved}

module _ (fl : Float) where
  taken-wait_for :
      (l : Limiter fl) (req : ReservationRequest) (t : Turn) (hint : ℤ)
      → taken (wait_for fl l req t hint) ≡ []
  unfolding wait_for taken
  taken-wait_for l req t hint = ground arith

  slots_positive : (u : UsageUnits) → pos 1 ≤ℤ slots u
  unfolding slots
  slots_positive u = ground arith

  slot_fits :
      (l : Limiter fl) (n : ℕ) (k : ℤ)
      → pos 1 ≤ℤ k
      → l.slot_limiting ≡ true
      → l.max_concurrency ≤ℤ max_int
      → l.active_reqs ≡ pos n
      → l.active_reqs ≤ℤ l.max_concurrency
      → has_slot fl l k ≡ true
      → (Satint.add l.active_reqs k ≡ pos (pos_part k + n))
        × (pos (pos_part k + n) ≤ℤ l.max_concurrency)
  unfolding has_slot
  slot_fits l n k one on hi count room fits =
      let exact =
        sub64_exact l.max_concurrency l.active_reqs
          (ground (arith, count, -ℤ_parts l.max_concurrency l.active_reqs)) in
      let small : pos (pos_part k + n) ≤ℤ l.max_concurrency =
        ground (arith, on, fits, exact, count, -ℤ_parts l.max_concurrency l.active_reqs) in
      (
        ground (
          arith,
          add-clamp64 l.active_reqs k,
          count,
          small,
          +ℤ_parts l.active_reqs k,
          eq_of_parts (Satint.add l.active_reqs k) (pos (pos_part k + n)),
        ),
        small,
      )

  -- An admission in a limiter that counts slots takes them all, without reaching past the limit.
  acquire-Accounted :
      (l : Limiter fl) (rs : List Reservation) (req : ReservationRequest) (t : Turn)
      → Accounted fl (record { limiter = l; granted = rs })
      → Accounted fl (record {
        limiter = (acquire_turn fl l req t).0;
        granted = taken (acquire_turn fl l req t).1 ++ rs;
      })
  unfolding acquire_turn try_acquire taken held_slots
  acquire-Accounted l rs req t a =
      let k = slots req.estimated_units in
      let nonneg : pos 0 ≤ℤ k = ground (arith, slots_positive req.estimated_units) in
      elim (Bool-cases (
        has_tokens fl l (tokens req.estimated_units)
        && has_slot fl l (slots req.estimated_units))) [
          | inl fits ↦
              let room =
                slot_fits l (held_slots rs) k (slots_positive req.estimated_units) a.limits_slots
                  a.limit_range.1 a.counted a.within (and_right _ _ fits) in
              rw fits (record {
                limits_slots = a.limits_slots;
                limit_range = a.limit_range;
                none_negative = and_first nonneg a.none_negative;
                counted = room.0;
                within = ground (arith, room);
              })
          | inr blocked ↦ rw blocked (
              rw (taken-wait_for _ req t _) record {
                limits_slots = a.limits_slots;
                limit_range = a.limit_range;
                none_negative = a.none_negative;
                counted = a.counted;
                within = a.within;
              })
        ]

  pub data TurnAccounted (rs : List Reservation) : Option (Limiter fl × Verdict) → Type 0 where
    no_turn : TurnAccounted rs none
    turned :
        (l : Limiter fl) (v : Verdict)
        → Accounted fl (record { limiter = l; granted = taken v ++ rs })
        → TurnAccounted rs (some (l, v))

  refilled_turn :
      (l : Limiter fl) (o : Option (Limiter fl)) (rs : List Reservation) (req : ReservationRequest)
      (t : Turn)
      → Kept fl l o
      → Accounted fl (record { limiter = l; granted = rs })
      → TurnAccounted rs (elim o [ none ↦ none | some l' ↦ some (acquire_turn fl l' req t) ])
  refilled_turn l none rs req t out_of_fuel a = no_turn
  refilled_turn l (some l') rs req t (kept _ s) a =
      turned _ _ (acquire-Accounted l' rs req t (moved fl l l' rs s a))

  pub turn-TurnAccounted :
      (l : Limiter fl) (rs : List Reservation) (req : ReservationRequest) (t : Turn)
      → Accounted fl (record { limiter = l; granted = rs })
      → TurnAccounted rs (turn fl l req t)
  unfolding turn taken
  turn-TurnAccounted l rs req t a = elim (Bool-cases (is_nil t.before)) [
    | inl going ↦
        rw going (refilled_turn l (refill fl 4 t.now l) rs req t (refill-Kept fl 4 t.now l) a)
    | inr over ↦ rw over (turned _ _ a)
  ]

  pub turned_some :
      {rs : List Reservation} {l : Limiter fl} {v : Verdict}
      → TurnAccounted rs (some (l, v))
      → Accounted fl (record { limiter = l; granted = taken v ++ rs })
  turned_some (turned _ _ a) = a
