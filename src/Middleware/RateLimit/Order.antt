-- ===== src/Middleware/RateLimit/Order.antt =====
-- llms/middleware/ratelimit.go: the order of the limiter's calls around the client's.
use maestro_llms.Base.{
  ◌≡◌, refl, true, false, ◌&&◌, List, [], ◌∷◌, Result, ok, err, ◌⊎◌, inl, inr, Bool-cases,
}
use maestro_llms.Llms.Errors.{GoError, is_nil}
use maestro_llms.Llms.Usage.{Usage}
use maestro_llms.Ratelimit.{ReservationRequest}
use maestro_llms.Middleware.RateLimit.{LimiterOps, usage_reported, with_reservation, reserved}

-- What reaches the limiter and the wrapped client.
pub data Event (H : Type 0) : Type 0 where
  called : Event H
  committed : H → Usage → Event H
  released : H → Event H

module _ {W : Type 0} (ops : LimiterOps W) where
  -- The limiter and the client, with what reaches them kept in a list, the latest first.
  abbrev pub log_ops : LimiterOps (W × List (Event ops.Handle))
  log_ops = record {
    Handle = ops.Handle;
    reserve = λ rr s. let (r, w) = ops.reserve rr s.0 in (r, (w, s.1));
    commit = λ h u s. (ops.commit h u s.0, committed h u ∷ s.1);
    release = λ h s. (ops.release h s.0, released h ∷ s.1);
  }

  abbrev pub log_call :
      {Resp : Type 0}
      → (W → Resp × GoError × W)
      → W × List (Event ops.Handle)
      → Resp × GoError × (W × List (Event ops.Handle))
  log_call call s = let (resp, e, w) = call s.0 in (resp, e, (w, called ∷ s.1))

  -- What the list and the result say, for a response, an error and the limiter's answer.
  abbrev pub Accounts :
      {Resp : Type 0}
      → (usage_of : Resp → Usage) → Resp
      → Resp × GoError × (W × List (Event ops.Handle))
      → Resp
      → GoError
      → Result GoError ops.Handle
      → Type 0
  Accounts usage_of zero (resp, e, (w, log)) answer failure (err refusal) =
      (log ≡ []) × (resp ≡ zero) × (e ≡ refusal)
  Accounts usage_of zero (resp, e, (w, log)) answer failure (ok h) =
      (resp ≡ answer)
      × (e ≡ failure)
      × (((is_nil e && usage_reported (usage_of resp) ≡ true)
            × (log ≡ released h ∷ committed h (usage_of resp) ∷ called ∷ []))
          ⊎ ((is_nil e && usage_reported (usage_of resp) ≡ false)
              × (log ≡ released h ∷ called ∷ [])))

  with_reservation-Accounts :
      {Resp : Type 0} (zero : Resp) (call : W → Resp × GoError × W) (usage_of : Resp → Usage)
      (r : Result GoError ops.Handle) (w : W)
      → Accounts usage_of zero
          (with_reservation log_ops zero (log_call call) usage_of r (w, []))
          (call w).0
          (call w).1
          r
  unfolding with_reservation
  with_reservation-Accounts zero call usage_of (err e) w = (refl, refl, refl)
  with_reservation-Accounts zero call usage_of (ok h) w =
      elim (Bool-cases (is_nil (call w).1 && usage_reported (usage_of (call w).0))) [
        | inl reports ↦ rw reports (refl, refl, inl (refl, refl))
        | inr silent ↦ rw silent (refl, refl, inr (refl, refl))
      ]

  -- A refused reservation makes no call and returns the zero response with the limiter's error. A
  -- granted one makes one call and returns its response and error, and is released exactly once, after
  -- the call. It is committed exactly once, between the two, with the usage of the response, where the
  -- call succeeded and the usage has a token field set, and not at all elsewhere.
  pub reserved-Accounts :
      {Resp : Type 0} (zero : Resp) (call : W → Resp × GoError × W) (usage_of : Resp → Usage)
      (rr : ReservationRequest) (w : W)
      → Accounts usage_of zero
          (reserved log_ops zero (log_call call) usage_of rr (w, []))
          (call (ops.reserve rr w).1).0
          (call (ops.reserve rr w).1).1
          (ops.reserve rr w).0
  unfolding reserved
  reserved-Accounts zero call usage_of rr w =
      with_reservation-Accounts zero call usage_of (ops.reserve rr w).0 (ops.reserve rr w).1
