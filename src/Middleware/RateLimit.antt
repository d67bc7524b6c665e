-- ===== src/Middleware/RateLimit.antt =====
-- llms/middleware/ratelimit.go: a call under a reservation. The limiter is an interface; a Commit or
-- a Release whose error the code drops is a change of the world.
pub mod Order
use maestro_llms.Base.{Bool, true, false, not, ◌&&◌, ◌||◌, Result, ok, err, if◌then◌else◌}
use maestro_llms.Base.Int.{ℤ, pos, eqb_ℤ}
use maestro_llms.Llms.Errors.{GoError, is_nil}
use maestro_llms.Llms.Usage.{Usage}
use maestro_llms.Ratelimit.{ReservationRequest}

-- `ratelimit.Limiter` and `ratelimit.Reservation`.
pub record LimiterOps (W : Type 0) : Type 1 where
  pub Handle : Type 0
  pub reserve : ReservationRequest → W → Result GoError Handle × W
  pub commit : Handle → Usage → W → W
  pub release : Handle → W → W

-- `usageReported`.
unfoldable pub usage_reported : Usage → Bool
usage_reported u =
    not (eqb_ℤ u.input_tokens (pos 0))
    || not (eqb_ℤ u.output_tokens (pos 0))
    || not (eqb_ℤ u.total_tokens (pos 0))
    || not (eqb_ℤ u.reasoning_tokens (pos 0))
    || not (eqb_ℤ u.billable_output_tokens (pos 0))
    || not (eqb_ℤ u.embedding_tokens (pos 0))
    || not (eqb_ℤ u.cache_read_tokens (pos 0))
    || not (eqb_ℤ u.cache_write_tokens (pos 0))

module _ {W Resp : Type 0} (ops : LimiterOps W) (zero : Resp) (call : W → Resp × GoError × W)
    (usage_of : Resp → Usage) where
  -- What follows a granted reservation.
  with_reservation : Result GoError ops.Handle → W → Resp × GoError × W
  unfolding usage_reported
  with_reservation (err e) w = (zero, e, w)
  with_reservation (ok h) w =
      let (resp, e, w1) = call w in
      let w2 =
        if is_nil e && usage_reported (usage_of resp)
        then ops.commit h (usage_of resp) w1
        else w1 in
      (resp, e, ops.release h w2)

  -- `reserved`.
  unfoldable pub reserved : ReservationRequest → W → Resp × GoError × W
  unfolding with_reservation
  reserved rr w = let (r, w') = ops.reserve rr w in with_reservation r w'
