-- ===== src/Ratelimit/FromBucket.antt =====
-- llms/ratelimit/bucket.go: a bucket.Limiter under the reservation protocol. The bucket is an
-- interface; the key function and the text of a LimitError's reason are arguments.
use maestro_llms.Base.{
  String, false, not, ◌&&◌, ◌≡◌, refl, Result, ok, err, inl, inr, arith, if◌then◌else◌, Bool-cases,
}
use maestro_llms.Base.Int.{ℤ, pos, ltb_ℤ, ◌<ℤ◌}
use maestro_llms.Llms.Errors.{
  GoError, LimitInfo, is_canceled, limit_retryable, retryable, retry_after,
}
use maestro_llms.Llms.Errors.Tree.{retryable-errorf}
use maestro_llms.Llms.Usage.{Usage}
use maestro_llms.Bucket.Core.{AcquireError, LimitError, Reason}
use maestro_llms.Ratelimit.{ReservationRequest, tokens, slots, effective_tokens}
use maestro_llms.Middleware.RateLimit.{LimiterOps}

-- `bucket.Limiter` and `bucket.Lease`, but for Lost.
pub record BucketOps (W : Type 0) : Type 1 where
  pub Lease : Type 0
  pub acquire : String → ℤ → W → Result AcquireError Lease × W
  pub adjust : Lease → ℤ → W → GoError × W
  pub release : Lease → W → GoError × W

-- The errors that a LimitError may have as its cause.
pub data FromContext : GoError → Type 0 where
  no_cause : FromContext GoError.nil
  was_canceled : FromContext GoError.canceled
  past_deadline : FromContext GoError.deadline_exceeded

module _ {W : Type 0} (ops : BucketOps W) (key : ReservationRequest → String)
    (show : String → Reason → String) where
  -- The error that a rejected Acquire becomes.
  pub translated : ReservationRequest → AcquireError → GoError
  translated req (AcquireError.limited le) =
      GoError.limit_error
        (record {
          provider = req.provider;
          model = req.model;
          reason = show le.key le.reason;
          retry_after = le.retry_after;
          permanent = le.permanent;
        })
        le.cause
  translated req (AcquireError.other e) = GoError.errorf "ratelimit: bucket" e

  pub acquired : ReservationRequest → Result AcquireError ops.Lease → Result GoError ops.Lease
  acquired req (ok lease) = ok lease
  acquired req (err e) = err (translated req e)

  -- The rejection of a reservation of more than one slot.
  abbrev pub too_many_slots : GoError
  too_many_slots = GoError.opaque "ratelimit: bucket leases hold one slot" GoError.nil

  -- `Reserve`.
  unfoldable pub reserve : ReservationRequest → W → Result GoError ops.Lease × W
  reserve req w =
      let (r, w') = ops.acquire (key req) (tokens req.estimated_units) w in
      if ltb_ℤ (pos 1) (slots req.estimated_units)
      then (err too_many_slots, w)
      else (acquired req r, w')

  -- `Commit`.
  unfoldable pub commit : ops.Lease → Usage → W → GoError × W
  commit lease usage w = ops.adjust lease (effective_tokens usage) w

  -- `FromBucket`, as the middleware uses it: it drops the errors of Commit and Release.
  abbrev pub from_bucket : LimiterOps W
  from_bucket = record {
    Handle = ops.Lease;
    reserve = reserve;
    commit = λ lease usage w. (commit lease usage w).1;
    release = λ lease w. (ops.release lease w).1;
  }

  limit_error-retryable :
      (i : LimitInfo) (cause : GoError)
      → FromContext cause
      → (retryable (GoError.limit_error i cause) ≡ (not i.permanent && not (is_canceled cause)))
        × (retry_after (GoError.limit_error i cause) ≡ i.retry_after)
  unfolding retryable retry_after limit_retryable
  limit_error-retryable i _ no_cause = ground arith
  limit_error-retryable i _ was_canceled = ground arith
  limit_error-retryable i _ past_deadline = ground arith

  -- What a Reserve from the world w comes to: a rejection of more than one slot without a call of the
  -- bucket, or, for one slot, a lease, the rejection of the bucket with its hint, which is retried
  -- unless it is permanent or a cancellation, or a failure of the bucket, retried where the bucket's
  -- error is.
  pub data Outcome (req : ReservationRequest) (w : W) : Result GoError ops.Lease × W → Type 0 where
    too_many :
        (e : GoError)
        → pos 1 <ℤ slots req.estimated_units
        → retryable e ≡ false
        → Outcome req w (err e, w)
    granted :
        (lease : ops.Lease) (w' : W)
        → slots req.estimated_units ≡ pos 1
        → ops.acquire (key req) (tokens req.estimated_units) w ≡ (ok lease, w')
        → Outcome req w (ok lease, w')
    rejected :
        (le : LimitError) (e : GoError) (w' : W)
        → slots req.estimated_units ≡ pos 1
        → ops.acquire (key req) (tokens req.estimated_units) w ≡ (err (AcquireError.limited le), w')
        → retryable e ≡ (not le.permanent && not (is_canceled le.cause))
        → retry_after e ≡ le.retry_after
        → Outcome req w (err e, w')
    broken :
        (b e : GoError) (w' : W)
        → slots req.estimated_units ≡ pos 1
        → ops.acquire (key req) (tokens req.estimated_units) w ≡ (err (AcquireError.other b), w')
        → retryable e ≡ retryable b
        → retry_after e ≡ retry_after b
        → Outcome req w (err e, w')

  -- The causes that a bucket gives to its LimitErrors are errors of a context, as bucket.LimitError
  -- documents.
  unfoldable pub CausesFromContext : Type 0
  CausesFromContext =
      (k : String) (n : ℤ) (w w' : W) (le : LimitError)
      → ops.acquire k n w ≡ (err (AcquireError.limited le), w')
      → FromContext le.cause

  acquired-Outcome :
      (req : ReservationRequest) (w w' : W) (r : Result AcquireError ops.Lease)
      → CausesFromContext
      → slots req.estimated_units ≡ pos 1
      → ops.acquire (key req) (tokens req.estimated_units) w ≡ (r, w')
      → Outcome req w (acquired req r, w')
  unfolding acquired translated CausesFromContext
  acquired-Outcome req w w' (ok lease) causes one h = granted lease w' one h
  acquired-Outcome req w w' (err (AcquireError.limited le)) causes one h =
      let (again, hint) = limit_error-retryable _ le.cause (causes _ _ w w' le h) in
      rejected le _ w' one h again hint
  acquired-Outcome req w w' (err (AcquireError.other b)) causes one h =
      let (again, hint) = retryable-errorf "ratelimit: bucket" b in broken b _ w' one h again hint

  one_slot :
      (req : ReservationRequest)
      → ltb_ℤ (pos 1) (slots req.estimated_units) ≡ false
      → slots req.estimated_units ≡ pos 1
  unfolding slots
  one_slot req h = ground (arith, h)

  -- Whatever bucket it stands on, Reserve asks it for a lease only where one slot is wanted, with the
  -- request's key and tokens; its error for more slots is not retryable. A lease is passed on. The
  -- rejection by the bucket keeps its hint and is retryable unless it is permanent or comes from a
  -- cancellation; any other error of the bucket is retryable, with its hint, where it was before.
  pub reserve-Outcome :
      (req : ReservationRequest) (w : W) → CausesFromContext → Outcome req w (reserve req w)
  unfolding retryable reserve
  reserve-Outcome req w causes = elim (Bool-cases (ltb_ℤ (pos 1) (slots req.estimated_units))) [
    | inl many ↦ rw (many, reserve) (too_many _ (ground (arith, many)) (ground arith))
    | inr single ↦
        rw (single, reserve) (acquired-Outcome req w _ _ causes (one_slot req single) refl)
  ]
