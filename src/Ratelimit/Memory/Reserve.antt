-- ===== src/Ratelimit/Memory/Reserve.antt =====
-- llms/ratelimit/memory.go: Reserve. A waiting Reserve lets go of the mutex, so a turn of its loop is
-- one step on the limiter, and what the turn reads from outside is an argument of it.
use maestro_llms.Base.{
  String, Bool, true, false, ◌&&◌, Option, none, some, List, [], ◌∷◌, if◌then◌else◌, Result, ok,
  err,
}
use maestro_llms.Base.Int.{ℤ, pos, leb_ℤ, ltb_ℤ, min_ℤ, sub64}
use maestro_llms.Base.Float.{Float}
use maestro_llms.Llms.Errors.{GoError, is_nil}
use maestro_llms.Ratelimit.{ReservationRequest, tokens, slots}
use maestro_llms.Ratelimit.Memory.{Limiter, Reservation, refill, try_acquire}

-- What a turn reads: ctx.Err() before it, the clock at its refill, how long Reserve has waited, and
-- ctx.Err() if the context ended the sleep, or nil.
pub record Turn : Type 0 where
  pub before : GoError
  pub now : ℤ
  pub waited : ℤ
  pub interrupted : GoError

-- `limitErr` and `ctxDone`, with the cause of the latter.
limit_err : ReservationRequest → String → ℤ → Bool → GoError → GoError
limit_err req reason wait permanent cause =
    GoError.limit_error
      record {
        provider = req.provider;
        model = req.model;
        reason = reason;
        retry_after = wait;
        permanent = permanent;
      }
      cause

-- How a turn ends.
pub data Verdict : Type 0 where
  admitted : Reservation → Verdict
  refused : GoError → Verdict
  sleeps : ℤ → Verdict

pub record LimiterSnapshot : Type 0 where
  pub available_tokens : ℤ
  pub max_capacity : ℤ
  pub active_requests : ℤ
  pub max_concurrency : ℤ
  pub token_wait_hits : ℤ
  pub slot_wait_hits : ℤ

module _ (fl : Float) where
  -- `impossible`: the error, or none.
  unfoldable pub impossible : Limiter fl → ReservationRequest → Option GoError
  unfolding limit_err
  impossible l req =
      if l.token_limiting && ltb_ℤ l.max_capacity (tokens req.estimated_units)
      then some (
          limit_err req
            "estimated tokens exceed maximum bucket capacity; request can never be admitted" (pos 0)
            true GoError.nil)
      else if l.slot_limiting && ltb_ℤ l.max_concurrency (slots req.estimated_units)
      then some (
          limit_err req "requested concurrency exceeds maximum; request can never be admitted"
            (pos 0) true GoError.nil)
      else none

  -- The wait behind a failed attempt, with its retry-after estimate.
  unfoldable pub wait_for : Limiter fl → ReservationRequest → Turn → ℤ → Verdict
  unfolding sub64 limit_err
  wait_for l req t hint =
      let remaining = sub64 l.max_wait t.waited in
      let bounded = ltb_ℤ (pos 0) l.max_wait in
      if bounded && leb_ℤ remaining (pos 0)
      then refused (limit_err req "rate limit wait exceeded MaxWait" hint false GoError.nil)
      else if is_nil t.interrupted
      then sleeps (if bounded then min_ℤ l.poll_interval remaining else l.poll_interval)
      else refused (
          limit_err req "context done while waiting for rate-limit capacity" hint false
            t.interrupted)

  -- The part of a turn behind the refill.
  unfoldable pub acquire_turn : Limiter fl → ReservationRequest → Turn → Limiter fl × Verdict
  unfolding wait_for try_acquire
  acquire_turn l req t =
      let u = req.estimated_units in
      let tried = try_acquire fl l (tokens u) (slots u) in
      if tried.1
      then (
        tried.0,
        admitted record { tokens = tokens u; slots = slots u; committed = false; released = false },
      )
      else (tried.0, wait_for tried.0 req t tried.2)

  -- A turn of the loop of `Reserve`, on four rounds of the refill's loop.
  unfoldable pub turn : Limiter fl → ReservationRequest → Turn → Option (Limiter fl × Verdict)
  unfolding limit_err acquire_turn refill
  turn l req t =
      if is_nil t.before
      then elim (refill fl 4 t.now l) [ none ↦ none | some l' ↦ some (acquire_turn l' req t) ]
      else some (
        l,
        refused (
            limit_err req "context done before rate-limit capacity available" (pos 0) false
              t.before),
      )

  -- `Reserve` where no other call touches the limiter: `none` when the turns are used up and it waits.
  reserve_from :
      List Turn → Limiter fl → ReservationRequest → Option (Limiter fl × Result GoError Reservation)
  unfolding turn
  reserve_from [] l req = none
  reserve_from (t ∷ ts) l req = elim (turn l req t) [
    | none ↦ none
    | some (l', admitted r) ↦ some (l', ok r)
    | some (l', refused e) ↦ some (l', err e)
    | some (l', sleeps d) ↦ reserve_from ts l' req
  ]

  unfoldable pub reserve :
      List Turn → Limiter fl → ReservationRequest → Option (Limiter fl × Result GoError Reservation)
  unfolding impossible reserve_from
  reserve ts l req = elim (impossible l req) [
    | some e ↦ some (l, err e)
    | none ↦ reserve_from ts l req
  ]

  -- `Stats`, at the clock's reading `now`.
  unfoldable pub stats : ℤ → Limiter fl → Option (Limiter fl × LimiterSnapshot)
  unfolding refill
  stats now l = elim (refill fl 4 now l) [
    | none ↦ none
    | some l' ↦ some (
      l',
      record {
        available_tokens = l'.available_tok;
        max_capacity = l'.max_capacity;
        active_requests = l'.active_reqs;
        max_concurrency = l'.max_concurrency;
        token_wait_hits = l'.token_wait_hits;
        slot_wait_hits = l'.slot_wait_hits;
      },
    )
  ]
