-- ===== src/Middleware/Retry/Attempts.antt =====
-- llms/middleware/retry.go: how many calls the retry loop makes, and what it returns.
use maestro_llms.Base.{
  ℕ, zero, suc, ◌+◌, ◌≤◌, ◌≡◌, refl, ap, ◌∙◌, true, false, not, ◌||◌, Option, none, some, List, [],
  ◌∷◌, ◌++◌, arith, inl, inr, ◌⊎◌, Bool-cases,
}
use maestro_llms.Base.Int.{ℤ, pos, pos_part, ◌≤ℤ◌, eqb_ℤ, add64_one, max_int}
use maestro_llms.Base.Float.{Float}
use maestro_llms.Llms.Errors.{GoError, is_nil, retryable}
use maestro_llms.Middleware.Retry.{RetryConfig, jittered, retry_from, retry, next_delay, wait_of}

-- 1, 2, …, n.
abbrev pub numbers : ℕ → List ℤ
numbers zero = []
numbers (suc n) = numbers n ++ pos (suc n) ∷ []

-- An attempt that was made: its number and what the call returned.
abbrev pub Made : Type 0 → Type 0
Made Resp = ℤ × Resp × GoError

abbrev pub made_numbers : {Resp : Type 0} → List (Made Resp) → List ℤ
made_numbers [] = []
made_numbers ((attempt, resp, err) ∷ log) = attempt ∷ made_numbers log

-- Each of these attempts ended with a retryable error.
abbrev pub AllRetryable : {Resp : Type 0} → List (Made Resp) → Type 0
AllRetryable [] = Unit
AllRetryable ((attempt, resp, err) ∷ log) =
    (is_nil err ≡ false) × (retryable err ≡ true) × AllRetryable log

made_numbers-append :
    {Resp : Type 0} (log : List (Made Resp)) (attempt : ℤ) (resp : Resp) (err : GoError)
    → made_numbers (log ++ (attempt, resp, err) ∷ []) ≡ made_numbers log ++ attempt ∷ []
made_numbers-append [] attempt resp err = refl
made_numbers-append ((a, r, e) ∷ log) attempt resp err =
    ap (λ ns. a ∷ ns) (made_numbers-append log attempt resp err)

append-AllRetryable :
    {Resp : Type 0} (log : List (Made Resp)) (attempt : ℤ) (resp : Resp) (err : GoError)
    → AllRetryable log
    → is_nil err ≡ false
    → retryable err ≡ true
    → AllRetryable (log ++ (attempt, resp, err) ∷ [])
append-AllRetryable [] attempt resp err all n r = (n, r, tt)
append-AllRetryable ((a, x, e) ∷ log) attempt resp err all n r =
    (all.0, all.1, append-AllRetryable log attempt resp err all.2 n r)

-- The call, the random source and the timer, with the attempts that are made kept in a list.
module _ {W Resp : Type 0} where
  abbrev pub log_call :
      (ℤ → W → Resp × GoError × W)
      → ℤ
      → W × List (Made Resp)
      → Resp × GoError × (W × List (Made Resp))
  log_call call attempt (w, log) =
      let (resp, err, w') = call attempt w in (resp, err, (w', log ++ (attempt, resp, err) ∷ []))

  abbrev pub log_sleep :
      (ℤ → W → GoError × W) → ℤ → W × List (Made Resp) → GoError × (W × List (Made Resp))
  log_sleep sleep d (w, log) = let (ended, w') = sleep d w in (ended, (w', log))

  abbrev pub log_random :
      {F : Type 0} → (W → F × W) → W × List (Made Resp) → F × (W × List (Made Resp))
  log_random random (w, log) = let (r, w') = random w in (r, (w', log))

jittered-log_random :
    (fl : Float) {W Resp : Type 0} (random : W → Float.F fl × W) (d : ℤ) (frac : Float.F fl) (w : W)
    (log : List (Made Resp))
    → let j = jittered fl random d frac w in
      jittered fl (log_random random) d frac (w, log) ≡ (j.0, (j.1, log))
unfolding jittered
jittered-log_random fl random d frac w log = ground arith

module _ (fl : Float) {W Resp : Type 0} (random : W → Float.F fl × W) (cfg : RetryConfig fl)
    (zero_resp : Resp) (call : ℤ → W → Resp × GoError × W) (sleep : ℤ → W → GoError × W) where
  -- What the loop returns when the last attempt, number n, returned `resp` and `err`: just that, where
  -- it is no error, or one that is not retryable, or there is no attempt left; or, with attempts left,
  -- the zero response and the error of a backoff that the context cut short.
  pub data Last (n : ℕ) (resp : Resp) (err : GoError) : Resp → GoError → Type 0 where
    final :
        {r : Resp} {e : GoError}
        → r ≡ resp
        → e ≡ err
        → (is_nil err ≡ true) ⊎ (retryable err ≡ false) ⊎ (pos n ≡ cfg.max_attempts)
        → Last n resp err r e
    cut_short :
        (d : ℤ) (v : W) {r : Resp} {e : GoError}
        → is_nil err ≡ false
        → retryable err ≡ true
        → pos (suc n) ≤ℤ cfg.max_attempts
        → r ≡ zero_resp
        → (sleep d v).0 ≡ e
        → is_nil e ≡ false
        → Last n resp err r e

  -- The loop has made the attempts 1 to `n`, all but the last of which ended with a retryable error,
  -- and returns what the last one returned, or the end of the backoff after it.
  abbrev pub Ended : Option (Resp × GoError × (W × List (Made Resp))) → Type 0
  Ended none = ⊥
  Ended (some (r, e, (w, log))) =
      (n : ℕ) × (earlier : List (Made Resp)) × (resp : Resp) × (err : GoError) × (log
        ≡ earlier ++ (pos n, resp, err) ∷ [])
      × (made_numbers log ≡ numbers n)
      × AllRetryable earlier
      × (1 ≤ n)
      × (pos n ≤ℤ cfg.max_attempts)
      × Last n resp err r e

  retry_from-Ended :
      (fuel k : ℕ) (delay : ℤ) (w : W) (log : List (Made Resp))
      → made_numbers log ≡ numbers k
      → AllRetryable log
      → pos (suc k) ≤ℤ cfg.max_attempts
      → cfg.max_attempts ≤ℤ max_int
      → pos_part cfg.max_attempts ≤ fuel + k
      → Ended (
          retry_from fl
            (log_random random)
            cfg
            zero_resp
            (log_call call)
            (log_sleep sleep)
            fuel
            (pos (suc k))
            delay
            (w, log))
  unfolding retry_from
  retry_from-Ended zero k delay w log ns all h m f = absurd (omega arith)
  retry_from-Ended (suc fuel) k delay w log ns all h m f =
      let (resp, err, w1) = call (pos (suc k)) w in
      let log' = log ++ (pos (suc k), resp, err) ∷ [] in
      let j = jittered fl random (wait_of fl cfg delay err) cfg.jitter w1 in
      let (ended, w3) = sleep j.0 j.1 in
      let logged = jittered-log_random fl random (wait_of fl cfg delay err) cfg.jitter w1 log' in
      let counted : made_numbers log' ≡ numbers (suc k) =
        made_numbers-append log (pos (suc k)) resp err ∙ ap (λ l. l ++ pos (suc k) ∷ []) ns in
      elim (Bool-cases (is_nil err || not (retryable err))) [
        | inl done ↦ rw done (
          suc k,
          log,
          resp,
          err,
          refl,
          counted,
          all,
          omega arith,
          h,
          Last.final refl refl (ground arith),
        )
        | inr again ↦
            let failed : is_nil err ≡ false = ground arith in
            let retried : retryable err ≡ true = ground arith in
            elim (Bool-cases (eqb_ℤ (pos (suc k)) cfg.max_attempts)) [
              | inl last ↦
                  rw (again, last)
                    (
                      suc k,
                      log,
                      resp,
                      err,
                      refl,
                      counted,
                      all,
                      omega arith,
                      h,
                      Last.final refl refl (inr (inr (ground arith))),
                    )
              | inr more ↦
                  let below : pos (suc (suc k)) ≤ℤ cfg.max_attempts = ground arith in
                  elim (Bool-cases (is_nil ended)) [
                    | inl waited ↦
                        rw (again, more, logged, waited, add64_one (suc k) (omega arith))
                          (retry_from-Ended fuel (suc k) (next_delay fl cfg delay) w3 log' counted
                            (append-AllRetryable log (pos (suc k)) resp err all failed retried)
                            below m (omega arith))
                    | inr stopped ↦
                        rw (again, more, logged, stopped)
                          (
                            suc k,
                            log,
                            resp,
                            err,
                            refl,
                            counted,
                            all,
                            omega arith,
                            h,
                            Last.cut_short j.0 j.1 failed retried below refl refl stopped,
                          )
                  ]
            ]
      ]

  -- With a config of at least one attempt and as much fuel as attempts, the retry loop returns. It has
  -- made the attempts 1 to some `n`, each once and in order, with `n` at most MaxAttempts, and all but
  -- the last ended with a retryable error. It returns just what the last one returned, which is a
  -- success, an error that is not retryable, or that of attempt MaxAttempts; or, after a retryable
  -- error with attempts left, the zero response with the error of a backoff that the context cut short.
  pub retry-Ended :
      (fuel : ℕ) (w : W)
      → pos 1 ≤ℤ cfg.max_attempts
      → cfg.max_attempts ≤ℤ max_int
      → pos_part cfg.max_attempts ≤ fuel
      → Ended (
          retry fl (log_random random) cfg zero_resp (log_call call) (log_sleep sleep) fuel (w, []))
  unfolding retry
  retry-Ended fuel w h m f =
      retry_from-Ended fuel 0 cfg.initial_delay w [] refl tt h m (omega arith)
