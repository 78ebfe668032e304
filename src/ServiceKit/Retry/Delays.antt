-- ===== src/ServiceKit/Retry/Delays.antt =====
-- packages/service-kit/src/retry.ts: the waits are bounded.
use native.Mathlib.Nat.{
  mul-le-mul_right, mul-lt-mul_of_pos_right, div-le_of_le-mul, div-lt_iff_lt-mul, mul_comm,
}
use vellar_dapp.ServiceKit.Retry.{
  Fraction, IsDraw, scaled, before_attempt, Config, cap_of, delay_of, after_fn, Run, RetryOptions,
  retry_loop, config_of, retry_with_backoff, retry_with_jitter, calculate_backoff_delay,
  compute_backoff,
}
use vellar_dapp.Prelude.{
  ltb, Bool-cases, get_or, length, All, ℕ, zero, suc, ◌+◌, ◌-◌, ◌*◌, ◌^◌, ◌≤◌, ◌<◌, min, ◌⊎◌, inl,
  inr, Option, none, some, arith,
}

scaled-le : (r : Fraction) (cap : ℕ) → IsDraw r → scaled r cap ≤ cap
scaled-le r cap h = div-le_of_le-mul r.den (mul-le-mul_right cap (omega arith))

scaled-lt : (r : Fraction) (cap : ℕ) → IsDraw r → 0 < cap → scaled r cap < cap
scaled-lt r cap h p =
    (div-lt_iff_lt-mul (omega arith)).1 (rw (mul_comm cap r.den) (mul-lt-mul_of_pos_right h p))

scaled-le-pred : (r : Fraction) (cap : ℕ) → IsDraw r → scaled r cap ≤ cap - 1
scaled-le-pred r zero h = scaled-le r 0 h
scaled-le-pred r (suc k) h =
    let below : scaled r (suc k) < suc k = scaled-lt r (suc k) h (omega arith) in
    omega (arith, below)

-- A jittered delay lies below its cap min(maxDelayMs, baseDelayMs * 2 ^ attempt) when that is
-- positive, and is 0 when the cap is; so `computeBackoff` stays below an hour, and
-- `calculateBackoffDelay`, which fills in the same defaults itself, has the same bound.
pub retry_with_jitter_bounds :
    (attempt : ℕ) (base most : Option ℕ) (random : Fraction)
    → IsDraw random
    → let cap = min (get_or most 30000) (get_or base 1000 * 2 ^ attempt) in
      (retry_with_jitter attempt base most random ≤ cap - 1)
      × (calculate_backoff_delay attempt base most random ≤ cap - 1)
      × (compute_backoff attempt random < 3600000)
unfolding retry_with_jitter calculate_backoff_delay compute_backoff
retry_with_jitter_bounds attempt base most random h =
    let cap = min (get_or most 30000) (get_or base 1000 * 2 ^ attempt) in
    let hour = min 3600000 (1000 * 2 ^ (attempt - 1)) in
    (
      scaled-le-pred random cap h,
      scaled-le-pred random cap h,
      omega (arith, scaled-le-pred random hour h),
    )

module _ {ℓ} {T E : Type ℓ} where
  -- A run of `most` attempts at most that slept no longer than `longest` each time.
  pub record IsWithin (most longest : ℕ) (r : Run T E) : Type ℓ where
    pub calls_fit : r.calls ≤ most
    pub fewer_sleeps : length r.slept ≤ r.calls
    pub sleeps_fit : All (λ ms. ms ≤ longest) r.slept

  module _ (c : Config T E) (draws : (attempt : ℕ) → IsDraw (c.random attempt)) where
    delay_of-le : (attempt : ℕ) → delay_of c attempt ≤ c.max_delay_ms
    unfolding delay_of cap_of
    delay_of-le attempt = ground (
      arith,
      scaled-le (c.random attempt) (min c.max_delay_ms (c.base_delay_ms * 2 ^ attempt))
          (draws attempt),
    )

    after_fn-IsWithin :
        (rounds attempt : ℕ) (o : T ⊎ E) (again : E → Run T E)
        → ((err : E) → IsWithin rounds c.max_delay_ms (again err))
        → IsWithin (suc rounds) c.max_delay_ms (after_fn c attempt o again)
    unfolding after_fn
    after_fn-IsWithin rounds attempt (inl v) again h = ground arith
    after_fn-IsWithin rounds attempt (inr err) again h = ground (arith, h err, delay_of-le attempt)

    retry_loop-IsWithin :
        (rounds attempt : ℕ) (last : Option E)
        → IsWithin rounds c.max_delay_ms (retry_loop c rounds attempt last)
    unfolding retry_loop
    retry_loop-IsWithin zero attempt last = ground arith
    retry_loop-IsWithin (suc rounds) attempt last =
        elim (Bool-cases (c.aborted attempt before_attempt)) [
          | inl stop ↦ rw stop (ground arith)
          | inr go ↦ rw go (
              after_fn-IsWithin rounds attempt (c.fn attempt)
                (λ err. retry_loop c rounds (attempt + 1) (some err))
                (λ err. retry_loop-IsWithin rounds (attempt + 1) (some err)))
        ]

  -- Whatever `fn`, the predicate and the signal do, with draws below 1: `fn` is called at most
  -- maxAttempts times, there are no more sleeps than calls, and none is longer than maxDelayMs.
  pub retry_with_backoff-IsWithin :
      (fn : ℕ → T ⊎ E) (random : ℕ → Fraction) (options : RetryOptions E)
      → ((attempt : ℕ) → IsDraw (random attempt))
      → IsWithin
          (get_or options.max_attempts 4)
          (get_or options.max_delay_ms 10000)
          (retry_with_backoff fn random options)
  unfolding retry_with_backoff config_of
  retry_with_backoff-IsWithin fn random options draws =
      let c = config_of fn random options in
      elim (Bool-cases (ltb c.max_attempts 1)) [
        | inl bad ↦ rw bad (ground arith)
        | inr good ↦ rw good (retry_loop-IsWithin c draws c.max_attempts 0 none)
      ]
