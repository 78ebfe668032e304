-- ===== src/ServiceKit/Retry/Outcomes.antt =====
-- packages/service-kit/src/retry.ts: what a run of attempts returns, and after which waits.
use vellar_dapp.ServiceKit.Retry.{
  Fraction, Checkpoint, before_attempt, before_sleep, after_sleep, Config, delay_of, ended,
  after_sleeping, after_fn, returned, max_retries_exceeded, RetryOptions, retry_loop, config_of,
  retry_with_backoff,
}
use vellar_dapp.Prelude.{
  get_or, ℕ, zero, suc, ◌+◌, ◌-◌, ◌<◌, ◌≡◌, refl, sym, ap, subst, ◌⊎◌, inl, inr, true, false,
  Option, none, some, List, [], ◌∷◌, arith,
}

module _ {ℓ} {T E : Type ℓ} where
  -- The waits after the attempts from `attempt` on, n of them.
  pub delays : Config T E → ℕ → ℕ → List ℕ
  delays c attempt zero = []
  delays c attempt (suc n) = delay_of c attempt ∷ delays c (attempt + 1) n

  -- `n` attempts fail with errors that may be retried, and the signal does not fire.
  pub record Fails (c : Config T E) (fails : ℕ → E) (n : ℕ) : Type ℓ where
    pub failing : (i : ℕ) → i < n → c.fn i ≡ inr (fails i)
    pub retryable : (i : ℕ) → i < n → c.is_retryable (fails i) ≡ true
    pub steady : (i : ℕ) (at : Checkpoint) → c.aborted i at ≡ false

  module _ (c : Config T E) (fails : ℕ → E) (n : ℕ) (h : Fails c fails n) where
    failed_round :
        (rounds attempt : ℕ) (last : Option E)
        → attempt < n
        → suc attempt < c.max_attempts
        → retry_loop c (suc rounds) attempt last
          ≡ after_sleeping
              (delay_of c attempt)
              (retry_loop c rounds (attempt + 1) (some (fails attempt)))
    unfolding retry_loop
    failed_round rounds attempt last lt more =
        rw (h.steady attempt before_attempt, h.failing attempt lt, after_fn)
          (ground (
            arith,
            h.retryable attempt lt,
            h.steady attempt before_sleep,
            h.steady attempt after_sleep,
          ))

    last_round :
        (rounds attempt : ℕ) (last : Option E)
        → attempt < n
        → suc attempt ≡ c.max_attempts
        → retry_loop c (suc rounds) attempt last
          ≡ ended (max_retries_exceeded c.max_attempts (some (fails attempt)))
    unfolding retry_loop
    last_round rounds attempt last lt end =
        rw (h.steady attempt before_attempt, h.failing attempt lt, after_fn)
          (ground (arith, h.retryable attempt lt))

    good_round :
        (v : T) (rounds attempt : ℕ) (last : Option E)
        → c.fn n ≡ inl v
        → attempt ≡ n
        → retry_loop c (suc rounds) attempt last ≡ ended (returned v)
    unfolding retry_loop
    good_round v rounds attempt last ok at =
        rw (h.steady attempt before_attempt, subst (λ i. c.fn i ≡ inl v) (sym at) ok, after_fn) refl

    first_success_from :
        (v : T) (j rounds attempt : ℕ) (last : Option E)
        → c.fn n ≡ inl v
        → attempt + j ≡ n
        → rounds + attempt ≡ c.max_attempts
        → n < c.max_attempts
        → retry_loop c rounds attempt last
          ≡ record { calls = suc j; slept = delays c attempt j; ending = returned v }
    unfolding delays
    first_success_from v j zero attempt last ok at total room = absurd (omega arith)
    first_success_from v zero (suc rounds) attempt last ok at total room =
        good_round v rounds attempt last ok (omega arith)
    first_success_from v (suc j) (suc rounds) attempt last ok at total room =
        rw (failed_round rounds attempt last (omega arith) (omega arith)) (
          rw (
            first_success_from v j rounds (attempt + 1) (some (fails attempt)) ok (omega arith)
              (omega arith) room))

    exhausted_from :
        (j rounds attempt : ℕ) (last : Option E)
        → attempt + suc j ≡ n
        → rounds + attempt ≡ c.max_attempts
        → n ≡ c.max_attempts
        → retry_loop c rounds attempt last ≡ record {
          calls = suc j;
          slept = delays c attempt j;
          ending = max_retries_exceeded c.max_attempts (some (fails (n - 1)));
        }
    unfolding delays
    exhausted_from j zero attempt last at total room = absurd (omega arith)
    exhausted_from zero (suc rounds) attempt last at total room =
        rw (last_round rounds attempt last (omega arith) (omega arith)) (
          let same : attempt ≡ n - 1 = omega arith in
          ap (λ i. ended (max_retries_exceeded c.max_attempts (some (fails i)))) same)
    exhausted_from (suc j) (suc rounds) attempt last at total room =
        rw (failed_round rounds attempt last (omega arith) (omega arith)) (
          rw (
            exhausted_from j rounds (attempt + 1) (some (fails attempt)) (omega arith) (omega arith)
              room))

module _ {ℓ} {T E : Type ℓ} (fn : ℕ → T ⊎ E) (random : ℕ → Fraction)
    (options : RetryOptions E) where
  -- If the signal does not fire, the first n < maxAttempts attempts fail with errors that may be
  -- retried and the next returns v, then v is returned after n + 1 calls, and the sleeps are the
  -- delays of the n failed attempts, in order.
  pub first_success :
      (fails : ℕ → E) (n : ℕ) (v : T)
      → Fails (config_of fn random options) fails n
      → fn n ≡ inl v
      → n < get_or options.max_attempts 4
      → retry_with_backoff fn random options ≡ record {
        calls = suc n;
        slept = delays (config_of fn random options) 0 n;
        ending = returned v;
      }
  unfolding retry_with_backoff config_of
  first_success fails n v h ok room =
      let c = config_of fn random options in
      ground (arith, first_success_from c fails n h v n c.max_attempts 0 none ok)

  -- If the signal does not fire and all of the maxAttempts > 0 attempts fail with errors that may be
  -- retried, the call ends in MaxRetriesExceededError with that number and the last error, after a
  -- sleep between each two attempts and none at the end.
  pub exhausted :
      (fails : ℕ → E)
      → Fails (config_of fn random options) fails (get_or options.max_attempts 4)
      → 0 < get_or options.max_attempts 4
      → let most = get_or options.max_attempts 4 in
        retry_with_backoff fn random options ≡ record {
          calls = most;
          slept = delays (config_of fn random options) 0 (most - 1);
          ending = max_retries_exceeded most (some (fails (most - 1)));
        }
  unfolding retry_with_backoff config_of
  exhausted fails h room =
      let c = config_of fn random options in
      ground
        (arith, exhausted_from c fails c.max_attempts h (c.max_attempts - 1) c.max_attempts 0 none)
