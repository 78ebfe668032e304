-- ===== src/ServiceKit/Retry/Tests.antt =====
-- packages/service-kit/src/retry.ts: runs that exercise the theorems.
use vellar_dapp.ServiceKit.Retry.{Fraction, IsDraw, RetryOptions, config_of, retry_with_jitter}
use vellar_dapp.ServiceKit.Retry.Outcomes.{Fails}
use vellar_dapp.Prelude.{leb, ℕ, zero, suc, ◌<◌, ◌≡◌, refl, ◌⊎◌, inl, inr, true, none, some, arith}

abbrev half : Fraction
half = record { num = 1; den = 2 }

abbrev draws : ℕ → Fraction
draws i = half

draws-IsDraw : (i : ℕ) → IsDraw (draws i)
draws-IsDraw i = omega arith

-- Fails twice, then returns.
abbrev flaky : ℕ → ℕ ⊎ ℕ
flaky zero = inr 503
flaky (suc zero) = inr 502
flaky _ = inl 200

abbrev errors : ℕ → ℕ
errors zero = 503
errors _ = 502

abbrev options : RetryOptions ℕ
options = record {
  max_attempts = none;
  base_delay_ms = none;
  max_delay_ms = some 300;
  no_jitter = none;
  is_retryable = some (λ e. leb 500 e);
  signal = none;
}

flaky-Fails : Fails (config_of flaky draws options) errors 2
unfolding config_of
flaky-Fails = record { failing = failing; retryable = retryable; steady = λ i at. refl }
  where
    failing : (i : ℕ) → i < 2 → flaky i ≡ inr (errors i)
    failing zero lt = refl
    failing (suc zero) lt = refl
    failing (suc (suc i)) lt = absurd (omega arith)

    retryable : (i : ℕ) → i < 2 → leb 500 (errors i) ≡ true
    retryable zero lt = refl
    retryable (suc i) lt = refl

abbrev two_attempts : RetryOptions ℕ
two_attempts = record options { max_attempts = some 2 }

two_attempts-Fails : Fails (config_of flaky draws two_attempts) errors 2
unfolding config_of
two_attempts-Fails = record {
  failing = flaky-Fails.failing;
  retryable = flaky-Fails.retryable;
  steady = flaky-Fails.steady;
}

backoff_runs : retry_with_jitter 3 none none half ≡ 4000
unfolding retry_with_jitter
backoff_runs = refl
