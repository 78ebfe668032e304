-- ===== src/ServiceKit/Retry.antt =====
-- packages/service-kit/src/retry.ts. `Math.random()` is a fraction drawn for each attempt, and a
-- delay is in whole milliseconds, as a timer takes it. `fn`, the abort signal and the draws are
-- functions of the attempt, so that a run is determined; what it did comes back in `Run`.
pub mod Outcomes
pub mod Delays
mod Tests
use vellar_dapp.Prelude.{
  ltb, ◌==◌, if◌then◌else◌, get_or, ℕ, zero, suc, ◌+◌, ◌-◌, ◌*◌, ◌/◌, ◌^◌, ◌<◌, min, ◌⊎◌, inl, inr,
  Bool, true, false, not, Option, none, some, List, [], ◌∷◌,
}

abbrev pub default_max_attempts : ℕ
default_max_attempts = 4

abbrev pub default_base_delay_ms : ℕ
default_base_delay_ms = 200

abbrev pub default_max_delay_ms : ℕ
default_max_delay_ms = 10000

-- A value of Math.random(): num / den, at least 0 and below 1.
pub record Fraction : Type 0 where
  pub num : ℕ
  pub den : ℕ

abbrev pub IsDraw : Fraction → Type 0
IsDraw r = r.num < r.den

-- Math.floor(r * cap)
abbrev pub scaled : Fraction → ℕ → ℕ
scaled r cap = r.num * cap / r.den

-- The three places where the loop looks at the signal.
pub data Checkpoint : Type 0 where
  before_attempt before_sleep after_sleep : Checkpoint

pub record RetryOptions {ℓ} (E : Type ℓ) : Type ℓ where
  pub max_attempts : Option ℕ
  pub base_delay_ms : Option ℕ
  pub max_delay_ms : Option ℕ
  pub no_jitter : Option Bool
  pub is_retryable : Option (E → Bool)
  pub signal : Option (ℕ → Checkpoint → Bool)

-- How the call ends: a value, the error of an attempt, `RetryAbortedError`,
-- `MaxRetriesExceededError` with the attempts and the last error, or `RangeError`.
pub data Ending {ℓ} (T E : Type ℓ) : Type ℓ where
  returned : T → Ending T E
  threw : E → Ending T E
  retry_aborted : Checkpoint → Ending T E
  max_retries_exceeded : ℕ → Option E → Ending T E
  range_error : Ending T E

pub record Run {ℓ} (T E : Type ℓ) : Type ℓ where
  pub calls : ℕ
  pub slept : List ℕ
  pub ending : Ending T E

-- The options with their defaults filled in, and the surroundings.
pub record Config {ℓ} (T E : Type ℓ) : Type ℓ where
  pub max_attempts : ℕ
  pub base_delay_ms : ℕ
  pub max_delay_ms : ℕ
  pub no_jitter : Bool
  pub is_retryable : E → Bool
  pub aborted : ℕ → Checkpoint → Bool
  pub random : ℕ → Fraction
  pub fn : ℕ → T ⊎ E

module _ {ℓ} {T E : Type ℓ} where
  unfoldable pub cap_of : Config T E → ℕ → ℕ
  cap_of c attempt = min c.max_delay_ms (c.base_delay_ms * 2 ^ attempt)

  unfoldable pub delay_of : Config T E → ℕ → ℕ
  unfolding cap_of
  delay_of c attempt =
      if c.no_jitter then cap_of c attempt else scaled (c.random attempt) (cap_of c attempt)

  abbrev pub ended : Ending T E → Run T E
  ended e = record { calls = 1; slept = []; ending = e }

  abbrev pub after_sleeping : ℕ → Run T E → Run T E
  after_sleeping ms rest = record {
    calls = suc rest.calls;
    slept = ms ∷ rest.slept;
    ending = rest.ending;
  }

  -- The attempt's outcome; `again` runs the rounds that are left.
  unfoldable pub after_fn : Config T E → ℕ → T ⊎ E → (E → Run T E) → Run T E
  after_fn c attempt (inl v) again = ended (returned v)
  after_fn c attempt (inr err) again =
      if not (c.is_retryable err)
      then ended (threw err)
      else if attempt == c.max_attempts - 1
      then ended (max_retries_exceeded c.max_attempts (some err))
      else if c.aborted attempt before_sleep
      then ended (retry_aborted before_sleep)
      else if c.aborted attempt after_sleep
      then record { calls = 1; slept = delay_of c attempt ∷ []; ending = retry_aborted after_sleep }
      else after_sleeping (delay_of c attempt) (again err)

  -- `for (let attempt = 0; attempt < maxAttempts; attempt++)`, by the rounds that are left.
  unfoldable pub retry_loop : Config T E → ℕ → ℕ → Option E → Run T E
  unfolding after_fn
  retry_loop c zero attempt last_err = record {
    calls = 0;
    slept = [];
    ending = max_retries_exceeded c.max_attempts last_err;
  }
  retry_loop c (suc rounds) attempt last_err =
      let again = λ (err : E). retry_loop c rounds (attempt + 1) (some err) in
      if c.aborted attempt before_attempt
      then record { calls = 0; slept = []; ending = retry_aborted before_attempt }
      else after_fn c attempt (c.fn attempt) again

  unfoldable pub config_of : (ℕ → T ⊎ E) → (ℕ → Fraction) → RetryOptions E → Config T E
  config_of fn random options = record {
    max_attempts = get_or options.max_attempts default_max_attempts;
    base_delay_ms = get_or options.base_delay_ms default_base_delay_ms;
    max_delay_ms = get_or options.max_delay_ms default_max_delay_ms;
    no_jitter = get_or options.no_jitter false;
    is_retryable = get_or options.is_retryable (λ _. true);
    aborted = get_or options.signal (λ _ _. false);
    random = random;
    fn = fn;
  }

  unfoldable pub retry_with_backoff : (ℕ → T ⊎ E) → (ℕ → Fraction) → RetryOptions E → Run T E
  unfolding config_of retry_loop
  retry_with_backoff fn random options =
      let c = config_of fn random options in
      if ltb c.max_attempts 1
      then record { calls = 0; slept = []; ending = range_error }
      else retry_loop c c.max_attempts 0 none

-- `attempt` is at least 0 here: `Math.max(0, attempt)` is the truncation of the callers' `- 1`.
unfoldable pub retry_with_jitter : ℕ → Option ℕ → Option ℕ → Fraction → ℕ
retry_with_jitter attempt base_delay_ms max_delay_ms random =
    scaled random (min (get_or max_delay_ms 30000) (get_or base_delay_ms 1000 * 2 ^ attempt))

-- services/worker-service/src/backoff.ts
unfoldable pub calculate_backoff_delay : ℕ → Option ℕ → Option ℕ → Fraction → ℕ
unfolding retry_with_jitter
calculate_backoff_delay attempt base_delay_ms max_delay_ms random =
    retry_with_jitter attempt (some (get_or base_delay_ms 1000)) (some (get_or max_delay_ms 30000))
      random

-- services/policy-service/src/policy-deploy-worker.ts
unfoldable pub compute_backoff : ℕ → Fraction → ℕ
unfolding retry_with_jitter
compute_backoff retry_count random =
    retry_with_jitter (retry_count - 1) (some 1000) (some (60 * 60 * 1000)) random
