-- ===== src/ServiceKit/CircuitBreaker.antt =====
-- packages/service-kit/src/circuit-breaker.ts: the breaker's three variables are the fields of
-- `Breaker`, with the calls of `onStateChange` kept as a list, the latest first. The clock is an
-- argument. A call that `execute` wraps may overlap with others, so a history is any list of
-- `beforeCall` and `recordOutcome` events (`run`).
pub mod Invariant
pub mod Cooldown
mod Tests
use vellar_dapp.Prelude.{
  ltb, leb, if◌then◌else◌, ℕ, ◌+◌, ◌-◌, ◌⊎◌, inl, inr, Bool, true, false, List, [], ◌∷◌,
}

-- "open" is spelled `opened`, since `open` is a reserved word.
pub data CircuitState : Type 0 where
  closed opened half_open : CircuitState

pub record CircuitBreakerOptions : Type 0 where
  pub failure_threshold : ℕ
  pub cooldown_ms : ℕ

pub data Outcome : Type 0 where
  success failure : Outcome

pub record Breaker : Type 0 where
  pub state : CircuitState
  pub consecutive_failures : ℕ
  pub opened_at : ℕ
  pub changes : List (CircuitState × CircuitState)

abbrev pub same_state : CircuitState → CircuitState → Bool
same_state closed closed = true
same_state opened opened = true
same_state half_open half_open = true
same_state _ _ = false

unfoldable pub create_circuit_breaker : Breaker
create_circuit_breaker = record {
  state = closed;
  consecutive_failures = 0;
  opened_at = 0;
  changes = [];
}

unfoldable pub transition : CircuitState → Breaker → Breaker
transition to b =
    if same_state to b.state
    then b
    else record b { state = to; changes = (b.state, to) ∷ b.changes }

-- What `beforeCall` does: return, or throw `CircuitOpenError(retryAfterMs)`.
pub data Gate : Type 0 where
  allowed : Gate
  circuit_open : ℕ → Gate

-- `elapsed < cooldownMs` is `now < openedAt + cooldownMs`, and what is thrown is
-- `cooldownMs - elapsed`: so written, both hold also for a clock that went back.
before_call_at : CircuitState → CircuitBreakerOptions → ℕ → Breaker → Breaker × Gate
unfolding transition
before_call_at opened o now b =
    if ltb now (b.opened_at + o.cooldown_ms)
    then (b, circuit_open (b.opened_at + o.cooldown_ms - now))
    else (transition half_open b, allowed)
before_call_at _ o now b = (b, allowed)

unfoldable pub before_call : CircuitBreakerOptions → ℕ → Breaker → Breaker × Gate
unfolding before_call_at
before_call o now b = before_call_at b.state o now b

record_failure_at : CircuitState → CircuitBreakerOptions → ℕ → Breaker → Breaker
unfolding transition
record_failure_at half_open o now b = transition opened (record b { opened_at = now })
record_failure_at _ o now b =
    let counted = record b { consecutive_failures = b.consecutive_failures + 1 } in
    if leb o.failure_threshold counted.consecutive_failures
    then transition opened (record counted { opened_at = now })
    else counted

unfoldable pub record_outcome : CircuitBreakerOptions → ℕ → Outcome → Breaker → Breaker
unfolding transition record_failure_at
record_outcome o now success b = transition closed (record b { consecutive_failures = 0 })
record_outcome o now failure b = record_failure_at b.state o now b

-- How `execute` ends: the value of `fn`, its error thrown on, or the breaker's own error.
pub data Executed {ℓ} (T E : Type ℓ) : Type ℓ where
  returned : T → Executed T E
  threw : E → Executed T E
  rejected : ℕ → Executed T E

abbrev pub Attempt {ℓ} : Type ℓ → Type ℓ → Type ℓ
Attempt T E = T ⊎ E

module _ {ℓ} {T E : Type ℓ} where
  -- `fn()` is given by its outcome; `before` and `after` are the clock at the two reads.
  after_gate : CircuitBreakerOptions → ℕ → Attempt T E → Breaker → Gate → Breaker × Executed T E
  after_gate o after fn b (circuit_open retry_after_ms) = (b, rejected retry_after_ms)
  after_gate o after (inl result) b allowed = (record_outcome o after success b, returned result)
  after_gate o after (inr err) b allowed = (record_outcome o after failure b, threw err)

  unfoldable pub execute :
      CircuitBreakerOptions → ℕ → ℕ → Attempt T E → Breaker → Breaker × Executed T E
  unfolding after_gate
  execute o before after fn b =
      let (b', gate) = before_call o before b in after_gate o after fn b' gate

pub data Event : Type 0 where
  call : ℕ → Event
  finished : ℕ → Outcome → Event

unfoldable pub step : CircuitBreakerOptions → Breaker → Event → Breaker
step o b (call now) = (before_call o now b).0
step o b (finished now outcome) = record_outcome o now outcome b

unfoldable pub run : CircuitBreakerOptions → Breaker → List Event → Breaker
run o b [] = b
run o b (e ∷ es) = run o (step o b e) es
