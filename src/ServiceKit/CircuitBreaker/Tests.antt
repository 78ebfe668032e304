-- ===== src/ServiceKit/CircuitBreaker/Tests.antt =====
-- packages/service-kit/src/circuit-breaker.ts: histories that exercise the theorems.
use vellar_dapp.ServiceKit.CircuitBreaker.{
  closed, opened, CircuitBreakerOptions, success, failure, Breaker, create_circuit_breaker,
  before_call, record_outcome, Event, call, finished, step, run, allowed, Attempt,
}
use vellar_dapp.ServiceKit.CircuitBreaker.Invariant.{IsSound, run-IsSound}
use vellar_dapp.ServiceKit.CircuitBreaker.Cooldown.{gates, trial_not_exclusive}
use vellar_dapp.Prelude.{ℕ, ◌≡◌, refl, inl, List, [], ◌∷◌, arith}

abbrev options : CircuitBreakerOptions
options = record { failure_threshold = 2; cooldown_ms = 100 }

abbrev outage : List Event
outage =
    call 1
    ∷ call 2
    ∷ finished 3 failure
    ∷ finished 4 failure
    ∷ call 50
    ∷ call 104
    ∷ finished 110 failure
    ∷ call 210
    ∷ finished 220 success
    ∷ []

outage_recovers : (run options create_circuit_breaker outage).state ≡ closed
unfolding run step before_call record_outcome create_circuit_breaker
outage_recovers = refl

run-IsSound_example : IsSound options (run options create_circuit_breaker outage)
run-IsSound_example = run-IsSound options outage (omega arith)

abbrev tripped : Breaker
tripped = record {
  state = opened;
  consecutive_failures = 2;
  opened_at = 4;
  changes = (closed, opened) ∷ [];
}

abbrev attempt : Attempt ℕ ℕ
attempt = inl 7

trial_not_exclusive_example :
    gates options tripped (104 ∷ 105 ∷ 106 ∷ []) ≡ allowed ∷ allowed ∷ allowed ∷ []
trial_not_exclusive_example =
    trial_not_exclusive options tripped 104 (105 ∷ 106 ∷ []) refl (omega arith)
