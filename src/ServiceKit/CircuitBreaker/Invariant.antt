-- ===== src/ServiceKit/CircuitBreaker/Invariant.antt =====
-- packages/service-kit/src/circuit-breaker.ts: what holds of a breaker after any history, however
-- the calls overlap.
use vellar_dapp.ServiceKit.CircuitBreaker.{
  CircuitState, closed, CircuitBreakerOptions, Outcome, success, failure, Breaker,
  create_circuit_breaker, transition, before_call, record_outcome, Event, call, finished, step, run,
}
use vellar_dapp.Prelude.{ℕ, ◌≤◌, ◌<◌, ◌≡◌, refl, ◌≢◌, List, [], ◌∷◌, arith}

abbrev start_of : CircuitState → List (CircuitState × CircuitState) → CircuitState
start_of now [] = now
start_of now ((from, to) ∷ earlier) = start_of from earlier

-- Each change leaves the state that the one before it entered, for another state.
abbrev Chained : CircuitState → List (CircuitState × CircuitState) → Type 0
Chained now [] = now ≡ closed
Chained now ((from, to) ∷ earlier) = (to ≡ now) × (from ≢ to) × Chained from earlier

pub record IsSound (o : CircuitBreakerOptions) (b : Breaker) : Type 0 where
  pub counting : b.state ≡ closed → b.consecutive_failures < o.failure_threshold
  pub tripped : b.state ≢ closed → o.failure_threshold ≤ b.consecutive_failures
  pub reported : Chained b.state b.changes

create-IsSound :
    (o : CircuitBreakerOptions) → 0 < o.failure_threshold → IsSound o create_circuit_breaker
unfolding create_circuit_breaker
create-IsSound o h = record { counting = λ _. h; tripped = λ n. absurd (n refl); reported = refl }

before_call-IsSound :
    (o : CircuitBreakerOptions) (now : ℕ) (b : Breaker)
    → IsSound o b
    → IsSound o (before_call o now b).0
unfolding before_call transition
before_call-IsSound o now b h = ground arith

record_outcome-IsSound :
    (o : CircuitBreakerOptions) (now : ℕ) (r : Outcome) (b : Breaker)
    → 0 < o.failure_threshold
    → IsSound o b
    → IsSound o (record_outcome o now r b)
unfolding record_outcome transition
record_outcome-IsSound o now success b p h = ground arith
record_outcome-IsSound o now failure b p h = ground arith

run_from-IsSound :
    (o : CircuitBreakerOptions) (b : Breaker) (es : List Event)
    → 0 < o.failure_threshold
    → IsSound o b
    → IsSound o (run o b es)
unfolding run step
run_from-IsSound o b [] p h = h
run_from-IsSound o b (call now ∷ es) p h =
    run_from-IsSound o (before_call o now b).0 es p (before_call-IsSound o now b h)
run_from-IsSound o b (finished now r ∷ es) p h =
    run_from-IsSound o (record_outcome o now r b) es p (record_outcome-IsSound o now r b p h)

-- With a positive threshold, after any history of calls and outcomes, overlapping or not: a closed
-- breaker has counted fewer failures in a row than the threshold, one that is not closed has
-- counted at least as many, and the changes reported to `onStateChange` form a chain from "closed"
-- to the present state in which no change is from a state to itself.
pub run-IsSound :
    (o : CircuitBreakerOptions) (es : List Event)
    → 0 < o.failure_threshold
    → IsSound o (run o create_circuit_breaker es)
run-IsSound o es p = run_from-IsSound o create_circuit_breaker es p (create-IsSound o p)
