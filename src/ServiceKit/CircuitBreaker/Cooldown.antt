-- ===== src/ServiceKit/CircuitBreaker/Cooldown.antt =====
-- packages/service-kit/src/circuit-breaker.ts: when the breaker opens, how long it refuses calls,
-- and what it lets through afterwards.
use vellar_dapp.ServiceKit.CircuitBreaker.{
  closed, opened, half_open, CircuitBreakerOptions, success, failure, Breaker, transition,
  before_call, record_outcome, Gate, allowed, circuit_open, Event, finished, step, run, execute,
  Attempt, rejected,
}
use vellar_dapp.Prelude.{
  ltb, leb, if◌then◌else◌, Bool-cases, length, ℕ, ◌+◌, ◌-◌, ◌≤◌, ◌<◌, ◌≡◌, refl, inl, inr, List, [],
  ◌∷◌, ◌++◌, map, arith,
}

module _ {ℓ} {T E : Type ℓ} where
  -- If a call at `now` is refused with the delay `r`, then `r` is positive, and d milliseconds later
  -- a call is refused with the delay r - d while d < r, and lets one through into "half_open" from
  -- then on. A refused `execute` gives the breaker back unchanged, whatever `fn` would have done.
  pub refusal_exact :
      (o : CircuitBreakerOptions) (now r d after : ℕ) (fn : Attempt T E) (b b' : Breaker)
      → before_call o now b ≡ (b', circuit_open r)
      → (0 < r)
        × (before_call o (now + d) b
            ≡ (if ltb d r then (b, circuit_open (r - d)) else (transition half_open b, allowed)))
        × (execute o now after fn b ≡ (b, rejected r))
  unfolding before_call execute
  refusal_exact o now r d after fn b b' h = ground arith

abbrev pub failures : List ℕ → List Event
failures ts = map (λ t. finished t failure) ts

run-append :
    (o : CircuitBreakerOptions) (b : Breaker) (xs ys : List Event)
    → run o b (xs ++ ys) ≡ run o (run o b xs) ys
unfolding run
run-append o b [] ys = refl
run-append o b (x ∷ xs) ys = run-append o (step o b x) xs ys

failure_of_opened :
    (o : CircuitBreakerOptions) (t : ℕ) (b : Breaker)
    → b.state ≡ opened
    → (record_outcome o t failure b).state ≡ opened
unfolding record_outcome transition
failure_of_opened o t b h = ground arith

failure_of_closed :
    (o : CircuitBreakerOptions) (t : ℕ) (b : Breaker)
    → b.state ≡ closed
    → ((record_outcome o t failure b).state
        ≡ (if leb o.failure_threshold (b.consecutive_failures + 1) then opened else closed))
      × ((record_outcome o t failure b).consecutive_failures ≡ b.consecutive_failures + 1)
unfolding record_outcome transition
failure_of_closed o t b h = ground arith

failures_of_opened :
    (o : CircuitBreakerOptions) (ts : List ℕ) (b : Breaker)
    → b.state ≡ opened
    → (run o b (failures ts)).state ≡ opened
unfolding run step
failures_of_opened o [] b h = h
failures_of_opened o (t ∷ ts) b h =
    failures_of_opened o ts (record_outcome o t failure b) (failure_of_opened o t b h)

failures_of_closed :
    (o : CircuitBreakerOptions) (ts : List ℕ) (b : Breaker)
    → b.state ≡ closed
    → b.consecutive_failures < o.failure_threshold
    → (run o b (failures ts)).state
      ≡ (if leb o.failure_threshold (b.consecutive_failures + length ts) then opened else closed)
unfolding run step
failures_of_closed o [] b h lt = ground arith
failures_of_closed o (t ∷ ts) b h lt =
    let (state, count) = failure_of_closed o t b h in
    let b' = record_outcome o t failure b in
    elim (Bool-cases (leb o.failure_threshold (b.consecutive_failures + 1))) [
      | inl trips ↦ ground (arith, state, failures_of_opened o ts b')
      | inr counts ↦ ground (arith, state, count, failures_of_closed o ts b')
    ]

success_resets :
    (o : CircuitBreakerOptions) (t : ℕ) (b : Breaker)
    → ((record_outcome o t success b).state ≡ closed)
      × ((record_outcome o t success b).consecutive_failures ≡ 0)
unfolding record_outcome transition
success_resets o t b = ground arith

-- With a positive threshold, whatever came before, a success followed by failures alone leaves the
-- breaker open exactly if the failures reach the threshold, and closed otherwise.
pub failures_since_success :
    (o : CircuitBreakerOptions) (b : Breaker) (earlier : List Event) (t : ℕ) (ts : List ℕ)
    → 0 < o.failure_threshold
    → (run o b (earlier ++ finished t success ∷ failures ts)).state
      ≡ (if leb o.failure_threshold (length ts) then opened else closed)
unfolding run step
failures_since_success o b earlier t ts p = rw (run-append o b earlier) (
    let b' = record_outcome o t success (run o b earlier) in
    let (state, count) = success_resets o t (run o b earlier) in
    ground (arith, state, count, failures_of_closed o ts b' state))

-- The gates of calls made one after the other, with no outcome in between.
unfoldable pub gates : CircuitBreakerOptions → Breaker → List ℕ → List Gate
gates o b [] = []
gates o b (t ∷ ts) = let (b', gate) = before_call o t b in gate ∷ gates o b' ts

gates_of_half_open :
    (o : CircuitBreakerOptions) (b : Breaker) (ts : List ℕ)
    → b.state ≡ half_open
    → gates o b ts ≡ map (λ _. allowed) ts
unfolding gates before_call
gates_of_half_open o b [] h = refl
gates_of_half_open o b (t ∷ ts) h = ground (arith, gates_of_half_open o b ts h)

-- Once the cooldown of an open breaker has passed, every call is let through until an outcome is
-- recorded, however many they are: the trial call is not alone.
pub trial_not_exclusive :
    (o : CircuitBreakerOptions) (b : Breaker) (t : ℕ) (ts : List ℕ)
    → b.state ≡ opened
    → b.opened_at + o.cooldown_ms ≤ t
    → gates o b (t ∷ ts) ≡ map (λ _. allowed) (t ∷ ts)
unfolding gates before_call transition
trial_not_exclusive o b t ts h le = ground (arith, gates_of_half_open o (transition half_open b) ts)
