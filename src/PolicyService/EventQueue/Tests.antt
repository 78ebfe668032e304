-- ===== src/PolicyService/EventQueue/Tests.antt =====
-- services/policy-service/src/event-queue.ts: queues that exercise the theorems.
use vellar_dapp.PolicyService.EventQueue.Settled.{quarantines, work, Drained, process_all-Drained}
use vellar_dapp.PolicyService.EventQueue.Poison.{Poisoned, poison_message}
use mathlib.Core.Option
use vellar_dapp.JsMap
use vellar_dapp.PolicyService.EventQueue.{
  PolicyEventMessage, Failure, Handled, PolicyEventQueue, NewEvent, ProcessResult, new_queue,
  enqueue, attempt, process_next, process_all,
}
use vellar_dapp.Prelude.{
  if◌then◌else◌, ℕ, ◌-◌, String, ◌≡◌, refl, Option, none, some, List, [], ◌∷◌, arith, str_eq,
}

abbrev event : String → Option ℕ → NewEvent ℕ
event id most = record {
  event_type = "policy.created";
  payload = some 1;
  id = some id;
  max_attempts = most;
  correlation_id = none;
}

abbrev start : PolicyEventQueue ℕ
start = new_queue none none []

abbrev two : PolicyEventQueue ℕ
two = (enqueue (event "b" (some 2)) "" 2 (enqueue (event "a" none) "" 1 start).0).0

abbrev failure : Failure
failure = record { message = "no such policy"; stack = none }

-- "b" always fails.
abbrev handler : PolicyEventMessage ℕ → Handled ℕ
handler msg = record { failure = if str_eq msg.id "b" then some failure else none; events = [] }

abbrev clock : ℕ → ℕ
clock n = 100 - n

-- A handler that enqueues an event for each message that it handles never drains the queue.
abbrev echo : PolicyEventMessage ℕ → Handled ℕ
echo msg = record { failure = none; events = (event msg.id none, "") ∷ [] }

echoes : process_all 9 echo clock two ≡ none
unfolding process_all process_next enqueue new_queue JsMap.set JsMap.get
echoes = refl

process_all-Drained_example :
    (q' : PolicyEventQueue ℕ) × (results : List ProcessResult) × (process_all 5 handler clock two
      ≡ some (q', results))
    × Drained two q' results
unfolding work enqueue new_queue
process_all-Drained_example = process_all-Drained 5 handler clock two (λ msg. refl) (omega arith)

two_outcomes : Option.map (λ r. quarantines r.1) (process_all 5 handler clock two) ≡ some 1
unfolding process_all process_next enqueue new_queue quarantines JsMap.set JsMap.get
two_outcomes = refl

abbrev lone : PolicyEventQueue ℕ
lone = (enqueue (event "b" none) "" 2 start).0

abbrev lone_message : PolicyEventMessage ℕ
lone_message = (enqueue (event "b" none) "" 2 start).1

abbrev failing : PolicyEventMessage ℕ → Handled ℕ
failing msg = record { failure = some failure; events = [] }

poison_message_example :
    (q' : PolicyEventQueue ℕ) × (results : List ProcessResult) × (process_all 3 failing clock lone
      ≡ some (q', results))
    × Poisoned lone lone_message failure q' results
unfolding enqueue new_queue attempt
poison_message_example =
    poison_message 3 failing clock lone lone_message failure refl (λ n. refl) (omega arith)
