-- ===== src/PolicyService/EventQueue.antt =====
-- services/policy-service/src/event-queue.ts: `PolicyEventQueue`. The handler, the clock and the
-- drawn ids are arguments; a handler that throws gives its message and stack, and the events that
-- it enqueues while it is awaited, with the message off the queue. Logging is left out; the calls of
-- `onQuarantine`, the counter of poison messages and the depth gauge are fields.
pub mod Settled
pub mod Poison
mod Tests
use mathlib.Core.Option
use vellar_dapp.JsMap
use vellar_dapp.JsMap.{JsMap}
use vellar_dapp.Prelude.{
  ltb, leb, if◌then◌else◌, get_or, is_some, length, ℕ, zero, suc, ◌+◌, String, not, ◌||◌, Option,
  none, some, List, [], ◌∷◌, ◌++◌, map, str_eq,
}

-- `payload` is `none` for `undefined`.
pub record PolicyEventMessage {ℓ} (T : Type ℓ) : Type ℓ where
  pub id : String
  pub event_type : String
  pub payload : Option T
  pub attempts : ℕ
  pub max_attempts : Option ℕ
  pub enqueued_at : ℕ
  pub correlation_id : Option String

pub record QuarantinedMessage {ℓ} (T : Type ℓ) : Type ℓ where
  pub message : PolicyEventMessage T
  pub quarantined_at : ℕ
  pub attempts : ℕ
  pub reason : String
  pub stack : Option String

pub record Failure : Type 0 where
  pub message : String
  pub stack : Option String

-- The memory quarantine queue is a `Map` from ids.
abbrev pub QuarantineQueue {ℓ} : Type ℓ → Type ℓ
QuarantineQueue T = JsMap (QuarantinedMessage T)

pub record PolicyEventQueue {ℓ} (T : Type ℓ) : Type ℓ where
  pub queue : List (PolicyEventMessage T)
  pub quarantine_queue : QuarantineQueue T
  pub max_attempts : ℕ
  pub queue_depth : ℕ
  pub poison_messages : ℕ
  pub alerts : List (QuarantinedMessage T)

pub record NewEvent {ℓ} (T : Type ℓ) : Type ℓ where
  pub event_type : String
  pub payload : Option T
  pub id : Option String
  pub max_attempts : Option ℕ
  pub correlation_id : Option String

pub data ProcessOutcome : Type 0 where
  success retry quarantined : ProcessOutcome

pub record ProcessResult : Type 0 where
  pub message_id : String
  pub outcome : ProcessOutcome
  pub attempts : ℕ
  pub reason : Option String

-- What a handler did with a message: the failure that it threw, and the events that it enqueued, each
-- with a drawn id.
pub record Handled {ℓ} (T : Type ℓ) : Type ℓ where
  pub failure : Option Failure
  pub events : List (NewEvent T × String)

-- POLICY_EVENT_MAX_ATTEMPTS, read as a number: `none` where that is no finite number.
abbrev pub env_attempts_or : Option ℕ → ℕ → ℕ
env_attempts_or none default = default
env_attempts_or (some n) default = if ltb 0 n then n else default

abbrev pub malformed : Failure
malformed = record { message = "Malformed message: missing eventType or payload"; stack = none }

abbrev pub push_result : Option ProcessResult → List ProcessResult → List ProcessResult
push_result none results = results
push_result (some res) results = res ∷ results

module _ {ℓ} {T : Type ℓ} where
  -- createMemoryQuarantineQueue().quarantine
  unfoldable pub quarantine :
      PolicyEventMessage T → String → Option String → ℕ → QuarantineQueue T → QuarantineQueue T
  quarantine msg reason stack now records =
      JsMap.set msg.id
        (record {
          message = msg;
          quarantined_at = now;
          attempts = msg.attempts;
          reason = reason;
          stack = stack;
        })
        records

  unfoldable pub update_backlog_depth_metric : PolicyEventQueue T → PolicyEventQueue T
  update_backlog_depth_metric q = record q { queue_depth = length q.queue }

  unfoldable pub new_queue : Option ℕ → Option ℕ → QuarantineQueue T → PolicyEventQueue T
  unfolding update_backlog_depth_metric
  new_queue max_attempts env_attempts quarantine_queue = update_backlog_depth_metric (record {
    queue = [];
    quarantine_queue = quarantine_queue;
    max_attempts = get_or max_attempts (env_attempts_or env_attempts 3);
    queue_depth = 0;
    poison_messages = 0;
    alerts = [];
  })

  unfoldable pub enqueue :
      NewEvent T → String → ℕ → PolicyEventQueue T → PolicyEventQueue T × PolicyEventMessage T
  unfolding update_backlog_depth_metric
  enqueue event random_uuid now q =
      let msg : PolicyEventMessage T = record {
        id = get_or event.id random_uuid;
        event_type = event.event_type;
        payload = event.payload;
        attempts = 0;
        max_attempts = some (get_or event.max_attempts q.max_attempts);
        enqueued_at = now;
        correlation_id = event.correlation_id;
      } in
      (update_backlog_depth_metric (record q { queue = q.queue ++ msg ∷ [] }), msg)

  unfoldable pub pending_count : PolicyEventQueue T → ℕ
  pending_count q = length q.queue

  unfoldable pub enqueue_all :
      List (NewEvent T × String) → ℕ → PolicyEventQueue T → PolicyEventQueue T
  unfolding enqueue
  enqueue_all [] now q = q
  enqueue_all ((event, random_uuid) ∷ events) now q =
      enqueue_all events now (enqueue event random_uuid now q).0

  -- The `try` block: the check of the envelope, then the handler.
  unfoldable pub attempt : (PolicyEventMessage T → Handled T) → PolicyEventMessage T → Handled T
  attempt handler msg =
      if str_eq msg.event_type "" || not (is_some msg.payload)
      then record { failure = some malformed; events = [] }
      else handler msg

  -- The alert callback, with what the quarantine queue then holds for the id.
  abbrev pub alert : String → PolicyEventQueue T → PolicyEventQueue T
  alert id q = elim (JsMap.get id q.quarantine_queue) [
    | none ↦ q
    | some record_of_id ↦ record q { alerts = record_of_id ∷ q.alerts }
  ]

  -- `msg` has its attempt counted, and is off the queue.
  unfoldable pub settle :
      PolicyEventMessage T
      → ℕ
      → ℕ
      → Option Failure
      → PolicyEventQueue T
      → PolicyEventQueue T × ProcessResult
  unfolding quarantine update_backlog_depth_metric
  settle msg limit now none q =
      (q, record { message_id = msg.id; outcome = success; attempts = msg.attempts; reason = none })
  settle msg limit now (some err) q =
      if leb limit msg.attempts
      then (
        alert msg.id (record q {
          quarantine_queue = quarantine msg err.message err.stack now q.quarantine_queue;
          poison_messages = q.poison_messages + 1;
        }),
        record {
          message_id = msg.id;
          outcome = quarantined;
          attempts = msg.attempts;
          reason = some err.message;
        },
      )
      else (
        update_backlog_depth_metric (record q { queue = q.queue ++ msg ∷ [] }),
        record {
          message_id = msg.id;
          outcome = retry;
          attempts = msg.attempts;
          reason = some err.message;
        },
      )

  -- The message as it is handled: taken off the queue, with this attempt counted.
  abbrev pub counted : PolicyEventMessage T → PolicyEventMessage T
  counted msg = record msg { attempts = msg.attempts + 1 }

  process_head :
      (PolicyEventMessage T → Handled T)
      → ℕ
      → List (PolicyEventMessage T)
      → PolicyEventQueue T
      → PolicyEventQueue T × Option ProcessResult
  unfolding settle attempt enqueue_all update_backlog_depth_metric
  process_head handler now [] q = (update_backlog_depth_metric q, none)
  process_head handler now (msg ∷ rest) q =
      let limit = get_or msg.max_attempts q.max_attempts in
      let shifted = update_backlog_depth_metric (record q { queue = rest }) in
      let handled = attempt handler (counted msg) in
      let (q', result) =
        settle (counted msg) limit now handled.failure (enqueue_all handled.events now shifted) in
      (q', some result)

  unfoldable pub process_next :
      (PolicyEventMessage T → Handled T)
      → ℕ
      → PolicyEventQueue T
      → PolicyEventQueue T × Option ProcessResult
  unfolding process_head
  process_next handler now q = process_head handler now q.queue q

  -- `while (this.queue.length > 0)`, with fuel; `none` means that it ran out. The clock is read
  -- anew in each round.
  unfoldable pub process_all :
      ℕ
      → (PolicyEventMessage T → Handled T)
      → (ℕ → ℕ)
      → PolicyEventQueue T
      → Option (PolicyEventQueue T × List ProcessResult)
  process_all zero handler clock q = if ltb 0 (length q.queue) then none else some (q, [])
  process_all (suc fuel) handler clock q =
      let (q', res) = process_next handler (clock fuel) q in
      let rest = Option.map (λ r. (r.0, push_result res r.1)) (process_all fuel handler clock q') in
      if ltb 0 (length q.queue) then rest else some (q, [])
