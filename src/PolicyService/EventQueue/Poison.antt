-- ===== src/PolicyService/EventQueue/Poison.antt =====
-- services/policy-service/src/event-queue.ts: a message that always fails.
use vellar_dapp.JsMap
use vellar_dapp.PolicyService.EventQueue.Settled.{
  in_quarantine, given_up, quarantines, attempts_left, process_all-step,
}
use vellar_dapp.PolicyService.EventQueue.{
  PolicyEventMessage, QuarantinedMessage, Failure, Handled, enqueue_all, PolicyEventQueue, retry,
  ProcessResult, attempt, counted, process_head, process_next, process_all,
}
use vellar_dapp.Prelude.{
  ltb, Bool-cases, get_or, length, ℕ, zero, suc, ◌+◌, ◌≤◌, ◌<◌, ◌≡◌, refl, sym, ap, inl, inr, some,
  List, [], ◌∷◌, arith,
}

module _ {ℓ} {T : Type ℓ} where
  process_all-nil :
      (fuel : ℕ) (handler : PolicyEventMessage T → Handled T) (clock : ℕ → ℕ)
      (q : PolicyEventQueue T)
      → q.queue ≡ []
      → process_all fuel handler clock q ≡ some (q, [])
  unfolding process_all
  process_all-nil zero handler clock q e = rw (ap length e) refl
  process_all-nil (suc fuel) handler clock q e = rw (ap length e) refl

  abbrev retried : PolicyEventMessage T → Failure → ProcessResult
  retried msg err = record {
    message_id = msg.id;
    outcome = retry;
    attempts = msg.attempts + 1;
    reason = some err.message;
  }

  -- The handler threw and enqueued nothing.
  abbrev pub thrown : Failure → Handled T
  thrown err = record { failure = some err; events = [] }

  -- One round of a lone message that fails.
  module _ (handler : PolicyEventMessage T → Handled T) (now : ℕ) (q : PolicyEventQueue T)
      (msg : PolicyEventMessage T) (err : Failure) (lone : q.queue ≡ msg ∷ [])
      (fails : attempt handler (counted msg) ≡ thrown err) where
    after_head : process_next handler now q ≡ process_head handler now (msg ∷ []) q
    unfolding process_next
    after_head = ap (λ l. process_head handler now l q) lone

    failing_retry :
        msg.attempts + 1 < get_or msg.max_attempts q.max_attempts
        → ((process_next handler now q).0.queue ≡ counted msg ∷ [])
          × ((process_next handler now q).0.max_attempts ≡ q.max_attempts)
          × ((process_next handler now q).1 ≡ some (retried msg err))
    unfolding process_head enqueue_all
    failing_retry lt = rw after_head (rw fails (ground arith))

    failing_quarantine :
        get_or msg.max_attempts q.max_attempts ≤ msg.attempts + 1
        → ((process_next handler now q).0.queue ≡ [])
          × (JsMap.get msg.id (process_next handler now q).0.quarantine_queue
              ≡ some (in_quarantine msg err now))
          × ((process_next handler now q).1 ≡ some (given_up msg err))
    unfolding process_head enqueue_all
    failing_quarantine le = rw after_head (
        rw fails (
          ground (arith, JsMap.get-set_self msg.id (in_quarantine msg err now) q.quarantine_queue)))

  -- The end of a lone message that always fails: no message is left, and the one of the start is in
  -- the quarantine after as many rounds as it had attempts left.
  pub record Poisoned (q : PolicyEventQueue T) (msg : PolicyEventMessage T) (err : Failure)
      (q' : PolicyEventQueue T) (results : List ProcessResult) : Type ℓ where
    pub empty : q'.queue ≡ []
    pub rounds : length results ≡ attempts_left q.max_attempts msg
    pub quarantined_once : quarantines results ≡ 1
    pub kept : QuarantinedMessage T
    pub found : JsMap.get msg.id q'.quarantine_queue ≡ some kept
    pub all_attempts : kept.attempts ≡ msg.attempts + attempts_left q.max_attempts msg
    pub last_reason : kept.reason ≡ err.message

  abbrev Poisons :
      ℕ
      → (PolicyEventMessage T → Handled T)
      → (ℕ → ℕ)
      → PolicyEventQueue T
      → PolicyEventMessage T
      → Failure
      → Type ℓ
  Poisons fuel handler clock q msg err =
      (q' : PolicyEventQueue T) × (results : List ProcessResult) × (process_all fuel handler clock q
        ≡ some (q', results))
      × Poisoned q msg err q' results

  -- If a message is alone in the queue and each attempt at it fails in the same way and enqueues
  -- nothing, then, with as much fuel as it has attempts left, `processAll` tries it exactly that often, quarantines it once,
  -- at the last attempt, with the reason of that failure, and leaves nothing pending.
  pub poison_message :
      (fuel : ℕ) (handler : PolicyEventMessage T → Handled T) (clock : ℕ → ℕ)
      (q : PolicyEventQueue T) (msg : PolicyEventMessage T) (err : Failure)
      → q.queue ≡ msg ∷ []
      → ((n : ℕ) → attempt handler (record msg { attempts = n }) ≡ thrown err)
      → attempts_left q.max_attempts msg ≤ fuel
      → (q' : PolicyEventQueue T) × (results : List ProcessResult) × (process_all fuel handler clock
            q
          ≡ some (q', results))
        × Poisoned q msg err q' results
  unfolding quarantines
  poison_message zero handler clock q msg err lone fails enough = absurd (omega arith)
  poison_message (suc fuel) handler clock q msg err lone fails enough =
      elim (Bool-cases (ltb (msg.attempts + 1) (get_or msg.max_attempts q.max_attempts))) [
        | inl again ↦
            let (queue, limit, result) =
              failing_retry handler (clock fuel) q msg err lone (fails (msg.attempts + 1))
                (ground arith) in
            let q₁ = (process_next handler (clock fuel) q).0 in
            let left : attempts_left q₁.max_attempts (counted msg) + 1
                ≡ attempts_left q.max_attempts msg =
              rw limit (ground arith) in
            let (q', results, runs, d) =
              poison_message fuel handler clock q₁ (counted msg) err queue fails
                (omega (arith, left)) in
            (
              q',
              retried msg err ∷ results,
              process_all-step fuel handler clock q q' [] msg (retried msg err) results lone result
                  runs,
              record {
                empty = d.empty;
                rounds = omega (arith, d.rounds, left);
                quarantined_once = omega (arith, d.quarantined_once);
                kept = d.kept;
                found = d.found;
                all_attempts = omega (arith, d.all_attempts, left);
                last_reason = d.last_reason;
              },
            )
        | inr last ↦
            let (queue, found, result) =
              failing_quarantine handler (clock fuel) q msg err lone (fails (msg.attempts + 1))
                (ground arith) in
            let q₁ = (process_next handler (clock fuel) q).0 in
            let left : attempts_left q.max_attempts msg ≡ 1 = ground arith in
            (
              q₁,
              given_up msg err ∷ [],
              process_all-step fuel handler clock q q₁ [] msg (given_up msg err) [] lone result
                  (process_all-nil fuel handler clock q₁ queue),
              record {
                empty = queue;
                rounds = sym left;
                quarantined_once = refl;
                kept = in_quarantine msg err (clock fuel);
                found = found;
                all_attempts = omega (arith, left);
                last_reason = refl;
              },
            )
      ]
