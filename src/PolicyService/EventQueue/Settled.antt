-- ===== src/PolicyService/EventQueue/Settled.antt =====
-- services/policy-service/src/event-queue.ts: draining the queue ends, and settles every message.
use vellar_dapp.JsMap
use vellar_dapp.PolicyService.EventQueue.{
  PolicyEventMessage, QuarantinedMessage, Failure, PolicyEventQueue, NewEvent, Handled, enqueue_all,
  ProcessOutcome, alert, quarantine, retry, quarantined, ProcessResult, attempt, settle, counted,
  process_head, process_next, process_all,
}
use vellar_dapp.Prelude.{
  ltb, leb, if◌then◌else◌, str_eq, is_some, not, ◌||◌, Bool-cases, All, String, inl, inr, get_or,
  length, ℕ, zero, suc, ◌+◌, ◌-◌, ◌≤◌, ◌<◌, max, ◌≡◌, refl, sym, ap, subst, true, Option, none,
  some, List, [], ◌∷◌, ◌++◌, arith,
}

abbrev pub settled_one : ProcessOutcome → ℕ
settled_one retry = 0
settled_one _ = 1

abbrev pub quarantined_one : ProcessOutcome → ℕ
quarantined_one quarantined = 1
quarantined_one _ = 0

-- 1 for a final result of the message with the id.
abbrev pub settles : String → ProcessResult → ℕ
settles id r = if str_eq r.message_id id then settled_one r.outcome else 0

-- How many results of the message are final, and how many results are quarantines.
unfoldable pub settled : String → List ProcessResult → ℕ
settled id [] = 0
settled id (r ∷ rs) = settles id r + settled id rs

unfoldable pub quarantines : List ProcessResult → ℕ
quarantines [] = 0
quarantines (r ∷ rs) = quarantined_one r.outcome + quarantines rs

nonempty : (n : ℕ) → ltb 0 (suc n) ≡ true
nonempty n = ground arith

module _ {ℓ} {T : Type ℓ} where
  -- The attempts that a message has left, at least the next one.
  abbrev pub attempts_left : ℕ → PolicyEventMessage T → ℕ
  attempts_left default msg = max 1 (get_or msg.max_attempts default - msg.attempts)

  -- How many messages have the id.
  unfoldable pub pending_with : String → List (PolicyEventMessage T) → ℕ
  pending_with id [] = 0
  pending_with id (msg ∷ rest) = (if str_eq msg.id id then 1 else 0) + pending_with id rest

  pending_with-append :
      (id : String) (xs ys : List (PolicyEventMessage T))
      → pending_with id (xs ++ ys) ≡ pending_with id xs + pending_with id ys
  unfolding pending_with
  pending_with-append id [] ys = omega arith
  pending_with-append id (x ∷ xs) ys = omega (arith, pending_with-append id xs ys)

  abbrev pub InQuarantine : PolicyEventQueue T → String → Type 0
  InQuarantine q id = is_some (JsMap.get id q.quarantine_queue) ≡ true

  unfoldable pub work : ℕ → List (PolicyEventMessage T) → ℕ
  work default [] = 0
  work default (msg ∷ rest) = attempts_left default msg + work default rest

  work-append :
      (d : ℕ) (xs ys : List (PolicyEventMessage T)) → work d (xs ++ ys) ≡ work d xs + work d ys
  unfolding work
  work-append d [] ys = omega arith
  work-append d (x ∷ xs) ys = omega (arith, work-append d xs ys)

  abbrev pub in_quarantine : PolicyEventMessage T → Failure → ℕ → QuarantinedMessage T
  in_quarantine msg err now = record {
    message = counted msg;
    quarantined_at = now;
    attempts = msg.attempts + 1;
    reason = err.message;
    stack = err.stack;
  }

  abbrev pub given_up : PolicyEventMessage T → Failure → ProcessResult
  given_up msg err = record {
    message_id = msg.id;
    outcome = quarantined;
    attempts = msg.attempts + 1;
    reason = some err.message;
  }

  record Round (q q' : PolicyEventQueue T) (res : ProcessResult) : Type ℓ where
    less_work : work q.max_attempts q'.queue < work q.max_attempts q.queue
    same_limit : q'.max_attempts ≡ q.max_attempts
    kept : (id : String) → pending_with id q'.queue + settles id res ≡ pending_with id q.queue
    stored : res.outcome ≡ quarantined → InQuarantine q' res.message_id
    stays : (id : String) → InQuarantine q id → InQuarantine q' id
    poisoned : q'.poison_messages ≡ q.poison_messages + quarantined_one res.outcome

  -- An alert changes the alerts only.
  alert_keeps :
      (P : PolicyEventQueue T → Type ℓ) (id : String) (q : PolicyEventQueue T)
      → ((alerts : List (QuarantinedMessage T)) → P (record q { alerts = alerts }))
      → P (alert id q)
  alert_keeps P id q p = go (JsMap.get id q.quarantine_queue)
    where
      go :
          (o : Option (QuarantinedMessage T))
          → P (elim o [ none ↦ q | some r ↦ record q { alerts = r ∷ q.alerts } ])
      go none = p q.alerts
      go (some r) = p (r ∷ q.alerts)

  -- The last attempt of a message: it is in quarantine, and what was there still is.
  quarantine-Round :
      (msg : PolicyEventMessage T) (rest : List (PolicyEventMessage T)) (now : ℕ) (err : Failure)
      (q : PolicyEventQueue T) (alerts : List (QuarantinedMessage T))
      → q.queue ≡ msg ∷ rest
      → Round q
          (record q {
            queue = rest;
            queue_depth = length rest;
            quarantine_queue =
                quarantine (counted msg) err.message err.stack now q.quarantine_queue;
            poison_messages = q.poison_messages + 1;
            alerts = alerts;
          })
          (given_up msg err)
  unfolding work pending_with quarantine
  quarantine-Round msg rest now err q alerts e =
      let held = in_quarantine msg err now in
      record {
        less_work = rw (e, work) (ground arith);
        same_limit = refl;
        kept = λ id. rw (e, pending_with) (ground arith);
        stored = λ yes. rw (JsMap.get-set_self msg.id held q.quarantine_queue) refl;
        stays = λ id h. elim (Bool-cases (str_eq msg.id id)) [
          | inl own ↦ rw (JsMap.get-set msg.id id held q.quarantine_queue, own) refl
          | inr other ↦ rw (JsMap.get-set msg.id id held q.quarantine_queue, other) h
        ];
        poisoned = refl;
      }

  settle-Round :
      (msg : PolicyEventMessage T) (rest : List (PolicyEventMessage T)) (now : ℕ)
      (o : Option Failure) (q shifted : PolicyEventQueue T)
      → q.queue ≡ msg ∷ rest
      → shifted ≡ record q { queue = rest; queue_depth = length rest }
      → let limit = get_or msg.max_attempts q.max_attempts in
        let (q', res) = settle (counted msg) limit now o shifted in Round q q' res
  unfolding settle work pending_with
  settle-Round msg rest now none q shifted e s = rw s (record {
    less_work = rw (e, work) (ground arith);
    same_limit = refl;
    kept = λ id. rw (e, pending_with) (ground arith);
    stored = λ no. absurd cc;
    stays = λ id h. h;
    poisoned = omega arith;
  })
  settle-Round msg rest now (some err) q shifted e s =
      rw s (elim (Bool-cases (leb (get_or msg.max_attempts q.max_attempts) (msg.attempts + 1))) [
        | inl spent ↦ rw spent (
            alert_keeps (λ q'. Round q q' (given_up msg err)) msg.id
              (record q {
                queue = rest;
                queue_depth = length rest;
                quarantine_queue =
                    quarantine (counted msg) err.message err.stack now q.quarantine_queue;
                poison_messages = q.poison_messages + 1;
              })
              (λ alerts. quarantine-Round msg rest now err q alerts e))
        | inr left ↦ rw left (record {
          less_work = ground (
            arith,
            left,
            ap (work q.max_attempts) e,
            work-append q.max_attempts rest (counted msg ∷ []),
          );
          same_limit = refl;
          kept = λ id.
              ground
                (arith, ap (pending_with id) e, pending_with-append id rest (counted msg ∷ []));
          stored = λ no. absurd cc;
          stays = λ id h. h;
          poisoned = omega arith;
        })
      ])

  -- The handler leaves the queue alone.
  abbrev pub IsQuiet : (PolicyEventMessage T → Handled T) → Type ℓ
  IsQuiet handler = (msg : PolicyEventMessage T) → (handler msg).events ≡ []

  attempt_quiet :
      (handler : PolicyEventMessage T → Handled T) (msg : PolicyEventMessage T)
      → IsQuiet handler
      → (attempt handler msg).events ≡ []
  unfolding attempt
  attempt_quiet handler msg quiet =
      elim (Bool-cases (str_eq msg.event_type "" || not (is_some msg.payload))) [
        | inl bad ↦ rw bad refl
        | inr good ↦ rw good (quiet msg)
      ]

  abbrev HeadRound : PolicyEventQueue T → PolicyEventQueue T × Option ProcessResult → Type ℓ
  HeadRound q p = (res : ProcessResult) × (p.1 ≡ some res) × Round q p.0 res

  process_head-Round :
      (handler : PolicyEventMessage T → Handled T) (now : ℕ) (msg : PolicyEventMessage T)
      (rest : List (PolicyEventMessage T)) (q : PolicyEventQueue T)
      → IsQuiet handler
      → q.queue ≡ msg ∷ rest
      → HeadRound q (process_head handler now (msg ∷ rest) q)
  unfolding process_head enqueue_all
  process_head-Round handler now msg rest q quiet e =
      let shifted = record q { queue = rest; queue_depth = length rest } in
      let limit = get_or msg.max_attempts q.max_attempts in
      let o = (attempt handler (counted msg)).failure in
      let after = λ (events : List (NewEvent T × String)).
        settle (counted msg) limit now o (enqueue_all events now shifted) in
      subst (λ events. HeadRound q ((after events).0, some (after events).1))
        (sym (attempt_quiet handler (counted msg) quiet))
        ((after []).1, refl, settle-Round msg rest now o q shifted e refl)

  process_next-Round :
      (handler : PolicyEventMessage T → Handled T) (now : ℕ) (msg : PolicyEventMessage T)
      (rest : List (PolicyEventMessage T)) (q : PolicyEventQueue T)
      → IsQuiet handler
      → q.queue ≡ msg ∷ rest
      → HeadRound q (process_next handler now q)
  unfolding process_next
  process_next-Round handler now msg rest q quiet e =
      subst (λ l. HeadRound q (process_head handler now l q)) (sym e)
        (process_head-Round handler now msg rest q quiet e)

  -- How a drain ends: with nothing pending, and each message of the start settled once.
  pub record Drained (q q' : PolicyEventQueue T) (results : List ProcessResult) : Type ℓ where
    pub empty : q'.queue ≡ []
    pub each_settled : (id : String) → settled id results ≡ pending_with id q.queue
    pub all_stored :
        All (λ (r : ProcessResult). r.outcome ≡ quarantined → InQuarantine q' r.message_id) results
    pub all_stay : (id : String) → InQuarantine q id → InQuarantine q' id
    pub poison_counted : q'.poison_messages ≡ q.poison_messages + quarantines results
    pub rounds_bounded : length results ≤ work q.max_attempts q.queue

  abbrev Drains : ℕ → (PolicyEventMessage T → Handled T) → (ℕ → ℕ) → PolicyEventQueue T → Type ℓ
  Drains fuel handler clock q =
      (q' : PolicyEventQueue T) × (results : List ProcessResult) × (process_all fuel handler clock q
        ≡ some (q', results))
      × Drained q q' results

  Drained-nil : (q : PolicyEventQueue T) → q.queue ≡ [] → Drained q q []
  unfolding settled quarantines work pending_with
  Drained-nil q e = record {
    empty = e;
    each_settled = λ id. sym (ap (pending_with id) e);
    all_stored = tt;
    all_stay = λ id h. h;
    poison_counted = omega arith;
    rounds_bounded = omega arith;
  }

  Drained-cons :
      (q q₁ q' : PolicyEventQueue T) (res : ProcessResult) (results : List ProcessResult)
      → Round q q₁ res
      → Drained q₁ q' results
      → Drained q q' (res ∷ results)
  unfolding settled quarantines
  Drained-cons q q₁ q' res results r d = record {
    empty = d.empty;
    each_settled = λ id. omega (arith, r.kept id, d.each_settled id);
    all_stored = (λ yes. d.all_stay res.message_id (r.stored yes), d.all_stored);
    all_stay = λ id h. d.all_stay id (r.stays id h);
    poison_counted = omega (arith, r.poisoned, d.poison_counted);
    rounds_bounded =
        let bound : length results ≤ work q.max_attempts q₁.queue =
          rw r.same_limit at d.rounds_bounded in
        omega (arith, r.less_work, bound);
  }

  work-pos :
      (d : ℕ) (l rest : List (PolicyEventMessage T)) (msg : PolicyEventMessage T)
      → l ≡ msg ∷ rest
      → 0 < work d l
  unfolding work
  work-pos d l rest msg e = rw e (omega arith)

  pub process_all-step :
      (fuel : ℕ) (handler : PolicyEventMessage T → Handled T) (clock : ℕ → ℕ)
      (q q' : PolicyEventQueue T) (rest : List (PolicyEventMessage T)) (msg : PolicyEventMessage T)
      (res : ProcessResult) (results : List ProcessResult)
      → q.queue ≡ msg ∷ rest
      → (process_next handler (clock fuel) q).1 ≡ some res
      → process_all fuel handler clock (process_next handler (clock fuel) q).0 ≡ some (q', results)
      → process_all (suc fuel) handler clock q ≡ some (q', res ∷ results)
  unfolding process_all
  process_all-step fuel handler clock q q' rest msg res results e r h =
      rw (ap length e, r, h, nonempty (length rest)) refl

  -- With as much fuel as attempts are left to the pending messages, the loop of `processAll` ends, for
  -- any answers of a handler that leaves the queue alone. The queue is then empty; for every id there
  -- are as many final results, success or quarantine, as there were pending messages with it, so that
  -- a message with an id of its own has exactly one; every quarantined id is in the quarantine queue,
  -- and so is each that was; the poison counter grew by the quarantines, and there were no more
  -- rounds than attempts left.
  pub process_all-Drained :
      (fuel : ℕ) (handler : PolicyEventMessage T → Handled T) (clock : ℕ → ℕ)
      (q : PolicyEventQueue T)
      → IsQuiet handler
      → work q.max_attempts q.queue ≤ fuel
      → (q' : PolicyEventQueue T) × (results : List ProcessResult) × (process_all fuel handler clock
            q
          ≡ some (q', results))
        × Drained q q' results
  unfolding process_all
  process_all-Drained zero handler clock q quiet enough = go q.queue refl
    where
      go : (l : List (PolicyEventMessage T)) → q.queue ≡ l → Drains zero handler clock q
      go [] e = (q, [], rw (ap length e) refl, Drained-nil q e)
      go (msg ∷ rest) e = absurd (omega (arith, work-pos q.max_attempts q.queue rest msg e))
  process_all-Drained (suc fuel) handler clock q quiet enough =
      go q.queue refl
        (process_all-Drained fuel handler clock (process_next handler (clock fuel) q).0 quiet)
    where
      go :
          (l : List (PolicyEventMessage T))
          → q.queue ≡ l
          → (work
                  (process_next handler (clock fuel) q).0.max_attempts
                  (process_next handler (clock fuel) q).0.queue
                ≤ fuel
              → Drains fuel handler clock (process_next handler (clock fuel) q).0)
          → Drains (suc fuel) handler clock q
      go [] e again = (q, [], rw (ap length e) refl, Drained-nil q e)
      go (msg ∷ rest) e again =
          let (res, is_res, round) = process_next-Round handler (clock fuel) msg rest q quiet e in
          let q₁ = (process_next handler (clock fuel) q).0 in
          let less : work q₁.max_attempts q₁.queue ≤ fuel =
            rw round.same_limit (omega (arith, round.less_work)) in
          let (q', results, runs, d) = again less in
          (
            q',
            res ∷ results,
            process_all-step fuel handler clock q q' rest msg res results e is_res runs,
            Drained-cons q q₁ q' res results round d,
          )
