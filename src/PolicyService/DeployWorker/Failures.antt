-- ===== src/PolicyService/DeployWorker/Failures.antt =====
-- services/policy-service/src/policy-deploy-worker.ts: what a failed deployment does to its job.
use vellar_dapp.JsMap
use vellar_dapp.PolicyService.DlqStore.{DlqRecord, dlq_move, moved, insert, depth, record_audit}
use vellar_dapp.PolicyService.DeployWorker.{
  DeployError, is_terminal_failure, pending, dead, DeployJob, DeployJobStore, first_given, exceeds,
  World, set_job, FailureOptions, count_failure, is_exhausted, dead_letter, Drawn, move_to_dlq,
  handle_failure,
}
use vellar_dapp.Prelude.{
  if◌then◌else◌, Bool-cases, ℕ, ◌+◌, String, ◌≡◌, refl, sym, ◌∙◌, ◌↔◌, get_or, ◌≤◌, ◌<◌, arith,
  some_inj, Option, ◌⊎◌, inl, inr, true, false, none, some, [], ◌∷◌, ◌++◌, str_eq,
}

-- The world after a failure of the job that had been `job`.
pub record Failed (job_id : String) (error : DeployError) (options : FailureOptions) (now : ℕ)
    (drawn : Drawn) (w : World) (job : DeployJob) (w' : World) : Type 0 where
  pub job' : DeployJob
  pub stored : JsMap.get job_id w'.job_store.jobs ≡ some job'
  pub counted : job'.retry_count ≡ job.retry_count + 1
  pub decided : job'.status ≡ (
      if is_exhausted options error (count_failure error now job) w.job_store
      then dead
      else pending)
  pub jobs :
      (j : String)
      → JsMap.get j w'.job_store.jobs
        ≡ (if str_eq job_id j then some job' else JsMap.get j w.job_store.jobs)
  pub same_threshold : w'.job_store.dlq_threshold ≡ w.job_store.dlq_threshold
  pub same_attempts : w'.job_store.max_attempts ≡ w.job_store.max_attempts
  pub same_job_attempts : job'.max_attempts ≡ job.max_attempts

-- The dead letter of a job that ran out of attempts.
pub record Lettered (job_id : String) (error : DeployError) (now : ℕ) (drawn : Drawn)
    (job : DeployJob) (w w' : World) : Type 0 where
  pub letter : DlqRecord
  pub in_dlq : JsMap.get drawn.dlq_id w'.dlq.records ≡ some letter
  pub of_job : letter.original_job_id ≡ job_id
  pub failures : letter.failure_count ≡ job.retry_count + 1
  pub live : letter.archived ≡ false
  pub audited :
      w'.dlq.audit_log
      ≡ w.dlq.audit_log
        ++ (record {
          id = drawn.audit_id;
          dlq_id = drawn.dlq_id;
          event_type = dlq_move;
          actor = none;
          metadata = moved job_id error.summary (job.retry_count + 1) (is_terminal_failure error);
          created_at = now;
        })
          ∷ []
  pub gauge : w'.dlq_depth_gauge ≡ depth w'.dlq
  pub counter : w'.dlq_enqueue_total ≡ w.dlq_enqueue_total + 1

pub true-ne-false : ¬ (true ≡ false)
true-ne-false h = cc

module _ (job_id : String) (error : DeployError) (options : FailureOptions) (now : ℕ)
    (drawn : Drawn) (w : World) (job : DeployJob)
    (found : JsMap.get job_id w.job_store.jobs ≡ some job) where
  abbrev counted_job : DeployJob
  counted_job = count_failure error now job

  abbrev after : World
  after =
      if is_exhausted options error counted_job w.job_store
      then move_to_dlq job_id error now drawn counted_job w
      else record w {
        job_store = set_job (record counted_job { status = pending }) job_id w.job_store;
      }

  handle_failure-after : handle_failure job_id error options now drawn w ≡ some after
  unfolding handle_failure
  handle_failure-after = rw (found, handle_failure) refl

  after-Failed : Failed job_id error options now drawn w job after
  unfolding move_to_dlq insert record_audit
  after-Failed = elim (Bool-cases (is_exhausted options error counted_job w.job_store)) [
    | inl exhausted ↦ rw exhausted (record {
      job' = record counted_job { status = dead };
      stored = JsMap.get-set_self job_id (record counted_job { status = dead }) w.job_store.jobs;
      counted = refl;
      decided = rw exhausted refl;
      jobs = λ j. JsMap.get-set job_id j (record counted_job { status = dead }) w.job_store.jobs;
      same_threshold = refl;
      same_attempts = refl;
      same_job_attempts = refl;
    })
    | inr again ↦ rw again (record {
      job' = record counted_job { status = pending };
      stored = JsMap.get-set_self job_id (record counted_job { status = pending }) w.job_store.jobs;
      counted = refl;
      decided = rw again refl;
      jobs = λ j. JsMap.get-set job_id j (record counted_job { status = pending }) w.job_store.jobs;
      same_threshold = refl;
      same_attempts = refl;
      same_job_attempts = refl;
    })
  ]

  after-Lettered :
      is_exhausted options error counted_job w.job_store ≡ true
      → Lettered job_id error now drawn job w after
  unfolding move_to_dlq insert record_audit
  after-Lettered exhausted = rw exhausted (record {
    letter = (insert (dead_letter job_id error now counted_job) drawn.dlq_id now w.dlq).1;
    in_dlq = JsMap.get-set_self drawn.dlq_id _ w.dlq.records;
    of_job = refl;
    failures = refl;
    live = refl;
    audited = refl;
    gauge = refl;
    counter = refl;
  })

  after_fate :
      ((is_exhausted options error counted_job w.job_store ≡ true)
        × Lettered job_id error now drawn job w after)
      ⊎ ((is_exhausted options error counted_job w.job_store ≡ false) × (after.dlq ≡ w.dlq))
  after_fate = elim (Bool-cases (is_exhausted options error counted_job w.job_store)) [
    | inl exhausted ↦ inl (exhausted, after-Lettered exhausted)
    | inr again ↦ inr (again, rw again refl)
  ]

-- The fate of the job by the worker's own test.
pub handle_failure_fate :
    (job_id : String) (error : DeployError) (options : FailureOptions) (now : ℕ) (drawn : Drawn)
    (w : World) (job : DeployJob)
    → JsMap.get job_id w.job_store.jobs ≡ some job
    → (w' : World) × (handle_failure job_id error options now drawn w ≡ some w')
      × Failed job_id error options now drawn w job w'
      × (((is_exhausted options error (count_failure error now job) w.job_store ≡ true)
            × Lettered job_id error now drawn job w w')
          ⊎ ((is_exhausted options error (count_failure error now job) w.job_store ≡ false)
              × (w'.dlq ≡ w.dlq)))
handle_failure_fate job_id error options now drawn w job found = (
  after job_id error options now drawn w job found,
  handle_failure-after job_id error options now drawn w job found,
  after-Failed job_id error options now drawn w job found,
  after_fate job_id error options now drawn w job found,
)

-- The maximum of attempts that counts: the call's, else the job's, else the store's.
abbrev pub IsMaximum : Option ℕ → Option ℕ → Option ℕ → ℕ → Type 0
IsMaximum of_call of_job of_store most =
    (of_call ≡ some most)
    ⊎ (((of_call ≡ none) × (of_job ≡ some most))
        ⊎ ((of_call ≡ none) × (of_job ≡ none) × (of_store ≡ some most)))

-- A failure, the `failures`th of its job, that ends the attempts.
abbrev pub EndsAttempts : FailureOptions → DeployError → DeployJob → DeployJobStore → ℕ → Type 0
EndsAttempts options error job store failures =
    (is_terminal_failure error ≡ true)
    ⊎ (((most : ℕ) × IsMaximum options.max_attempts job.max_attempts store.max_attempts most
          × (most ≤ failures))
        ⊎ (get_or options.dlq_threshold store.dlq_threshold < failures))

module _ (options : FailureOptions) (error : DeployError) (now : ℕ) (job : DeployJob)
    (store : DeployJobStore) where
  abbrev failures : ℕ
  failures = job.retry_count + 1

  first_given_lem :
      (a b c : Option ℕ) (most : ℕ) → (first_given a b c ≡ some most) ↔ IsMaximum a b c most
  first_given_lem (some n) b c most = ground arith
  first_given_lem none (some n) c most = ground arith
  first_given_lem none none c most = ground arith

  exceeds_lem :
      (o : Option ℕ) (n : ℕ) → (exceeds o n ≡ true) ↔ ((most : ℕ) × (o ≡ some most) × (most ≤ n))
  exceeds_lem none n = (λ h. absurd cc, λ h. let e = h.1 in absurd cc)
  exceeds_lem (some most) n = (
    λ h. (most, refl, ground (arith, h)),
    λ h. let e = some_inj h.1 in let le = h.2 in ground (arith, e, le),
  )

  is_exhausted_iff :
      (is_exhausted options error (count_failure error now job) store ≡ true)
      ↔ EndsAttempts options error job store failures
  unfolding is_exhausted
  is_exhausted_iff =
      let given = first_given options.max_attempts job.max_attempts store.max_attempts in
      let reached = exceeds_lem given failures in
      let maximum = first_given_lem options.max_attempts job.max_attempts store.max_attempts in
      (
        λ h. elim (Bool-cases (is_terminal_failure error)) [
          | inl t ↦ inl t
          | inr t ↦ elim (Bool-cases (exceeds given failures)) [
            | inl m ↦
                let most = reached.0 m in inr (inl (most.0, (maximum most.0).0 most.1, most.2))
            | inr m ↦ inr (inr (ground (arith, h, t, m)))
          ]
        ],
        λ h. elim h [
          | inl t ↦ rw t refl
          | inr (inl (most, is_most, le)) ↦
              let m = reached.1 (most, (maximum most).1 is_most, le) in ground (arith, m)
          | inr (inr over) ↦ ground (arith, over)
        ],
      )

-- A failure of a job that the store holds is handled without an error. It counts one retry; other
-- jobs are as before. If the failure is terminal, or the failures now reach the maximum of attempts,
-- the call's, else the job's, else the store's, or exceed the threshold, the call's, else the
-- store's, then the job becomes dead, and it has a live letter among the dead letters, with its
-- number of failures, one audit event, and both metrics moved. Otherwise it is pending again and the
-- dead letters are as before.
pub handle_failure_lem :
    (job_id : String) (error : DeployError) (options : FailureOptions) (now : ℕ) (drawn : Drawn)
    (w : World) (job : DeployJob)
    → JsMap.get job_id w.job_store.jobs ≡ some job
    → (w' : World) × (handle_failure job_id error options now drawn w ≡ some w')
      × (job' : DeployJob) × (job'.retry_count ≡ job.retry_count + 1)
      × ((j : String)
          → JsMap.get j w'.job_store.jobs
            ≡ (if str_eq job_id j then some job' else JsMap.get j w.job_store.jobs))
      × ((EndsAttempts options error job w.job_store (job.retry_count + 1)
            × (job'.status ≡ dead)
            × Lettered job_id error now drawn job w w')
          ⊎ ((¬ EndsAttempts options error job w.job_store (job.retry_count + 1))
              × (job'.status ≡ pending)
              × (w'.dlq ≡ w.dlq)))
handle_failure_lem job_id error options now drawn w job found =
    let (w', runs, failure, fate) =
      handle_failure_fate job_id error options now drawn w job found in
    let iff = is_exhausted_iff options error now job w.job_store in
    (
      w',
      runs,
      failure.job',
      failure.counted,
      failure.jobs,
      elim fate [
        | inl (ends, letter) ↦ inl (iff.0 ends, failure.decided ∙ (rw ends refl), letter)
        | inr (goes_on, kept) ↦ inr (
          λ ends. true-ne-false (sym (iff.1 ends) ∙ goes_on),
          failure.decided ∙ (rw goes_on refl),
          kept,
        )
      ],
    )
