-- ===== src/PolicyService/DeployWorker/Durable.antt =====
-- services/policy-service/src/policy-deploy-worker.ts: a job that fails again and again.
use vellar_dapp.JsMap
use vellar_dapp.PolicyService.DlqStore.{DlqRecord}
use vellar_dapp.PolicyService.DeployWorker.{
  DeployError, is_terminal_failure, pending, dead, DeployJob, DeployJobStore, World, count_failure,
  is_exhausted, Drawn, handle_failure, default_options,
}
use vellar_dapp.PolicyService.DeployWorker.Failures.{true-ne-false, Lettered, handle_failure_fate}
use vellar_dapp.Prelude.{
  ltb, if◌then◌else◌, length, All, ℕ, ◌+◌, ◌≤◌, String, ◌≡◌, refl, sym, ◌∙◌, inl, inr, true, false,
  Option, none, some, List, [], ◌∷◌, arith,
}

-- One deployment that threw: the error, the time and the ids drawn.
pub record Failure : Type 0 where
  pub error : DeployError
  pub now : ℕ
  pub drawn : Drawn

unfoldable pub fail_all : String → List Failure → World → Option World
fail_all job_id [] w = some w
fail_all job_id (f ∷ fs) w = elim (handle_failure job_id f.error default_options f.now f.drawn w) [
  | none ↦ none
  | some w' ↦ fail_all job_id fs w'
]

-- Only the threshold limits the attempts.
pub record OnlyThreshold (job_id : String) (w : World) (job : DeployJob) : Type 0 where
  pub found : JsMap.get job_id w.job_store.jobs ≡ some job
  pub no_job_maximum : job.max_attempts ≡ none
  pub no_store_maximum : w.job_store.max_attempts ≡ none

is_exhausted-threshold :
    (error : DeployError) (job : DeployJob) (store : DeployJobStore)
    → job.max_attempts ≡ none
    → store.max_attempts ≡ none
    → is_terminal_failure error ≡ false
    → is_exhausted default_options error job store ≡ ltb store.dlq_threshold job.retry_count
unfolding is_exhausted
is_exhausted-threshold error job store a b t = rw (t, a, b) refl

fail_one :
    (job_id : String) (f : Failure) (w : World) (job : DeployJob)
    → OnlyThreshold job_id w job
    → is_terminal_failure f.error ≡ false
    → (w' : World) × (handle_failure job_id f.error default_options f.now f.drawn w ≡ some w')
      × (job' : DeployJob) × OnlyThreshold job_id w' job'
      × (job'.retry_count ≡ job.retry_count + 1)
      × (w'.job_store.dlq_threshold ≡ w.job_store.dlq_threshold)
      × (job'.status
          ≡ (if ltb w.job_store.dlq_threshold (job.retry_count + 1) then dead else pending))
      × (ltb w.job_store.dlq_threshold (job.retry_count + 1) ≡ false → w'.dlq ≡ w.dlq)
      × (ltb w.job_store.dlq_threshold (job.retry_count + 1) ≡ true
          → Lettered job_id f.error f.now f.drawn job w w')
fail_one job_id f w job only t =
    let (w', runs, failure, fate) =
      handle_failure_fate job_id f.error default_options f.now f.drawn w job only.found in
    let limit : is_exhausted default_options f.error (count_failure f.error f.now job) w.job_store
        ≡ ltb w.job_store.dlq_threshold (job.retry_count + 1) =
      is_exhausted-threshold f.error (count_failure f.error f.now job) w.job_store
        only.no_job_maximum only.no_store_maximum t in
    (
      w',
      runs,
      failure.job',
      record {
        found = failure.stored;
        no_job_maximum = failure.same_job_attempts ∙ only.no_job_maximum;
        no_store_maximum = failure.same_attempts ∙ only.no_store_maximum;
      },
      failure.counted,
      failure.same_threshold,
      failure.decided ∙ (rw limit refl),
      λ h. elim fate [
        | inl lettered ↦ absurd (true-ne-false (sym lettered.0 ∙ (limit ∙ h)))
        | inr kept ↦ kept.1
      ],
      λ h. elim fate [
        | inl lettered ↦ lettered.1
        | inr kept ↦ absurd (true-ne-false (sym (limit ∙ h) ∙ kept.0))
      ],
    )

retried :
    (job_id : String) (fs : List Failure) (w : World) (job : DeployJob)
    → OnlyThreshold job_id w job
    → All (λ (f : Failure). is_terminal_failure f.error ≡ false) fs
    → job.retry_count + length fs ≤ w.job_store.dlq_threshold
    → (w' : World) × (fail_all job_id fs w ≡ some w')
      × (job' : DeployJob) × OnlyThreshold job_id w' job'
      × (job'.retry_count ≡ job.retry_count + length fs)
      × (w'.job_store.dlq_threshold ≡ w.job_store.dlq_threshold)
      × (w'.dlq ≡ w.dlq)
unfolding fail_all
retried job_id [] w job only ts le = (w, refl, job, only, omega arith, refl, refl)
retried job_id (f ∷ fs) w job only (t, ts) le =
    let (w1, runs, job1, only1, count1, limit1, status1, keep1, dead1) =
      fail_one job_id f w job only t in
    let (w2, runs2, job2, only2, count2, limit2, keep2) =
      retried job_id fs w1 job1 only1 ts (rw limit1 (omega arith)) in
    (
      w2,
      rw (runs, fail_all) runs2,
      job2,
      only2,
      omega arith,
      limit2 ∙ limit1,
      keep2 ∙ keep1 (ground arith),
    )

-- A job limited by the threshold alone, whose failures are none of them terminal, goes through
-- failures up to the threshold without a letter; the next one leaves it dead, with a letter that
-- counts one failure more than the threshold.
pub dead_after_threshold :
    (job_id : String) (fs : List Failure) (last : Failure) (w : World) (job : DeployJob)
    → OnlyThreshold job_id w job
    → All (λ (f : Failure). is_terminal_failure f.error ≡ false) fs
    → is_terminal_failure last.error ≡ false
    → job.retry_count + length fs ≡ w.job_store.dlq_threshold
    → (w1 w2 : World) × (fail_all job_id fs w ≡ some w1)
      × (w1.dlq ≡ w.dlq)
      × (fail_all job_id (last ∷ []) w1 ≡ some w2)
      × (job' : DeployJob) × (JsMap.get job_id w2.job_store.jobs ≡ some job')
      × (job'.status ≡ dead)
      × (letter : DlqRecord) × (JsMap.get last.drawn.dlq_id w2.dlq.records ≡ some letter)
      × (letter.original_job_id ≡ job_id)
      × (letter.failure_count ≡ w.job_store.dlq_threshold + 1)
unfolding fail_all
dead_after_threshold job_id fs last w job only ts t eq =
    let (w1, runs1, job1, only1, count1, limit1, keep1) =
      retried job_id fs w job only ts (omega arith) in
    let (w2, runs2, job2, only2, count2, limit2, status2, keep2, dead2) =
      fail_one job_id last w1 job1 only1 t in
    let over : ltb w1.job_store.dlq_threshold (job1.retry_count + 1) ≡ true = ground arith in
    let lettered = dead2 over in
    (
      w1,
      w2,
      runs1,
      keep1,
      rw (runs2, fail_all) refl,
      job2,
      only2.found,
      status2 ∙ (rw over refl),
      lettered.letter,
      lettered.in_dlq,
      lettered.of_job,
      lettered.failures ∙ (omega arith),
    )
