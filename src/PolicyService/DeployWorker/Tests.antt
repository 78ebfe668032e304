-- ===== src/PolicyService/DeployWorker/Tests.antt =====
-- services/policy-service/src/policy-deploy-worker.ts: a job that fails until it is dead.
use vellar_dapp.JsMap
use vellar_dapp.PolicyService.DlqStore.{testnet, DlqRecord, create_memory_dlq_store}
use vellar_dapp.PolicyService.DeployWorker.{
  DeployError, after_schema_version, is_terminal_failure, pending, dead, DeployJob, World,
  new_job_store, count_failure, is_exhausted, Drawn, handle_failure, add_job, default_options,
}
use vellar_dapp.PolicyService.DeployWorker.Failures.{EndsAttempts, Lettered, handle_failure_lem}
use vellar_dapp.PolicyService.DeployWorker.Durable.{Failure, fail_all, dead_after_threshold}
use vellar_dapp.Prelude.{
  ℕ, ◌+◌, String, ◌<>◌, ◌≡◌, if◌then◌else◌, str_eq, refl, ◌⊎◌, true, false, none, some, List, [],
  ◌∷◌, to_lower,
}

abbrev error_of : String → DeployError
error_of m = record { is_terminal = false; message = m; summary = m }

abbrev job1 : DeployJob
job1 = record {
  id = "job-1";
  policy_id = "p1";
  wallet = "C1";
  network = testnet;
  status = pending;
  retry_count = 3;
  max_attempts = none;
  last_error = none;
  last_failed_at = none;
  first_failed_at = none;
  created_at = 0;
  updated_at = 0;
}

abbrev drawn_of : String → Drawn
drawn_of s = record { dlq_id = "d-" <> s; audit_id = "a-" <> s }

abbrev start : World
start = record {
  job_store = add_job job1 (new_job_store none none);
  dlq = create_memory_dlq_store;
  dlq_enqueue_total = 0;
  dlq_depth_gauge = 0;
}

abbrev failure_at : ℕ → String → Failure
failure_at now m = record { error = error_of m; now = now; drawn = drawn_of m }

handle_failure_lem_example :
    (w' : World) × (handle_failure "job-1"
        (error_of "Invalid Template")
        default_options
        5
        (drawn_of "x")
        start
      ≡ some w')
    × (job' : DeployJob) × (job'.retry_count ≡ job1.retry_count + 1)
    × ((j : String)
        → JsMap.get j w'.job_store.jobs
          ≡ (if str_eq "job-1" j then some job' else JsMap.get j start.job_store.jobs))
    × ((EndsAttempts default_options
            (error_of "Invalid Template")
            job1
            start.job_store
            (job1.retry_count + 1)
          × (job'.status ≡ dead)
          × Lettered "job-1" (error_of "Invalid Template") 5 (drawn_of "x") job1 start w')
        ⊎ ((¬ EndsAttempts default_options
              (error_of "Invalid Template")
              job1
              start.job_store
              (job1.retry_count + 1))
            × (job'.status ≡ pending)
            × (w'.dlq ≡ start.dlq)))
unfolding add_job new_job_store JsMap.get JsMap.set
handle_failure_lem_example =
    handle_failure_lem "job-1" (error_of "Invalid Template") default_options 5 (drawn_of "x") start
      job1 refl

terminal_at_once :
    is_exhausted default_options
      (error_of "Invalid Template")
      (count_failure (error_of "Invalid Template") 5 job1)
      start.job_store
    ≡ true
unfolding is_exhausted is_terminal_failure to_lower after_schema_version add_job new_job_store
terminal_at_once = refl

-- Two failures reach the threshold of five.
abbrev two_failures : List Failure
two_failures = failure_at 5 "timeout" ∷ failure_at 9 "rpc down" ∷ []

dead_after_threshold_example :
    (w1 w2 : World) × (fail_all "job-1" two_failures start ≡ some w1)
    × (w1.dlq ≡ start.dlq)
    × (fail_all "job-1" (failure_at 12 "gone" ∷ []) w1 ≡ some w2)
    × (job' : DeployJob) × (JsMap.get "job-1" w2.job_store.jobs ≡ some job')
    × (job'.status ≡ dead)
    × (letter : DlqRecord) × (JsMap.get "d-gone" w2.dlq.records ≡ some letter)
    × (letter.original_job_id ≡ "job-1")
    × (letter.failure_count ≡ start.job_store.dlq_threshold + 1)
unfolding add_job new_job_store JsMap.get JsMap.set is_terminal_failure to_lower
    after_schema_version
dead_after_threshold_example =
    dead_after_threshold "job-1" two_failures (failure_at 12 "gone") start job1
      (record { found = refl; no_job_maximum = refl; no_store_maximum = refl }) (refl, (refl, tt))
      refl refl
