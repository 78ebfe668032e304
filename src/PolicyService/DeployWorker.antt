-- ===== src/PolicyService/DeployWorker.antt =====
-- services/policy-service/src/policy-deploy-worker.ts: the memory store of deployment jobs and the
-- worker's step. The policy repository, the deployer, the clock and the drawn ids are arguments.
-- An error is given by its message as `summarizeError` leaves it, its raw message and the mark that
-- `TerminalDeployError` carries; the patterns of `isTerminalFailure` are texts looked for in the
-- message in lower case. `computeBackoff` stands in ServiceKit/Retry.
pub mod Failures
pub mod Durable
mod Tests
use text.Mathlib.Text.{starts_with}
use mathlib.Core.Option
use Prim.Native.String
use vellar_dapp.JsMap
use vellar_dapp.JsMap.{JsMap}
use vellar_dapp.PolicyService.DlqStore.{
  Network, Payload, DlqStore, DlqRecord, NewDlqRecord, insert, record_audit, depth, dlq_move, moved,
}
use vellar_dapp.Prelude.{
  ltb, leb, if◌then◌else◌, get_or, ℕ, ◌+◌, String, ◌<>◌, Bool, true, false, not, ◌&&◌, ◌||◌, Option,
  none, some, [], ◌∷◌, map, str_eq, contains, to_lower,
}

abbrev pub default_dlq_threshold : ℕ
default_dlq_threshold = 5

abbrev pub max_retries : ℕ
max_retries = default_dlq_threshold

pub record DeployError : Type 0 where
  pub is_terminal : Bool
  pub message : String
  pub summary : String

-- The part of /schema version .* does not exist/ after the first words.
after_schema_version : String → Bool
after_schema_version String.[] = false
after_schema_version (String.◌∷◌ c s) =
    (starts_with (String.◌∷◌ c s) "schema version " && contains (String.◌∷◌ c s) " does not exist")
    || after_schema_version s

unfoldable pub is_terminal_failure : DeployError → Bool
unfolding to_lower after_schema_version
is_terminal_failure error =
    let message = to_lower error.message in
    error.is_terminal
    || (contains message "policy not found"
        || (contains message "not contract-enforced"
            || (contains message "invalid template"
                || (contains message "unknown policy type"
                    || (contains message "missing constructor args"
                        || (after_schema_version message
                            || (contains message "unattributable publisher"
                                || contains message "terminal")))))))

pub data Status : Type 0 where
  pending in_progress completed failed dead : Status

pub record DeployJob : Type 0 where
  pub id : String
  pub policy_id : String
  pub wallet : String
  pub network : Network
  pub status : Status
  pub retry_count : ℕ
  pub max_attempts : Option ℕ
  pub last_error : Option String
  pub last_failed_at : Option ℕ
  pub first_failed_at : Option ℕ
  pub created_at : ℕ
  pub updated_at : ℕ

pub record DeployJobStore : Type 0 where
  pub jobs : JsMap DeployJob
  pub max_attempts : Option ℕ
  pub dlq_threshold : ℕ

-- The store with the dead letters, and the calls on the metrics: how many entries were counted, and
-- the depth that the gauge shows.
pub record World : Type 0 where
  pub job_store : DeployJobStore
  pub dlq : DlqStore
  pub dlq_enqueue_total : ℕ
  pub dlq_depth_gauge : ℕ

unfoldable pub new_job_store : Option ℕ → Option ℕ → DeployJobStore
new_job_store max_attempts dlq_threshold = record {
  jobs = [];
  max_attempts = max_attempts;
  dlq_threshold = get_or dlq_threshold max_retries;
}

abbrev pub is_pending : Status → Bool
is_pending pending = true
is_pending _ = false

abbrev pub claimed : ℕ → DeployJob → DeployJob
claimed now job = record job { status = in_progress; updated_at = now }

-- The loop of `claim`: the first pending job, marked in its place.
unfoldable pub claim_from : ℕ → JsMap DeployJob → JsMap DeployJob × Option DeployJob
claim_from now [] = ([], none)
claim_from now ((id, job) ∷ rest) =
    let (rest', found) = claim_from now rest in
    if is_pending job.status
    then ((id, claimed now job) ∷ rest, some (claimed now job))
    else ((id, job) ∷ rest', found)

unfoldable pub claim : ℕ → DeployJobStore → DeployJobStore × Option DeployJob
unfolding claim_from
claim now store = let (jobs, job) = claim_from now store.jobs in (record store { jobs = jobs }, job)

abbrev pub set_job : DeployJob → String → DeployJobStore → DeployJobStore
set_job job id store = record store { jobs = JsMap.set id job store.jobs }

-- `none` is the error "Job not found".
unfoldable pub mark_completed : String → ℕ → DeployJobStore → Option DeployJobStore
mark_completed job_id now store = elim (JsMap.get job_id store.jobs) [
  | none ↦ none
  | some job ↦ some (set_job (record job { status = completed; updated_at = now }) job_id store)
]

pub record FailureOptions : Type 0 where
  pub max_attempts : Option ℕ
  pub dlq_threshold : Option ℕ

-- What one failure writes to the job, its status aside.
abbrev pub count_failure : DeployError → ℕ → DeployJob → DeployJob
count_failure error now job = record job {
  retry_count = job.retry_count + 1;
  last_error = some error.summary;
  last_failed_at = some now;
  first_failed_at = some (get_or job.first_failed_at now);
  updated_at = now;
}

abbrev pub first_given : Option ℕ → Option ℕ → Option ℕ → Option ℕ
first_given (some n) b c = some n
first_given none (some n) c = some n
first_given none none c = c

abbrev pub exceeds : Option ℕ → ℕ → Bool
exceeds none count = false
exceeds (some most) count = leb most count

-- The condition for the dead-letter queue; `job` has this failure counted.
unfoldable pub is_exhausted : FailureOptions → DeployError → DeployJob → DeployJobStore → Bool
is_exhausted options error job store =
    is_terminal_failure error
    || (exceeds (first_given options.max_attempts job.max_attempts store.max_attempts)
          job.retry_count
        || ltb (get_or options.dlq_threshold store.dlq_threshold) job.retry_count)

abbrev pub dead_letter : String → DeployError → ℕ → DeployJob → NewDlqRecord
dead_letter job_id error now job = record {
  original_job_id = job_id;
  policy_id = job.policy_id;
  job_type = "policy_deploy";
  payload = some (record {
    wallet = some job.wallet;
    network = some job.network;
    policy_id = some job.policy_id;
    terminal = is_terminal_failure error;
  });
  last_error = error.summary;
  failure_count = job.retry_count;
  first_failed_at = get_or job.first_failed_at now;
  last_failed_at = now;
}

-- The ids that the dead-letter store draws for the record and the audit event.
pub record Drawn : Type 0 where
  pub dlq_id : String
  pub audit_id : String

-- The branch for the dead-letter queue; `job` has this failure counted.
unfoldable pub move_to_dlq : String → DeployError → ℕ → Drawn → DeployJob → World → World
unfolding insert record_audit depth
move_to_dlq job_id error now drawn job w =
    let (dlq, dlq_record) = insert (dead_letter job_id error now job) drawn.dlq_id now w.dlq in
    record {
      job_store = set_job (record job { status = dead }) job_id w.job_store;
      dlq =
          record_audit
            (record {
              dlq_id = dlq_record.id;
              event_type = dlq_move;
              actor = none;
              metadata = moved job_id error.summary job.retry_count (is_terminal_failure error);
            })
            drawn.audit_id now dlq;
      dlq_enqueue_total = w.dlq_enqueue_total + 1;
      dlq_depth_gauge = depth dlq;
    }

-- `none` is the error "Job not found".
unfoldable pub handle_failure :
    String → DeployError → FailureOptions → ℕ → Drawn → World → Option World
unfolding move_to_dlq is_exhausted
handle_failure job_id error options now drawn w = elim (JsMap.get job_id w.job_store.jobs) [
  | none ↦ none
  | some job ↦
      let counted = count_failure error now job in
      some (
        if is_exhausted options error counted w.job_store
        then move_to_dlq job_id error now drawn counted w
        else record w {
          job_store = set_job (record counted { status = pending }) job_id w.job_store;
        })
]

unfoldable pub add_job : DeployJob → DeployJobStore → DeployJobStore
add_job job store = set_job job job.id store

-- The part of a policy that the worker reads; constructor arguments are opaque.
pub record Enforcement {ℓ} (A : Type ℓ) : Type ℓ where
  pub kind : String
  pub constructor_args : Option A

abbrev pub policy_not_found : String → DeployError
policy_not_found id = record {
  is_terminal = true;
  message = "Policy not found: " <> id;
  summary = "Policy not found: " <> id;
}

abbrev pub not_enforced : String → DeployError
not_enforced id = record {
  is_terminal = true;
  message = "Policy is not contract-enforced: " <> id;
  summary = "Policy is not contract-enforced: " <> id;
}

abbrev pub default_options : FailureOptions
default_options = record { max_attempts = none; dlq_threshold = none }

module _ {ℓ} {A : Type ℓ} (find_policy : String → Option (Enforcement A))
    (deploy_instance : String → A → Option DeployError) where
  abbrev deploy_with : DeployJob → Option A → Option DeployError
  deploy_with job none = some (not_enforced job.policy_id)
  deploy_with job (some args) = deploy_instance job.wallet args

  -- The `try` block up to the deployment: `none` if it was deployed, else what was thrown.
  unfoldable pub try_deploy : DeployJob → Option (Enforcement A) → Option DeployError
  try_deploy job none = some (policy_not_found job.policy_id)
  try_deploy job (some e) =
      if str_eq e.kind "policy-contract"
      then deploy_with job e.constructor_args
      else some (not_enforced job.policy_id)

  -- With the outcome of the deployment; `none` where a store throws.
  unfoldable pub settle : DeployJob → Option DeployError → ℕ → Drawn → World → Option World
  unfolding mark_completed handle_failure
  settle job none now drawn w =
      Option.map (λ store. record w { job_store = store }) (mark_completed job.id now w.job_store)
  settle job (some err) now drawn w = handle_failure job.id err default_options now drawn w

  abbrev process_claimed : Option DeployJob → ℕ → Drawn → World → Option (World × Bool)
  process_claimed none now drawn w = some (w, false)
  process_claimed (some job) now drawn w =
      Option.map (λ w'. (w', true))
        (settle job (try_deploy job (find_policy job.policy_id)) now drawn w)

  unfoldable pub process_deployment_job : ℕ → Drawn → World → Option (World × Bool)
  unfolding claim settle try_deploy
  process_deployment_job now drawn w =
      let (store, job) = claim now w.job_store in
      process_claimed job now drawn (record w { job_store = store })
