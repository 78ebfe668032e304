-- ===== src/PolicyService/AdminDlq/Tests.antt =====
-- services/policy-service/src/admin-dlq.ts: an entry that is requeued.
use vellar_dapp.JsMap
use vellar_dapp.PolicyService.DlqStore.{
  DlqRecord, NewDlqRecord, DlqStore, create_memory_dlq_store, insert,
}
use vellar_dapp.PolicyService.DeployWorker.{DeployJob}
use vellar_dapp.PolicyService.AdminDlq.{Reply, Stores, Request, requeue_job, requeue}
use vellar_dapp.PolicyService.AdminDlq.Requeue.{Answered, Settled, requeue_lem}
use vellar_dapp.Prelude.{◌≡◌, refl, Option, none, some, List, [], ◌∷◌}

abbrev letter : NewDlqRecord
letter = record {
  original_job_id = "job-1";
  policy_id = "p1";
  job_type = "policy_deploy";
  payload = none;
  last_error = "timeout";
  failure_count = 6;
  first_failed_at = 10;
  last_failed_at = 60;
}

abbrev with_letter : DlqStore × DlqRecord
with_letter = insert letter "d1" 60 create_memory_dlq_store

abbrev stores : Stores (List DeployJob)
stores = record { dlq = with_letter.0; jobs = []; dlq_requeue_total = 0 }

abbrev insert_job : DeployJob → List DeployJob → Option (List DeployJob)
insert_job job jobs = some (job ∷ jobs)

abbrev request : Request
request = record {
  user_id = some "root";
  dlq_id = "d1";
  new_job_id = "job-2";
  audit_id = "a1";
  now = 90;
}

requeue_lem_example :
    (out : Stores (List DeployJob) × Reply) × (requeue insert_job "full" request stores ≡ out)
    × (r' : DlqRecord) × Settled request stores r' out.0
    × Answered request with_letter.1 stores (some (requeue_job request with_letter.1 ∷ [])) r' out
unfolding insert JsMap.get JsMap.set
requeue_lem_example =
    requeue_lem insert_job "full" request "root" with_letter.1 stores refl refl refl refl refl
