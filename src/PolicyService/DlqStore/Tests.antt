-- ===== src/PolicyService/DlqStore/Tests.antt =====
-- services/policy-service/src/dlq-store.ts: a store that exercises the theorems.
use vellar_dapp.PolicyService.DlqStore.{
  create_memory_dlq_store, DlqRecord, NewDlqRecord, DlqStore, insert, Updates, no_updates,
}
use vellar_dapp.Prelude.{String, false, none, some}

abbrev letter_of : String → NewDlqRecord
letter_of job = record {
  original_job_id = job;
  policy_id = "p1";
  job_type = "policy_deploy";
  payload = none;
  last_error = "timeout";
  failure_count = 6;
  first_failed_at = 10;
  last_failed_at = 60;
}

abbrev one : DlqStore × DlqRecord
one = insert (letter_of "job-1") "d1" 60 create_memory_dlq_store

abbrev two : DlqStore
two = (insert (letter_of "job-2") "d2" 70 one.0).0

abbrev requeued_once : Updates
requeued_once = record no_updates { requeue_count = some 1; requeue_in_progress = some false }
