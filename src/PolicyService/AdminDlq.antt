-- ===== src/PolicyService/AdminDlq.antt =====
-- services/policy-service/src/admin-dlq.ts: the administrators' routes that change the dead letters,
-- on the memory store of dead letters. Who the request is from, the drawn ids and the clock are
-- arguments; `insert_job` is the job store's `addJob` or `insertJob`, `none` where it throws. Listing
-- and the views are not modelled.
pub mod Requeue
mod Tests
use vellar_dapp.PolicyService.DlqStore.{
  Network, testnet, mainnet, Payload, DlqRecord, NewDlqRecord, EventType, dlq_move, dlq_requeue,
  dlq_requeue_failed, dlq_archived, Metadata, moved, requeued, requeue_error, archive_reason,
  NewAuditEvent, AuditEvent, DlqStore, create_memory_dlq_store, insert, visible, find, ListOptions,
  of_job_type, take_limit, matching, list, depth, Updates, no_updates, given, assign, update,
  record_audit, get_audit_trail,
}
use vellar_dapp.PolicyService.DeployWorker.{
  default_dlq_threshold, max_retries, DeployError, is_terminal_failure, Status, pending,
  in_progress, completed, failed, dead, DeployJob, DeployJobStore, World, new_job_store, is_pending,
  claimed, claim_from, claim, set_job, mark_completed, FailureOptions, count_failure, first_given,
  exceeds, is_exhausted, dead_letter, Drawn, move_to_dlq, handle_failure, add_job, Enforcement,
  policy_not_found, not_enforced, default_options, try_deploy, settle, process_deployment_job,
}
use vellar_dapp.Prelude.{
  if◌then◌else◌, get_or, ℕ, ◌+◌, String, Bool, true, false, Option, none, some, str_eq,
}

-- What a route answers: the status and, for an error, its name.
pub data Reply : Type 0 where
  created : String → String → Reply
  no_content : Reply
  refused : ℕ → String → Reply
  crashed : Reply

abbrev pub unauthorized : Reply
unauthorized = refused 403 "unauthorized"

abbrev pub not_found : Reply
not_found = refused 404 "not_found"

-- The stores that the routes reach, and the counter of requeues.
pub record Stores (J : Type 0) : Type 0 where
  pub dlq : DlqStore
  pub jobs : J
  pub dlq_requeue_total : ℕ

-- The user, the id of the entry, the new job's id, the audit event's id and the time of a request.
pub record Request : Type 0 where
  pub user_id : Option String
  pub dlq_id : String
  pub new_job_id : String
  pub audit_id : String
  pub now : ℕ

abbrev pub payload_or_empty : Option Payload → Payload
payload_or_empty none = record { wallet = none; network = none; policy_id = none; terminal = false }
payload_or_empty (some p) = p

abbrev pub requeue_job : Request → DlqRecord → DeployJob
requeue_job req r = record {
  id = req.new_job_id;
  policy_id = r.policy_id;
  wallet = get_or (payload_or_empty r.payload).wallet "";
  network = get_or (payload_or_empty r.payload).network testnet;
  status = pending;
  retry_count = 0;
  max_attempts = none;
  last_error = none;
  last_failed_at = none;
  first_failed_at = none;
  created_at = req.now;
  updated_at = req.now;
}

abbrev pub in_progress_is : Bool → Updates
in_progress_is b = record no_updates { requeue_in_progress = some b }

abbrev pub requeue_done : String → ℕ → DlqRecord → Updates
requeue_done user now r = record no_updates {
  requeue_count = some (r.requeue_count + 1);
  last_requeued_at = some now;
  last_requeued_by = some user;
  requeue_in_progress = some false;
}

abbrev pub requeue_event : String → Request → DlqRecord → NewAuditEvent
requeue_event user req r = record {
  dlq_id = req.dlq_id;
  event_type = dlq_requeue;
  actor = some user;
  metadata = requeued r.original_job_id req.new_job_id r.policy_id;
}

abbrev pub failed_event : String → Request → String → NewAuditEvent
failed_event user req error = record {
  dlq_id = req.dlq_id;
  event_type = dlq_requeue_failed;
  actor = some user;
  metadata = requeue_error error;
}

abbrev pub archive_event : String → Request → NewAuditEvent
archive_event user req = record {
  dlq_id = req.dlq_id;
  event_type = dlq_archived;
  actor = some user;
  metadata = archive_reason "manual_archive";
}

module _ {J : Type 0} (insert_job : DeployJob → J → Option J) (insert_error : String) where
  -- The `catch` block.
  unfoldable pub requeue_failed : String → Request → DlqStore → Stores J → Stores J × Reply
  unfolding update record_audit
  requeue_failed user req dlq w = elim (update req.dlq_id (in_progress_is false) req.now dlq) [
    | none ↦ (record w { dlq = dlq }, crashed)
    | some dlq' ↦ (
      record w {
        dlq = record_audit (failed_event user req insert_error) req.audit_id req.now dlq';
      },
      refused 500 "requeue_failed",
    )
  ]

  -- The `try` block after the entry was marked; an update that throws is caught.
  unfoldable pub requeue_marked :
      String → Request → DlqRecord → DlqStore → Stores J → Stores J × Reply
  unfolding requeue_failed update record_audit
  requeue_marked user req r dlq w = elim (insert_job (requeue_job req r) w.jobs) [
    | none ↦ requeue_failed user req dlq w
    | some jobs ↦ elim (update req.dlq_id (requeue_done user req.now r) req.now dlq) [
      | none ↦ requeue_failed user req dlq (record w { jobs = jobs })
      | some dlq' ↦ (
        record {
          dlq = record_audit (requeue_event user req r) req.audit_id req.now dlq';
          jobs = jobs;
          dlq_requeue_total = w.dlq_requeue_total + 1;
        },
        created req.new_job_id req.dlq_id,
      )
    ]
  ]

  unfoldable pub requeue_found : String → Request → DlqRecord → Stores J → Stores J × Reply
  unfolding requeue_marked update
  requeue_found user req r w =
      if r.archived
      then (w, refused 409 "archived")
      else if r.requeue_in_progress
      then (w, refused 409 "in_progress")
      else elim (update req.dlq_id (in_progress_is true) req.now w.dlq) [
        | none ↦ requeue_failed user req w.dlq w
        | some dlq ↦ requeue_marked user req r dlq w
      ]

  -- POST /admin/dlq/:id/requeue; an empty user id is falsy.
  unfoldable pub requeue : Request → Stores J → Stores J × Reply
  unfolding requeue_found find
  requeue req w = elim req.user_id [
    | none ↦ (w, unauthorized)
    | some user ↦ if str_eq user "" then (w, unauthorized) else elim (find req.dlq_id true w.dlq) [
      | none ↦ (w, not_found)
      | some r ↦ requeue_found user req r w
    ]
  ]

module _ {J : Type 0} where
  unfoldable pub archive_found : String → Request → DlqRecord → Stores J → Stores J × Reply
  unfolding update record_audit
  archive_found user req r w =
      if r.archived
      then (w, refused 409 "already_archived")
      else elim (update req.dlq_id (record no_updates { archived = some true }) req.now w.dlq) [
        | none ↦ (w, crashed)
        | some dlq ↦ (
          record w { dlq = record_audit (archive_event user req) req.audit_id req.now dlq },
          no_content,
        )
      ]

  -- POST /admin/dlq/:id/archive
  unfoldable pub archive : Request → Stores J → Stores J × Reply
  unfolding archive_found find
  archive req w = elim req.user_id [
    | none ↦ (w, unauthorized)
    | some user ↦ if str_eq user "" then (w, unauthorized) else elim (find req.dlq_id true w.dlq) [
      | none ↦ (w, not_found)
      | some r ↦ archive_found user req r w
    ]
  ]
