-- ===== src/PolicyService/AdminDlq/Requeue.antt =====
-- services/policy-service/src/admin-dlq.ts: what a requeue does.
use vellar_dapp.JsMap
use vellar_dapp.PolicyService.DlqStore.{
  DlqRecord, AuditEvent, DlqStore, find, Updates, assign, update, record_audit,
}
use vellar_dapp.PolicyService.DeployWorker.{DeployJob}
use vellar_dapp.PolicyService.AdminDlq.{
  Reply, created, refused, Stores, Request, requeue_job, in_progress_is, requeue_done,
  requeue_event, failed_event, requeue_failed, requeue_marked, requeue_found, requeue,
}
use vellar_dapp.Prelude.{
  length, length-append, ℕ, ◌+◌, String, ◌≡◌, refl, ap, ◌∙◌, true, false, Option, none, some, List,
  arith, str_eq,
}

update-found :
    (id : String) (u : Updates) (now : ℕ) (store : DlqStore) (r : DlqRecord)
    → JsMap.get id store.records ≡ some r
    → update id u now store
      ≡ some (record store { records = JsMap.set id (assign u now r) store.records })
unfolding update
update-found id u now store r found = rw (found, update) refl

module _ {J : Type 0} where
  -- What a requeue answers and leaves, by what the job store did; `r'` is the entry afterwards.
  abbrev pub Answered :
      Request → DlqRecord → Stores J → Option J → DlqRecord → Stores J × Reply → Type 0
  Answered req r w none r' (w', reply) =
      (reply ≡ refused 500 "requeue_failed")
      × (w'.jobs ≡ w.jobs)
      × (w'.dlq_requeue_total ≡ w.dlq_requeue_total)
      × (r'.requeue_count ≡ r.requeue_count)
  Answered req r w (some jobs) r' (w', reply) =
      (reply ≡ created req.new_job_id req.dlq_id)
      × (w'.jobs ≡ jobs)
      × (w'.dlq_requeue_total ≡ w.dlq_requeue_total + 1)
      × (r'.requeue_count ≡ r.requeue_count + 1)

  -- The entry is stored and free, and one audit event was added.
  abbrev pub Settled : Request → Stores J → DlqRecord → Stores J → Type 0
  Settled req w r' w' =
      (JsMap.get req.dlq_id w'.dlq.records ≡ some r')
      × (r'.requeue_in_progress ≡ false)
      × (r'.archived ≡ false)
      × (length w'.dlq.audit_log ≡ length w.dlq.audit_log + 1)

module _ {J : Type 0} (insert_job : DeployJob → J → Option J) (insert_error : String) where
  after_failure : String → Request → DlqRecord → DlqStore → Stores J → Stores J
  unfolding record_audit
  after_failure user req r1 dlq w = record w {
    dlq = record_audit (failed_event user req insert_error) req.audit_id req.now (record dlq {
      records = JsMap.set req.dlq_id (assign (in_progress_is false) req.now r1) dlq.records;
    });
  }

  after_success : String → Request → DlqRecord → DlqRecord → DlqStore → J → Stores J → Stores J
  unfolding record_audit
  after_success user req r r1 dlq jobs w = record {
    dlq = record_audit (requeue_event user req r) req.audit_id req.now (record dlq {
      records = JsMap.set req.dlq_id (assign (requeue_done user req.now r) req.now r1) dlq.records;
    });
    jobs = jobs;
    dlq_requeue_total = w.dlq_requeue_total + 1;
  }

  requeue_marked-failed :
      (user : String) (req : Request) (r r1 : DlqRecord) (dlq : DlqStore) (w : Stores J)
      → insert_job (requeue_job req r) w.jobs ≡ none
      → JsMap.get req.dlq_id dlq.records ≡ some r1
      → requeue_marked insert_job insert_error user req r dlq w
        ≡ (after_failure user req r1 dlq w, refused 500 "requeue_failed")
  unfolding requeue_marked requeue_failed after_failure
  requeue_marked-failed user req r r1 dlq w e found =
      rw
        (
          e,
          requeue_marked,
          requeue_failed,
          update-found req.dlq_id (in_progress_is false) req.now dlq r1 found,
        )
        refl

  requeue_marked-succeeded :
      (user : String) (req : Request) (r r1 : DlqRecord) (dlq : DlqStore) (w : Stores J) (jobs : J)
      → insert_job (requeue_job req r) w.jobs ≡ some jobs
      → JsMap.get req.dlq_id dlq.records ≡ some r1
      → requeue_marked insert_job insert_error user req r dlq w
        ≡ (after_success user req r r1 dlq jobs w, created req.new_job_id req.dlq_id)
  unfolding requeue_marked after_success
  requeue_marked-succeeded user req r r1 dlq w jobs e found =
      rw
        (
          e,
          requeue_marked,
          update-found req.dlq_id (requeue_done user req.now r) req.now dlq r1 found,
        )
        refl

  requeue_marked-Answered :
      (user : String) (req : Request) (r r1 : DlqRecord) (dlq : DlqStore) (w : Stores J)
      (outcome : Option J)
      → insert_job (requeue_job req r) w.jobs ≡ outcome
      → JsMap.get req.dlq_id dlq.records ≡ some r1
      → r1.archived ≡ false
      → r1.requeue_count ≡ r.requeue_count
      → dlq.audit_log ≡ w.dlq.audit_log
      → (out : Stores J × Reply) × (requeue_marked insert_job insert_error user req r dlq w ≡ out)
        × (r' : DlqRecord) × Settled req w r' out.0
        × Answered req r w outcome r' out
  unfolding after_failure after_success record_audit assign
  requeue_marked-Answered user req r r1 dlq w none e found live same log = (
    (after_failure user req r1 dlq w, refused 500 "requeue_failed"),
    requeue_marked-failed user req r r1 dlq w e found,
    assign (in_progress_is false) req.now r1,
    (
      JsMap.get-set_self req.dlq_id (assign (in_progress_is false) req.now r1) dlq.records,
      refl,
      live,
      length-append dlq.audit_log _ ∙ ap (λ (l : List AuditEvent). length l + 1) log,
    ),
    (refl, refl, refl, same),
  )
  requeue_marked-Answered user req r r1 dlq w (some jobs) e found live same log = (
    (after_success user req r r1 dlq jobs w, created req.new_job_id req.dlq_id),
    requeue_marked-succeeded user req r r1 dlq w jobs e found,
    assign (requeue_done user req.now r) req.now r1,
    (
      JsMap.get-set_self req.dlq_id (assign (requeue_done user req.now r) req.now r1) dlq.records,
      refl,
      live,
      length-append dlq.audit_log _ ∙ ap (λ (l : List AuditEvent). length l + 1) log,
    ),
    (refl, refl, refl, refl),
  )

  requeue-marked :
      (req : Request) (user : String) (r : DlqRecord) (w : Stores J)
      → req.user_id ≡ some user
      → str_eq user "" ≡ false
      → JsMap.get req.dlq_id w.dlq.records ≡ some r
      → r.archived ≡ false
      → r.requeue_in_progress ≡ false
      → requeue insert_job insert_error req w
        ≡ requeue_marked insert_job insert_error user req r
            (record w.dlq {
              records = JsMap.set req.dlq_id (assign (in_progress_is true) req.now r) w.dlq.records;
            })
            w
  unfolding requeue requeue_found find
  requeue-marked req user r w admin named found live idle =
      ground (arith, update-found req.dlq_id (in_progress_is true) req.now w.dlq r found)

  -- A requeue by an administrator of an entry that is neither archived nor being requeued. If the job
  -- store takes the new job, a pending one with no retry, the answer is 201, the entry counts one
  -- requeue more, and the counter moves; if it throws, the answer is 500 and the entry counts as many
  -- as before. Either way the entry is live, not left in progress, and one audit event is added.
  pub requeue_lem :
      (req : Request) (user : String) (r : DlqRecord) (w : Stores J)
      → req.user_id ≡ some user
      → str_eq user "" ≡ false
      → JsMap.get req.dlq_id w.dlq.records ≡ some r
      → r.archived ≡ false
      → r.requeue_in_progress ≡ false
      → (out : Stores J × Reply) × (requeue insert_job insert_error req w ≡ out)
        × (r' : DlqRecord) × Settled req w r' out.0
        × Answered req r w (insert_job (requeue_job req r) w.jobs) r' out
  unfolding assign
  requeue_lem req user r w admin named found live idle =
      let marked = assign (in_progress_is true) req.now r in
      let (out, runs, r', settled, answered) =
        requeue_marked-Answered user req r marked
          (record w.dlq { records = JsMap.set req.dlq_id marked w.dlq.records }) w
          (insert_job (requeue_job req r) w.jobs) refl
          (JsMap.get-set_self req.dlq_id marked w.dlq.records) live refl refl in
      (out, requeue-marked req user r w admin named found live idle ∙ runs, r', settled, answered)
