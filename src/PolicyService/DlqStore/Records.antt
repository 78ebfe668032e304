-- ===== src/PolicyService/DlqStore/Records.antt =====
-- services/policy-service/src/dlq-store.ts: what the operations do to the records.
use vellar_dapp.JsMap
use vellar_dapp.PolicyService.DlqStore.{
  DlqRecord, DlqStore, visible, find, depth, Updates, no_updates, assign, update,
}
use vellar_dapp.Prelude.{
  if◌then◌else◌, length, filter, ℕ, ◌+◌, String, ◌≡◌, refl, true, false, not, Option, none, some,
  [], ◌∷◌, arith, str_eq,
}

-- What an update leaves alone: everything but the administrative fields.
pub record SameLetter (a b : DlqRecord) : Type 0 where
  pub same_id : a.id ≡ b.id
  pub same_job : a.original_job_id ≡ b.original_job_id
  pub same_policy : a.policy_id ≡ b.policy_id
  pub same_job_type : a.job_type ≡ b.job_type
  pub same_payload : a.payload ≡ b.payload
  pub same_error : a.last_error ≡ b.last_error
  pub same_count : a.failure_count ≡ b.failure_count
  pub same_first : a.first_failed_at ≡ b.first_failed_at
  pub same_last : a.last_failed_at ≡ b.last_failed_at
  pub same_created : a.created_at ≡ b.created_at

pub assign-SameLetter : (u : Updates) (now : ℕ) (r : DlqRecord) → SameLetter r (assign u now r)
unfolding assign
assign-SameLetter u now r = ground arith

-- An update of an id that is there changes the record of this id alone, to one with the same id,
-- job, policy, job type, payload, error, count and times; it leaves the audit log and the ids.
pub update_lem :
    (id j : String) (u : Updates) (now : ℕ) (store : DlqStore) (r : DlqRecord)
    → JsMap.get id store.records ≡ some r
    → (store' : DlqStore) × (update id u now store ≡ some store')
      × (JsMap.get j store'.records
          ≡ (if str_eq id j then some (assign u now r) else JsMap.get j store.records))
      × SameLetter r (assign u now r)
      × (store'.audit_log ≡ store.audit_log)
unfolding update
update_lem id j u now store r found = (
  record store { records = JsMap.set id (assign u now r) store.records },
  rw (found, update) refl,
  JsMap.get-set id j (assign u now r) store.records,
  assign-SameLetter u now r,
  refl,
)

length-filter_archived :
    (id : String) (now : ℕ) (r : DlqRecord) (m : JsMap.JsMap DlqRecord)
    → JsMap.get id m ≡ some r
    → r.archived ≡ false
    → length (
          filter
            (λ (e : DlqRecord). not e.archived)
            (JsMap.values
              (JsMap.set id (assign (record no_updates { archived = some true }) now r) m)))
        + 1
      ≡ length (filter (λ (e : DlqRecord). not e.archived) (JsMap.values m))
unfolding JsMap.get JsMap.set JsMap.values assign
length-filter_archived id now r [] h a = cc
length-filter_archived id now r ((j, e) ∷ m) h a = ground (arith, length-filter_archived id now r m)

visible-some :
    (o : Option DlqRecord) (r : DlqRecord)
    → visible false o ≡ some r
    → (o ≡ some r) × (r.archived ≡ false)
visible-some o r h = ground arith

-- Archiving a record that is not archived succeeds, lowers the depth by one, and hides the record
-- from `find`, though not from a search that includes archived records.
pub archive_hides :
    (id : String) (now : ℕ) (store : DlqStore) (r : DlqRecord)
    → find id false store ≡ some r
    → (store' : DlqStore) × (update id (record no_updates { archived = some true }) now store
        ≡ some store')
      × (depth store' + 1 ≡ depth store)
      × (find id false store' ≡ none)
      × (find id true store' ≡ some (assign (record no_updates { archived = some true }) now r))
unfolding find depth assign update JsMap.set
archive_hides id now store r h =
    let archive : Updates = record no_updates { archived = some true } in
    let (found, live) = visible-some (JsMap.get id store.records) r h in
    let at_id : JsMap.get id (JsMap.set id (assign archive now r) store.records)
        ≡ some (assign archive now r) =
      JsMap.get-set_self id (assign archive now r) store.records in
    (
      record store { records = JsMap.set id (assign archive now r) store.records },
      rw (found, update) refl,
      length-filter_archived id now r store.records found live,
      rw at_id refl,
      rw at_id refl,
    )
