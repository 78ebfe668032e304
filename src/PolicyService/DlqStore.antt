-- ===== src/PolicyService/DlqStore.antt =====
-- services/policy-service/src/dlq-store.ts: the memory store of dead letters and its audit log.
-- Times are milliseconds, the drawn ids and the clock are arguments. What `payload` and `metadata`
-- hold is what the deployment worker and the admin routes put there. The redaction of
-- `summarizeError` is not modelled: its result is an argument of the callers.
pub mod Records
mod Tests
use vellar_dapp.JsMap
use vellar_dapp.JsMap.{JsMap}
use vellar_dapp.Prelude.{
  leb, if◌then◌else◌, get_or, length, take, drop, filter, ℕ, zero, suc, String, Bool, false, not,
  ◌&&◌, Option, none, some, List, [], ◌∷◌, ◌++◌, str_eq,
}

pub data Network : Type 0 where
  testnet mainnet : Network

pub record Payload : Type 0 where
  pub wallet : Option String
  pub network : Option Network
  pub policy_id : Option String
  pub terminal : Bool

pub record DlqRecord : Type 0 where
  pub id : String
  pub original_job_id : String
  pub policy_id : String
  pub job_type : String
  pub payload : Option Payload
  pub last_error : String
  pub failure_count : ℕ
  pub first_failed_at : ℕ
  pub last_failed_at : ℕ
  pub archived : Bool
  pub requeue_count : ℕ
  pub requeue_in_progress : Bool
  pub last_requeued_at : Option ℕ
  pub last_requeued_by : Option String
  pub created_at : ℕ
  pub updated_at : ℕ

-- What `insert` takes: the record without what the store sets.
pub record NewDlqRecord : Type 0 where
  pub original_job_id : String
  pub policy_id : String
  pub job_type : String
  pub payload : Option Payload
  pub last_error : String
  pub failure_count : ℕ
  pub first_failed_at : ℕ
  pub last_failed_at : ℕ

pub data EventType : Type 0 where
  dlq_move dlq_requeue dlq_requeue_failed dlq_archived : EventType

pub data Metadata : Type 0 where
  moved : String → String → ℕ → Bool → Metadata
  requeued : String → String → String → Metadata
  requeue_error : String → Metadata
  archive_reason : String → Metadata

pub record NewAuditEvent : Type 0 where
  pub dlq_id : String
  pub event_type : EventType
  pub actor : Option String
  pub metadata : Metadata

pub record AuditEvent : Type 0 where
  pub id : String
  pub dlq_id : String
  pub event_type : EventType
  pub actor : Option String
  pub metadata : Metadata
  pub created_at : ℕ

pub record DlqStore : Type 0 where
  pub records : JsMap DlqRecord
  pub audit_log : List AuditEvent

abbrev pub create_memory_dlq_store : DlqStore
create_memory_dlq_store = record { records = []; audit_log = [] }

unfoldable pub insert : NewDlqRecord → String → ℕ → DlqStore → DlqStore × DlqRecord
insert r id now store =
    let dlq_record : DlqRecord = record {
      id = id;
      original_job_id = r.original_job_id;
      policy_id = r.policy_id;
      job_type = r.job_type;
      payload = r.payload;
      last_error = r.last_error;
      failure_count = r.failure_count;
      first_failed_at = r.first_failed_at;
      last_failed_at = r.last_failed_at;
      archived = false;
      requeue_count = 0;
      requeue_in_progress = false;
      last_requeued_at = none;
      last_requeued_by = none;
      created_at = now;
      updated_at = now;
    } in
    (record store { records = JsMap.set id dlq_record store.records }, dlq_record)

abbrev pub visible : Bool → Option DlqRecord → Option DlqRecord
visible include_archived none = none
visible include_archived (some r) = if r.archived && not include_archived then none else some r

unfoldable pub find : String → Bool → DlqStore → Option DlqRecord
find id include_archived store = visible include_archived (JsMap.get id store.records)

pub record ListOptions : Type 0 where
  pub job_type : Option String
  pub limit : Option ℕ
  pub offset : Option ℕ
  pub include_archived : Bool

-- An empty text and the number 0 are falsy.
abbrev pub of_job_type : Option String → List DlqRecord → List DlqRecord
of_job_type none entries = entries
of_job_type (some t) entries =
    if str_eq t "" then entries else filter (λ (e : DlqRecord). str_eq e.job_type t) entries

abbrev pub take_limit : ℕ → List DlqRecord → List DlqRecord
take_limit zero entries = entries
take_limit (suc n) entries = take (suc n) entries

unfoldable pub matching : ListOptions → DlqStore → List DlqRecord
matching options store =
    let entries = of_job_type options.job_type (JsMap.values store.records) in
    if options.include_archived then entries else filter (λ (e : DlqRecord). not e.archived) entries

unfoldable pub list : ListOptions → DlqStore → List DlqRecord × ℕ
unfolding matching
list options store =
    let entries = matching options store in
    (take_limit (get_or options.limit 0) (drop (get_or options.offset 0) entries), length entries)

unfoldable pub depth : DlqStore → ℕ
depth store = length (filter (λ (e : DlqRecord). not e.archived) (JsMap.values store.records))

-- The fields that `update` may change.
pub record Updates : Type 0 where
  pub requeue_count : Option ℕ
  pub archived : Option Bool
  pub requeue_in_progress : Option Bool
  pub last_requeued_at : Option ℕ
  pub last_requeued_by : Option String

abbrev pub no_updates : Updates
no_updates = record {
  requeue_count = none;
  archived = none;
  requeue_in_progress = none;
  last_requeued_at = none;
  last_requeued_by = none;
}

abbrev pub given {ℓ} : {A : Type ℓ} → Option A → Option A → Option A
given none old = old
given (some a) old = some a

-- `Object.assign(record, updates, { updated_at: now })`
unfoldable pub assign : Updates → ℕ → DlqRecord → DlqRecord
assign u now r = record r {
  requeue_count = get_or u.requeue_count r.requeue_count;
  archived = get_or u.archived r.archived;
  requeue_in_progress = get_or u.requeue_in_progress r.requeue_in_progress;
  last_requeued_at = given u.last_requeued_at r.last_requeued_at;
  last_requeued_by = given u.last_requeued_by r.last_requeued_by;
  updated_at = now;
}

-- `none` is the error "DLQ entry not found".
unfoldable pub update : String → Updates → ℕ → DlqStore → Option DlqStore
unfolding assign
update id u now store = elim (JsMap.get id store.records) [
  | none ↦ none
  | some r ↦ some (record store { records = JsMap.set id (assign u now r) store.records })
]

unfoldable pub record_audit : NewAuditEvent → String → ℕ → DlqStore → DlqStore
record_audit event id now store =
    let audit_event : AuditEvent = record {
      id = id;
      dlq_id = event.dlq_id;
      event_type = event.event_type;
      actor = event.actor;
      metadata = event.metadata;
      created_at = now;
    } in
    record store { audit_log = store.audit_log ++ audit_event ∷ [] }

-- `.sort((a, b) => time(b) - time(a))`, which is stable.
insert_newest : AuditEvent → List AuditEvent → List AuditEvent
insert_newest e [] = e ∷ []
insert_newest e (x ∷ xs) =
    if leb x.created_at e.created_at then e ∷ x ∷ xs else x ∷ insert_newest e xs

newest_first : List AuditEvent → List AuditEvent
newest_first [] = []
newest_first (e ∷ es) = insert_newest e (newest_first es)

unfoldable pub get_audit_trail : String → Option ℕ → DlqStore → List AuditEvent
unfolding newest_first insert_newest
get_audit_trail dlq_id limit store =
    take (get_or limit 50)
      (newest_first (filter (λ (e : AuditEvent). str_eq e.dlq_id dlq_id) store.audit_log))
