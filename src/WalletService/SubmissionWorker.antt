-- ===== src/WalletService/SubmissionWorker.antt =====
-- services/wallet-service/src/worker/submission-worker.ts, db/pg-tx-store.ts and
-- submission-error-classifier.ts: one tick of the worker that submits transactions, on the table of
-- submissions. The table is a map by its primary key, the transaction's id, whose rows are read in
-- its order; the database answers every call. The submitter, the clock, the worker's id and the draw
-- that decides on a cleanup are arguments. `attempts`, the optional fields that no function writes,
-- the metrics and the log lines are left out.
pub mod Once
pub mod Stuck
mod Tests
use vellar_dapp.JsMap
use vellar_dapp.JsMap.{JsMap}
use vellar_dapp.Prelude.{
  ltb, if◌then◌else◌, length, take, filter, includes, ℕ, ◌+◌, String, Bool, true, false, not, ◌&&◌,
  Option, none, some, List, [], ◌∷◌, to_lower,
}

pub data SubmissionStatus : Type 0 where
  submitted processing succeeded failed dead_letter : SubmissionStatus

pub data SubmitterType : Type 0 where
  relayer sponsor hybrid : SubmitterType

pub record SubmissionRecord : Type 0 where
  pub signed_xdr : String
  pub network : String
  pub submitter_type : SubmitterType
  pub worker_id : String
  pub started_at : Option ℕ

pub record SubmissionRow : Type 0 where
  pub transaction_id : String
  pub status : SubmissionStatus
  pub record_data : SubmissionRecord
  pub created_at : ℕ
  pub updated_at : ℕ
  pub expires_at : Option ℕ

abbrev pub Table : Type 0
Table = JsMap SubmissionRow

abbrev pub in_flight_ttl_ms : ℕ
in_flight_ttl_ms = 300000

abbrev pub processed_ttl_ms : ℕ
processed_ttl_ms = 172800000

unfoldable pub check_transaction_status : String → Table → Option SubmissionStatus
check_transaction_status id table = elim (JsMap.get id table) [
  | none ↦ none
  | some row ↦ some row.status
]

abbrev pub in_flight_row : String → String → SubmissionRecord → ℕ → SubmissionRow
in_flight_row id worker_id r now = record {
  transaction_id = id;
  status = processing;
  record_data = record r { worker_id = worker_id; started_at = some now };
  created_at = now;
  updated_at = now;
  expires_at = some (now + in_flight_ttl_ms);
}

-- INSERT ... ON CONFLICT DO NOTHING
unfoldable pub mark_in_flight : String → String → SubmissionRecord → ℕ → Table → Table × Bool
mark_in_flight id worker_id r now table = elim (JsMap.get id table) [
  | none ↦ (JsMap.set id (in_flight_row id worker_id r now) table, true)
  | some row ↦ (table, false)
]

-- UPDATE ... WHERE transaction_id = id
unfoldable pub update_row : String → (SubmissionRow → SubmissionRow) → Table → Table
update_row id change table = elim (JsMap.get id table) [
  | none ↦ table
  | some row ↦ JsMap.set id (change row) table
]

abbrev pub mark_processed : String → ℕ → Table → Table
mark_processed id now table =
    update_row id
      (λ row. record row {
        status = succeeded;
        updated_at = now;
        expires_at = some (now + processed_ttl_ms);
      })
      table

abbrev pub mark_failed : String → ℕ → Table → Table
mark_failed id now table =
    update_row id (λ row. record row { status = failed; updated_at = now }) table

abbrev pub mark_dead_letter : String → ℕ → Table → Table
mark_dead_letter id now table =
    update_row id (λ row. record row { status = dead_letter; updated_at = now }) table

abbrev pub clear_in_flight_lock : String → ℕ → Table → Table
clear_in_flight_lock id now table =
    update_row id (λ row. record row { status = submitted; updated_at = now; expires_at = none })
      table

abbrev pub is_expirable : SubmissionStatus → Bool
is_expirable processing = true
is_expirable succeeded = true
is_expirable _ = false

abbrev pub has_expired : ℕ → SubmissionRow → Bool
has_expired now row =
    is_expirable row.status && elim row.expires_at [ none ↦ false | some at ↦ ltb at now ]

unfoldable pub cleanup_expired_records : ℕ → Table → Table × ℕ
cleanup_expired_records now [] = ([], 0)
cleanup_expired_records now ((id, row) ∷ rest) =
    let (kept, count) = cleanup_expired_records now rest in
    if has_expired now row then (kept, count + 1) else ((id, row) ∷ kept, count)

-- What the submitter throws: a `SubmissionError`, with its code, or something else.
pub data SubmissionThrown : Type 0 where
  submission_error : String → SubmissionThrown
  other_error : SubmissionThrown

abbrev pub permanent_codes : List String
permanent_codes =
    "sponsor_bad_tx" ∷ "sponsor_simulation_failed" ∷ "sponsor_fee_too_high"
    ∷ "sponsor_budget_exceeded" ∷ "relayer_not_configured" ∷ "tx_failed" ∷ []

-- Every branch but the first of `isTransientSubmissionFailure` returns true.
unfoldable pub is_transient_submission_failure : SubmissionThrown → Bool
unfolding to_lower
is_transient_submission_failure (submission_error code) =
    not (includes permanent_codes (to_lower code))
is_transient_submission_failure other_error = true

pub data Submission : Type 0 where
  hash_of : String → Submission
  thrown : SubmissionThrown → Submission

-- The table, and the ids of the transactions that were handed to the submitter, the latest first.
pub record Worker : Type 0 where
  pub table : Table
  pub sent : List String

-- Step 5: what a submission leads to.
abbrev pub settle_outcome : String → ℕ → Submission → Table → Table
settle_outcome id now (hash_of hash) table = mark_processed id now table
settle_outcome id now (thrown err) table =
    if is_transient_submission_failure err
    then clear_in_flight_lock id now table
    else mark_failed id now table

-- "succeeded", "failed" and "processing" are skipped as duplicates.
abbrev pub is_duplicate : Option SubmissionStatus → Bool
is_duplicate (some succeeded) = true
is_duplicate (some failed) = true
is_duplicate (some processing) = true
is_duplicate _ = false

abbrev pub is_queued : SubmissionRow → Bool
is_queued row = elim row.status [ submitted ↦ true | _ ↦ false ]

module _ (submit : String → Submission) (worker_id : String) where
  -- The body of the loop over the batch.
  unfoldable pub process_record : ℕ → SubmissionRow → Worker → Worker
  unfolding check_transaction_status mark_in_flight update_row is_transient_submission_failure
  process_record now row w =
      let id = row.transaction_id in
      let (claimed, acquired) = mark_in_flight id worker_id row.record_data now w.table in
      if is_duplicate (check_transaction_status id w.table)
      then w
      else if acquired
      then record {
        table = settle_outcome id now (submit row.record_data.signed_xdr) claimed;
        sent = id ∷ w.sent;
      }
      else w

  unfoldable pub process_batch : ℕ → List SubmissionRow → Worker → Worker
  unfolding process_record
  process_batch now [] w = w
  process_batch now (row ∷ rows) w = process_batch now rows (process_record now row w)

  -- A tick, with how many transactions it handled; `cleans` is the draw `Math.random() < 0.1`.
  unfoldable pub run_submission_worker_tick : ℕ → ℕ → Bool → Worker → Worker × ℕ
  unfolding process_batch cleanup_expired_records
  run_submission_worker_tick batch_size now cleans w =
      let batch = take batch_size (filter is_queued (JsMap.values w.table)) in
      let after = process_batch now batch w in
      (
        record after {
          table = if cleans then (cleanup_expired_records now after.table).0 else after.table;
        },
        length batch,
      )
