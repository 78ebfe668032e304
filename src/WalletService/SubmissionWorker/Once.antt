-- ===== src/WalletService/SubmissionWorker/Once.antt =====
-- services/wallet-service/src/worker/submission-worker.ts: no transaction is submitted twice.
use vellar_dapp.JsMap
use vellar_dapp.JsMap.{JsMap}
use vellar_dapp.WalletService.SubmissionWorker.{
  SubmissionRow, Table, check_transaction_status, in_flight_row, mark_in_flight, update_row,
  is_transient_submission_failure, Submission, hash_of, thrown, Worker, settle_outcome,
  is_duplicate, process_record, process_batch,
}
use vellar_dapp.Prelude.{
  if◌then◌else◌, Bool-cases, if_same, is_some, ℕ, ◌+◌, ◌≤◌, String, ◌≡◌, refl, inl, inr, Bool,
  Option, none, some, List, [], ◌∷◌, arith, str_eq, eq_iff,
}

abbrev pub count : String → List String → ℕ
count id [] = 0
count id (x ∷ xs) = (if str_eq x id then 1 else 0) + count id xs

abbrev pub is_known : String → Table → Bool
is_known id table = is_some (JsMap.get id table)

-- How often the transaction was and may still be sent.
abbrev potential : String → Worker → ℕ
potential id w = count id w.sent + (if is_known id w.table then 0 else 1)

update_row-is_known :
    (id other : String) (change : SubmissionRow → SubmissionRow) (table : Table)
    → is_known id (update_row other change table) ≡ is_known id table
unfolding update_row
update_row-is_known id other change table = go (JsMap.get other table) refl
  where
    go :
        (found : Option SubmissionRow)
        → JsMap.get other table ≡ found
        → is_some (
            JsMap.get id
              (elim found [ none ↦ table | some row ↦ JsMap.set other (change row) table ]))
          ≡ is_some (JsMap.get id table)
    go none e = refl
    go (some row) e = ground (arith, JsMap.get-set other id (change row) table, eq_iff other id, e)

settle_outcome-is_known :
    (id other : String) (now : ℕ) (outcome : Submission) (table : Table)
    → is_known id (settle_outcome other now outcome table) ≡ is_known id table
settle_outcome-is_known id other now (hash_of hash) table = update_row-is_known id other _ table
settle_outcome-is_known id other now (thrown err) table =
    elim (Bool-cases (is_transient_submission_failure err)) [
      | inl retry ↦ rw retry (update_row-is_known id other _ table)
      | inr permanent ↦ rw permanent (update_row-is_known id other _ table)
    ]

module _ (submit : String → Submission) (worker_id : String) where
  process_record_known :
      (now : ℕ) (row seen : SubmissionRow) (w : Worker)
      → JsMap.get row.transaction_id w.table ≡ some seen
      → process_record submit worker_id now row w ≡ w
  unfolding process_record mark_in_flight check_transaction_status
  process_record_known now row seen w e =
      rw (process_record, mark_in_flight, check_transaction_status, e)
        (if_same (is_duplicate (some seen.status)) w)

  process_record_new :
      (now : ℕ) (row : SubmissionRow) (w : Worker)
      → JsMap.get row.transaction_id w.table ≡ none
      → process_record submit worker_id now row w ≡ record {
        table = settle_outcome row.transaction_id now (submit row.record_data.signed_xdr) (
            JsMap.set row.transaction_id
              (in_flight_row row.transaction_id worker_id row.record_data now)
              w.table);
        sent = row.transaction_id ∷ w.sent;
      }
  unfolding process_record mark_in_flight check_transaction_status
  process_record_new now row w e =
      rw (process_record, mark_in_flight, check_transaction_status, e) refl

  process_record-potential :
      (id : String) (now : ℕ) (row : SubmissionRow) (w : Worker)
      → potential id (process_record submit worker_id now row w) ≤ potential id w
  process_record-potential id now row w = go (JsMap.get row.transaction_id w.table) refl
    where
      go :
          (found : Option SubmissionRow)
          → JsMap.get row.transaction_id w.table ≡ found
          → potential id (process_record submit worker_id now row w) ≤ potential id w
      go (some seen) e = rw (process_record_known now row seen w e) (omega arith)
      go none e =
          rw
            (
              process_record_new now row w e,
              settle_outcome-is_known id row.transaction_id now _ _,
              JsMap.get-set row.transaction_id id
                  (in_flight_row row.transaction_id worker_id row.record_data now) w.table,
            )
            (ground (arith, eq_iff row.transaction_id id, e))

  -- Over a batch that comes from the table or not, repeats included, a transaction is handed to the
  -- submitter at most once, and not at all when the table already has a row under its id.
  pub process_batch_once :
      (id : String) (now : ℕ) (rows : List SubmissionRow) (w : Worker)
      → count id (process_batch submit worker_id now rows w).sent
        ≤ count id w.sent + (if is_known id w.table then 0 else 1)
  unfolding process_batch
  process_batch_once id now [] w = ground arith
  process_batch_once id now (row ∷ rows) w = omega (
    arith,
    process_batch_once id now rows (process_record submit worker_id now row w),
    process_record-potential id now row w,
  )
