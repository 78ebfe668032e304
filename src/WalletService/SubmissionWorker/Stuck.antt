-- ===== src/WalletService/SubmissionWorker/Stuck.antt =====
-- services/wallet-service/src/worker/submission-worker.ts: a tick on a table whose rows stand under
-- their own transaction's id.
use vellar_dapp.JsMap
use vellar_dapp.JsMap.{JsMap}
use vellar_dapp.WalletService.SubmissionWorker.{
  cleanup_expired_records, SubmissionRow, Table, check_transaction_status, mark_in_flight,
  Submission, Worker, is_duplicate, process_record, process_batch, is_queued,
  run_submission_worker_tick,
}
use vellar_dapp.Prelude.{
  if◌then◌else◌, Bool-cases, if_same, is_some, length, take, filter, All, ℕ, zero, suc, String, ◌≡◌,
  refl, inl, inr, Bool, true, Option, none, some, List, [], ◌∷◌, arith, eq_iff,
}

unfoldable pub Keyed : Table → Type 0
Keyed = All (λ (e : String × SubmissionRow). e.1.transaction_id ≡ e.0)

-- Every row's id has a row in the table.
abbrev Known : Table → List SubmissionRow → Type 0
Known table = All (λ row. is_some (JsMap.get row.transaction_id table) ≡ true)

Known-cons :
    (k : String) (v : SubmissionRow) (table : Table) (rows : List SubmissionRow)
    → Known table rows
    → Known ((k, v) ∷ table) rows
unfolding JsMap.get
Known-cons k v table [] h = tt
Known-cons k v table (row ∷ rows) (found, h) =
    (ground (arith, found, eq_iff k row.transaction_id), Known-cons k v table rows h)

values-Known : (table : Table) → Keyed table → Known table (JsMap.values table)
unfolding Keyed JsMap.values JsMap.get
values-Known [] h = tt
values-Known ((k, row) ∷ table) (same, h) = (
  ground (arith, same, eq_iff k row.transaction_id),
  Known-cons k row table _ (values-Known table h),
)

filter-Known :
    (table : Table) (p : SubmissionRow → Bool) (rows : List SubmissionRow)
    → Known table rows
    → Known table (filter p rows)
filter-Known table p [] h = tt
filter-Known table p (row ∷ rows) (found, h) = elim (Bool-cases (p row)) [
  | inl kept ↦ rw kept (found, filter-Known table p rows h)
  | inr dropped ↦ rw dropped (filter-Known table p rows h)
]

take-Known :
    (table : Table) (n : ℕ) (rows : List SubmissionRow)
    → Known table rows
    → Known table (take n rows)
take-Known table zero rows h = tt
take-Known table (suc n) [] h = tt
take-Known table (suc n) (row ∷ rows) (found, h) = (found, take-Known table n rows h)

module _ (submit : String → Submission) (worker_id : String) where
  process_record_unchanged :
      (now : ℕ) (row : SubmissionRow) (w : Worker)
      → is_some (JsMap.get row.transaction_id w.table) ≡ true
      → process_record submit worker_id now row w ≡ w
  unfolding process_record mark_in_flight check_transaction_status
  process_record_unchanged now row w h = go (JsMap.get row.transaction_id w.table) refl
    where
      go :
          (found : Option SubmissionRow)
          → JsMap.get row.transaction_id w.table ≡ found
          → process_record submit worker_id now row w ≡ w
      go none e = ground (arith, e, h)
      go (some seen) e =
          rw (process_record, mark_in_flight, check_transaction_status, e)
            (if_same (is_duplicate (some seen.status)) w)

  process_batch_unchanged :
      (now : ℕ) (rows : List SubmissionRow) (w : Worker)
      → Known w.table rows
      → process_batch submit worker_id now rows w ≡ w
  unfolding process_batch
  process_batch_unchanged now [] w h = refl
  process_batch_unchanged now (row ∷ rows) w (known, h) =
      rw (process_record_unchanged now row w known) (process_batch_unchanged now rows w h)

  -- A tick of the worker on a table whose rows stand under their own ids sends nothing, whatever the
  -- submitter would answer: it counts the batch as handled, and all it may change is to remove
  -- expired rows when it cleans up.
  pub run_submission_worker_tick_stuck :
      (batch_size now : ℕ) (cleans : Bool) (w : Worker)
      → Keyed w.table
      → run_submission_worker_tick submit worker_id batch_size now cleans w ≡ (
        record w { table = if cleans then (cleanup_expired_records now w.table).0 else w.table },
        length (take batch_size (filter is_queued (JsMap.values w.table))),
      )
  unfolding run_submission_worker_tick
  run_submission_worker_tick_stuck batch_size now cleans w h =
      rw
        (process_batch_unchanged now _ w (
          take-Known w.table batch_size _
            (filter-Known w.table is_queued _ (values-Known w.table h))))
        refl
