-- ===== src/WalletService/SubmissionWorker/Tests.antt =====
-- services/wallet-service/src/worker: one queued transaction, and a tick over it.
use vellar_dapp.JsMap
use vellar_dapp.WalletService.SubmissionWorker.Stuck.{Keyed, run_submission_worker_tick_stuck}
use vellar_dapp.WalletService.SubmissionWorker.{
  cleanup_expired_records, submitted, succeeded, relayer, SubmissionRow, check_transaction_status,
  mark_in_flight, update_row, Submission, hash_of, Worker, process_record, is_queued,
  run_submission_worker_tick,
}
use vellar_dapp.Prelude.{length, take, filter, String, ◌≡◌, refl, true, none, some, [], ◌∷◌}

abbrev accept_all : String → Submission
accept_all xdr = hash_of "hash"

abbrev queued : SubmissionRow
queued = record {
  transaction_id = "tx1";
  status = submitted;
  record_data = record {
    signed_xdr = "AAAA";
    network = "testnet";
    submitter_type = relayer;
    worker_id = "w0";
    started_at = none;
  };
  created_at = 5;
  updated_at = 5;
  expires_at = none;
}

abbrev idle : Worker
idle = record { table = []; sent = [] }

abbrev waiting : Worker
waiting = record { table = ("tx1", queued) ∷ []; sent = [] }

-- A job that is not in the table is sent, and its row ends as succeeded.
sends : (process_record accept_all "w1" 10 queued idle).sent ≡ "tx1" ∷ []
unfolding process_record JsMap.get
sends = refl

succeeds :
    check_transaction_status "tx1" (process_record accept_all "w1" 10 queued idle).table
    ≡ some succeeded
unfolding process_record check_transaction_status mark_in_flight update_row JsMap.get JsMap.set
succeeds = refl

waiting-Keyed : Keyed waiting.table
unfolding Keyed
waiting-Keyed = (refl, tt)

run_submission_worker_tick_stuck_example :
    run_submission_worker_tick accept_all "w1" 10 20 true waiting ≡ (
      record waiting { table = (cleanup_expired_records 20 waiting.table).0 },
      length (take 10 (filter is_queued (JsMap.values waiting.table))),
    )
run_submission_worker_tick_stuck_example =
    run_submission_worker_tick_stuck accept_all "w1" 10 20 true waiting waiting-Keyed
