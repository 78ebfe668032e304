-- ===== src/WalletService.antt =====
-- services/wallet-service/src: the gates of the sponsored submission, the merge plan
-- and the submission worker.
pub mod Scope
pub mod Replay
pub mod MergePlanner
pub mod SubmissionWorker
