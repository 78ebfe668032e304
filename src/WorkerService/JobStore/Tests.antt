-- ===== src/WorkerService/JobStore/Tests.antt =====
-- services/worker-service/src/memory-job-store.ts: a store that exercises the theorems.
use vellar_dapp.JsMap
use vellar_dapp.JsMap.{JsMap}
use vellar_dapp.WorkerService.JobStore.{
  verified, toolchain_metadata, VerificationJobInput, VerificationOutcome, Row, submit,
  claim_submitted, reap_stranded, count_active, complete, latest_by_contract, watch_list,
  list_latest_verified,
}
use vellar_dapp.WorkerService.JobStore.Claim.{pending_jobs, claim_submitted_lem}
use vellar_dapp.WorkerService.JobStore.Reap.{count_stranded, AllReaped, reap_stranded_lem}
use vellar_dapp.WorkerService.JobStore.Watch.{IsLatestVerified}
use vellar_dapp.WorkerService.JobStore.Watch.Listed.{
  AttestsLast, IsListed, list_latest_verified_lem,
}
use vellar_dapp.Prelude.{
  take, drop, length, ◌≤◌, All, ℕ, ◌+◌, String, ◌≡◌, refl, none, some, [], ◌∷◌,
}

abbrev job : String → VerificationJobInput ℕ
job contract = record { build = 0; contract_id = contract; timestamp = none; signature = none }

abbrev rows : JsMap (Row ℕ)
rows = submit "b" (job "C2") 2 (submit "a" (job "C1") 1 [])

abbrev claimed : JsMap (Row ℕ)
claimed = (claim_submitted 1 10 rows).0

abbrev verdict : VerificationOutcome
verdict = record {
  status = verified;
  output_hash = some "aa";
  deployed_hash = some "bb";
  match_mode = some toolchain_metadata;
  log = "";
  status_detail = "ok";
}

abbrev completed : JsMap (Row ℕ)
completed = complete "a" verdict 20 claimed

claim_submitted_lem_example :
    ((claim_submitted 1 10 rows).1 ≡ take 1 (pending_jobs rows))
    × (pending_jobs (claim_submitted 1 10 rows).0 ≡ drop 1 (pending_jobs rows))
    × (count_active (claim_submitted 1 10 rows).0 ≡ count_active rows)
claim_submitted_lem_example = claim_submitted_lem 1 10 rows

reap_stranded_lem_example :
    AllReaped 5 3 30 claimed (reap_stranded 5 3 30 claimed).0
    × ((reap_stranded 5 3 30 claimed).1.0 + (reap_stranded 5 3 30 claimed).1.1
        ≡ count_stranded 5 30 claimed)
    × (count_stranded 5 30 (reap_stranded 5 3 30 claimed).0 ≡ 0)
    × (count_active (reap_stranded 5 3 30 claimed).0 + (reap_stranded 5 3 30 claimed).1.1
        ≡ count_active claimed)
reap_stranded_lem_example = reap_stranded_lem 5 3 30 claimed

list_latest_verified_lem_example :
    (length (list_latest_verified 9 completed) ≤ 9)
    × All (IsLatestVerified completed) (list_latest_verified 9 completed)
    × ((contract hash : String) (best : Row ℕ)
        → AttestsLast completed contract hash best
        → IsListed 9 (list_latest_verified 9 completed) (contract, hash))
list_latest_verified_lem_example = list_latest_verified_lem 9 completed

one_watched : list_latest_verified 9 completed ≡ ("C1", "bb") ∷ []
unfolding list_latest_verified latest_by_contract watch_list complete claim_submitted submit
    JsMap.get JsMap.set JsMap.values
one_watched = refl
