-- ===== src/WorkerService/JobStore/Claim.antt =====
-- services/worker-service/src/memory-job-store.ts: what a claim takes.
use vellar_dapp.JsMap
use vellar_dapp.JsMap.{JsMap}
use vellar_dapp.WorkerService.JobStore.{
  Row, ClaimedJob, is_submitted, claimed_job, claim_submitted, count_active,
}
use vellar_dapp.Prelude.{
  if◌then◌else◌, Bool-cases, take, drop, ℕ, zero, suc, ◌≡◌, refl, ap, inl, inr, List, [], ◌∷◌,
  arith,
}

module _ {B : Type 0} where
  abbrev pub pending_jobs : JsMap (Row B) → List (ClaimedJob B)
  pending_jobs [] = []
  pending_jobs ((id, row) ∷ rest) =
      let later = pending_jobs rest in
      if is_submitted row.status then claimed_job row ∷ later else later

  -- A claim takes the first jobs that are submitted, at most `limit`, in order, however lately they
  -- were reclaimed, and leaves exactly the others submitted. The number of active jobs does not
  -- change.
  pub claim_submitted_lem :
      (limit now : ℕ) (rows : JsMap (Row B))
      → ((claim_submitted limit now rows).1 ≡ take limit (pending_jobs rows))
        × (pending_jobs (claim_submitted limit now rows).0 ≡ drop limit (pending_jobs rows))
        × (count_active (claim_submitted limit now rows).0 ≡ count_active rows)
  unfolding claim_submitted count_active JsMap.values
  claim_submitted_lem zero now rows = (refl, refl, refl)
  claim_submitted_lem (suc limit) now [] = (refl, refl, refl)
  claim_submitted_lem (suc limit) now ((id, row) ∷ rest) =
      let (jobs1, left1, active1) = claim_submitted_lem limit now rest in
      let (jobs2, left2, active2) = claim_submitted_lem (suc limit) now rest in
      elim (Bool-cases (is_submitted row.status)) [
        | inl s ↦ rw s (ap (λ js. claimed_job row ∷ js) jobs1, left1, ap suc active1)
        | inr n ↦ rw n (jobs2, rw n left2, ground (arith, n, active2))
      ]
