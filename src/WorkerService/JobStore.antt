-- ===== src/WorkerService/JobStore.antt =====
-- services/worker-service/src/memory-job-store.ts: the store of verification jobs in memory; and
-- `attestedHash` of artifact.ts. What a job holds for its build is a parameter `B`. Times are
-- milliseconds; the clock is an argument. The callbacks of the reaper are left out, and its backoff,
-- which the store computes and drops.
pub mod Claim
pub mod Reap
pub mod Watch
mod Tests
use vellar_dapp.JsMap
use vellar_dapp.JsMap.{JsMap}
use vellar_dapp.Prelude.{
  ltb, leb, if◌then◌else◌, get_or, length, filter, any, ℕ, zero, suc, ◌+◌, ◌-◌, String, Bool, true,
  false, ◌&&◌, ◌||◌, Option, none, some, List, [], ◌∷◌, str_eq,
}

pub data VerificationStatus : Type 0 where
  unverified submitted building verified failed dead_letter : VerificationStatus

pub data MatchMode : Type 0 where
  exact toolchain_metadata : MatchMode

pub record VerificationJobInput (B : Type 0) : Type 0 where
  pub build : B
  pub contract_id : String
  pub timestamp : Option ℕ
  pub signature : Option String

pub record VerificationOutcome : Type 0 where
  pub status : VerificationStatus
  pub output_hash : Option String
  pub deployed_hash : Option String
  pub match_mode : Option MatchMode
  pub log : String
  pub status_detail : String

pub record Row (B : Type 0) : Type 0 where
  pub record_id : String
  pub status : VerificationStatus
  pub job : VerificationJobInput B
  pub submitted_at_ms : Option ℕ
  pub output_hash : Option String
  pub deployed_hash : Option String
  pub match_mode : Option MatchMode
  pub log : Option String
  pub status_detail : Option String
  pub completed_at_ms : Option ℕ
  pub attempts : Option ℕ
  pub started_building_at_ms : Option ℕ

pub record ClaimedJob (B : Type 0) : Type 0 where
  pub record_id : String
  pub job : VerificationJobInput B
  pub submitted_at_ms : Option ℕ

abbrev pub attested_hash : Option MatchMode → Option String → Option String → Option String
attested_hash (some toolchain_metadata) output deployed = deployed
attested_hash _ output deployed = output

abbrev pub is_submitted : VerificationStatus → Bool
is_submitted submitted = true
is_submitted _ = false

abbrev pub is_building : VerificationStatus → Bool
is_building building = true
is_building _ = false

abbrev pub is_verified : VerificationStatus → Bool
is_verified verified = true
is_verified _ = false

-- "verified" or "failed"
abbrev pub is_judged : VerificationStatus → Bool
is_judged verified = true
is_judged failed = true
is_judged _ = false

abbrev pub is_active : VerificationStatus → Bool
is_active s = is_submitted s || is_building s

module _ {B : Type 0} where
  abbrev pub submitted_row : String → VerificationJobInput B → ℕ → Row B
  submitted_row record_id job at = record {
    record_id = record_id;
    status = submitted;
    job = job;
    submitted_at_ms = some at;
    output_hash = none;
    deployed_hash = none;
    match_mode = none;
    log = none;
    status_detail = none;
    completed_at_ms = none;
    attempts = none;
    started_building_at_ms = none;
  }

  unfoldable pub submit : String → VerificationJobInput B → ℕ → JsMap (Row B) → JsMap (Row B)
  submit record_id job at rows = JsMap.set record_id (submitted_row record_id job at) rows

  abbrev pub claim_row : ℕ → Row B → Row B
  claim_row now row = record row {
    status = building;
    attempts = some (get_or row.attempts 0 + 1);
    started_building_at_ms = some now;
  }

  abbrev pub claimed_job : Row B → ClaimedJob B
  claimed_job row = record {
    record_id = row.record_id;
    job = row.job;
    submitted_at_ms = row.submitted_at_ms;
  }

  -- The loop over the rows; `limit` is how many may still be claimed.
  unfoldable pub claim_submitted : ℕ → ℕ → JsMap (Row B) → JsMap (Row B) × List (ClaimedJob B)
  claim_submitted zero now rows = (rows, [])
  claim_submitted (suc limit) now [] = ([], [])
  claim_submitted (suc limit) now ((id, row) ∷ rest) =
      let (rest1, jobs1) = claim_submitted limit now rest in
      let (rest2, jobs2) = claim_submitted (suc limit) now rest in
      if is_submitted row.status
      then ((id, claim_row now row) ∷ rest1, claimed_job row ∷ jobs1)
      else ((id, row) ∷ rest2, jobs2)

  abbrev pub is_stranded : ℕ → ℕ → Row B → Bool
  is_stranded timeout now row =
      is_building row.status && ltb timeout (now - get_or row.started_building_at_ms now)

  abbrev pub parked : ℕ → Row B → Row B
  parked now row = record row { status = dead_letter; completed_at_ms = some now }

  abbrev pub requeued : Row B → Row B
  requeued row = record row { status = submitted; started_building_at_ms = none }

  -- The rows, with how many were reclaimed and how many dead-lettered.
  unfoldable pub reap_stranded : ℕ → ℕ → ℕ → JsMap (Row B) → JsMap (Row B) × (ℕ × ℕ)
  reap_stranded timeout max_attempts now [] = ([], (0, 0))
  reap_stranded timeout max_attempts now ((id, row) ∷ rest) =
      let (rest', (reclaimed, dead_lettered)) = reap_stranded timeout max_attempts now rest in
      if is_stranded timeout now row
      then if leb max_attempts (get_or row.attempts 0)
        then ((id, parked now row) ∷ rest', (reclaimed, dead_lettered + 1))
        else ((id, requeued row) ∷ rest', (reclaimed + 1, dead_lettered))
      else ((id, row) ∷ rest', (reclaimed, dead_lettered))

  unfoldable pub count_active : JsMap (Row B) → ℕ
  count_active rows = length (filter (λ (r : Row B). is_active r.status) (JsMap.values rows))

  unfoldable pub has_active_for_contract : String → JsMap (Row B) → Bool
  has_active_for_contract contract_id rows =
      any (λ (r : Row B). str_eq r.job.contract_id contract_id && is_active r.status)
        (JsMap.values rows)

  unfoldable pub complete : String → VerificationOutcome → ℕ → JsMap (Row B) → JsMap (Row B)
  complete record_id result now rows = elim (JsMap.get record_id rows) [
    | none ↦ rows
    | some row ↦
        JsMap.set record_id
          (record row {
            status = result.status;
            output_hash = result.output_hash;
            deployed_hash = result.deployed_hash;
            match_mode = result.match_mode;
            log = some result.log;
            status_detail = some result.status_detail;
            completed_at_ms = some now;
          })
          rows
  ]

  abbrev pub completed_at : Row B → ℕ
  completed_at row = get_or row.completed_at_ms 0

  -- `!current || completedAt(row) > completedAt(current)`
  abbrev pub supersedes : Row B → Option (Row B) → Bool
  supersedes row none = true
  supersedes row (some current) = ltb (completed_at current) (completed_at row)

  unfoldable pub latest_by_contract : List (Row B) → JsMap (Row B) → JsMap (Row B)
  latest_by_contract [] latest = latest
  latest_by_contract (row ∷ rows) latest =
      let kept = latest_by_contract rows latest in
      let replaced = latest_by_contract rows (JsMap.set row.job.contract_id row latest) in
      if is_judged row.status
      then if supersedes row (JsMap.get row.job.contract_id latest) then replaced else kept
      else kept

  -- An empty hash is falsy.
  abbrev pub watched : Row B → Option (String × String)
  watched row =
      if is_verified row.status
      then elim (attested_hash row.match_mode row.output_hash row.deployed_hash) [
        | none ↦ none
        | some hash ↦ if str_eq hash "" then none else some (row.job.contract_id, hash)
      ]
      else none

  unfoldable pub watch_list : ℕ → List (Row B) → List (String × String)
  watch_list zero rows = []
  watch_list (suc limit) [] = []
  watch_list (suc limit) (row ∷ rows) =
      let skipped = watch_list (suc limit) rows in
      let rest = watch_list limit rows in
      elim (watched row) [ none ↦ skipped | some entry ↦ entry ∷ rest ]

  unfoldable pub list_latest_verified : ℕ → JsMap (Row B) → List (String × String)
  unfolding latest_by_contract watch_list
  list_latest_verified limit rows =
      watch_list limit (JsMap.values (latest_by_contract (JsMap.values rows) []))
