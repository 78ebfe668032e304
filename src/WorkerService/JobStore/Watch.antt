-- ===== src/WorkerService/JobStore/Watch.antt =====
-- services/worker-service/src/memory-job-store.ts: what the sweep of attested contracts watches.
pub mod Listed
use mathlib.Core.List.{Memᴰ}
use vellar_dapp.JsMap
use vellar_dapp.JsMap.{JsMap}
use vellar_dapp.WorkerService.JobStore.{
  verified, Row, attested_hash, is_judged, completed_at, supersedes, latest_by_contract, watched,
  watch_list, list_latest_verified,
}
use vellar_dapp.Prelude.{
  if◌then◌else◌, Bool-cases, Option-cases, All, get_or, length, ◌+◌, ◌<◌, ◌⊎◌, ℕ, zero, suc, ◌≤◌,
  String, ◌≡◌, refl, sym, ap, ◌∙◌, subst, inl, inr, Bool, true, false, ◌&&◌, Option, none, some,
  List, [], ◌∷◌, arith, str_eq, eq_iff,
}

module _ {B : Type 0} where
  -- The latest judged row of a contract among `rows`, from the one so far: a later row stands in
  -- only if it was completed strictly later.
  unfoldable pub latest_of : String → List (Row B) → Option (Row B) → Option (Row B)
  latest_of contract [] best = best
  latest_of contract (row ∷ rows) best =
      let next = latest_of contract rows (some row) in
      let same = latest_of contract rows best in
      if str_eq row.job.contract_id contract && (is_judged row.status && supersedes row best)
      then next
      else same

  get-latest_by_contract :
      (contract : String) (rows : List (Row B)) (latest : JsMap (Row B))
      → JsMap.get contract (latest_by_contract rows latest)
        ≡ latest_of contract rows (JsMap.get contract latest)
  unfolding latest_by_contract latest_of
  get-latest_by_contract contract [] latest = refl
  get-latest_by_contract contract (row ∷ rows) latest =
      let c = row.job.contract_id in
      let ih_set = get-latest_by_contract contract rows (JsMap.set c row latest) in
      let set_then : (o : Option (Row B))
          → JsMap.get contract (JsMap.set c row latest) ≡ o
          → JsMap.get contract (latest_by_contract rows (JsMap.set c row latest))
            ≡ latest_of contract rows o =
        λ o e. ih_set ∙ ap (latest_of contract rows) e in
      let ih = get-latest_by_contract contract rows latest in
      elim (Bool-cases (str_eq c contract)) [
        | inl same ↦
            let eq : c ≡ contract = ground (arith, eq_iff c contract) in
            rw (same, ap (λ k. JsMap.get k latest) eq)
              (ground (
                arith,
                ih,
                set_then (some row) (JsMap.get-set c contract row latest ∙ (rw same refl)),
              ))
        | inr other ↦ rw other (
            ground (
              arith,
              ih,
              set_then (JsMap.get contract latest)
                  (JsMap.get-set c contract row latest ∙ (rw other refl)),
            ))
      ]

  -- Every judged row of the contract was completed no later than `best`.
  abbrev pub NoneLater : String → List (Row B) → Row B → Type 0
  NoneLater contract rows best =
      All
        (λ (r : Row B).
          str_eq r.job.contract_id contract ≡ true
          → is_judged r.status ≡ true
          → get_or r.completed_at_ms 0 ≤ get_or best.completed_at_ms 0)
        rows

  abbrev pub AtLeast : Option (Row B) → Row B → Type 0
  AtLeast none best = Unit
  AtLeast (some r) best = completed_at r ≤ completed_at best

  supersedes-AtLeast :
      (row : Row B) (start : Option (Row B)) (best : Row B)
      → supersedes row start ≡ true
      → completed_at row ≤ completed_at best
      → AtLeast start best
  supersedes-AtLeast row none best s le = tt
  supersedes-AtLeast row (some r) best s le = ground arith

  kept-AtLeast :
      (row : Row B) (start : Option (Row B)) (best : Row B)
      → supersedes row start ≡ false
      → AtLeast start best
      → completed_at row ≤ completed_at best
  kept-AtLeast row none best s le = cc
  kept-AtLeast row (some r) best s le = ground arith

  latest_of-NoneLater :
      (contract : String) (rows : List (Row B)) (start : Option (Row B)) (best : Row B)
      → latest_of contract rows start ≡ some best
      → NoneLater contract rows best × AtLeast start best
  unfolding latest_of
  latest_of-NoneLater contract [] none best h = (tt, tt)
  latest_of-NoneLater contract [] (some r) best h = (tt, ground arith)
  latest_of-NoneLater contract (row ∷ rows) start best h =
      let next = latest_of-NoneLater contract rows (some row) best in
      let same = latest_of-NoneLater contract rows start best in
      elim (Bool-cases
        (str_eq row.job.contract_id contract && (is_judged row.status && supersedes row start))) [
          | inl taken ↦
              let (later, least) = next (ground (arith, taken, h)) in
              ((λ c j. least, later), supersedes-AtLeast row start best (ground arith) least)
          | inr skipped ↦
              let (later, least) = same (ground (arith, skipped, h)) in
              ((λ c j. kept-AtLeast row start best (ground arith) least, later), least)
        ]

  -- What the map of the latest rows holds for a contract was judged, if at all, no earlier than any
  -- other row of the contract.
  pub latest_by_contract-NoneLater :
      (contract : String) (rows : List (Row B)) (best : Row B)
      → JsMap.get contract (latest_by_contract rows []) ≡ some best
      → NoneLater contract rows best
  unfolding JsMap.get
  latest_by_contract-NoneLater contract rows best h =
      (latest_of-NoneLater contract rows none best
        (sym (get-latest_by_contract contract rows []) ∙ h)).0

  abbrev KeyedByContract : JsMap (Row B) → Type 0
  KeyedByContract = All (λ (e : String × Row B). e.0 ≡ e.1.job.contract_id)

  set-KeyedByContract :
      (row : Row B) (m : JsMap (Row B))
      → KeyedByContract m
      → KeyedByContract (JsMap.set row.job.contract_id row m)
  unfolding JsMap.set
  set-KeyedByContract row [] h = (refl, tt)
  set-KeyedByContract row ((k, r) ∷ m) (e, h) = elim (Bool-cases (str_eq k row.job.contract_id)) [
    | inl same ↦ rw same (refl, h)
    | inr other ↦ rw other (e, set-KeyedByContract row m h)
  ]

  replaced-or-kept :
      (P : JsMap (Row B) → Type 0) (judged newer : Bool) (a b : JsMap (Row B))
      → P a
      → P b
      → P (if judged then if newer then a else b else b)
  replaced-or-kept P true true a b p q = p
  replaced-or-kept P true false a b p q = q
  replaced-or-kept P false newer a b p q = q

  latest-invariant :
      (rows : List (Row B)) (latest : JsMap (Row B))
      → KeyedByContract latest
      → JsMap.Distinct latest
      → KeyedByContract (latest_by_contract rows latest)
        × JsMap.Distinct (latest_by_contract rows latest)
  unfolding latest_by_contract
  latest-invariant [] latest k d = (k, d)
  latest-invariant (row ∷ rows) latest k d =
      replaced-or-kept (λ m. KeyedByContract m × JsMap.Distinct m) (is_judged row.status)
        (supersedes row (JsMap.get row.job.contract_id latest))
        (latest_by_contract rows (JsMap.set row.job.contract_id row latest))
        (latest_by_contract rows latest)
        (latest-invariant rows (JsMap.set row.job.contract_id row latest)
          (set-KeyedByContract row latest k) (JsMap.set-Distinct row.job.contract_id row latest d))
        (latest-invariant rows latest k d)

  -- The entry is that of a verified row of the store, with the hash it attests, and no judged row of
  -- the contract was completed later.
  abbrev pub IsLatestVerified : JsMap (Row B) → String × String → Type 0
  IsLatestVerified rows (contract, hash) =
      (best : Row B) × Memᴰ best (JsMap.values rows)
      × (best.job.contract_id ≡ contract)
      × (best.status ≡ verified)
      × (attested_hash best.match_mode best.output_hash best.deployed_hash ≡ some hash)
      × NoneLater contract (JsMap.values rows) best

  all_members :
      (P : Row B → Type 0) (rows : List (Row B)) → ((r : Row B) → Memᴰ r rows → P r) → All P rows
  all_members P [] f = tt
  all_members P (r ∷ rows) f = (f r (Memᴰ.head refl), all_members P rows (λ x m. f x (Memᴰ.tail m)))

  -- The map of the latest rows holds given rows only.
  latest_by_contract_all :
      (P : Row B → Type 0) (rows : List (Row B)) (latest : JsMap (Row B))
      → All P rows
      → All (λ (e : String × Row B). P e.1) latest
      → All (λ (e : String × Row B). P e.1) (latest_by_contract rows latest)
  unfolding latest_by_contract
  latest_by_contract_all P [] latest h l = l
  latest_by_contract_all P (row ∷ rows) latest (p, h) l =
      replaced-or-kept (All (λ (e : String × Row B). P e.1)) (is_judged row.status)
        (supersedes row (JsMap.get row.job.contract_id latest))
        (latest_by_contract rows (JsMap.set row.job.contract_id row latest))
        (latest_by_contract rows latest)
        (latest_by_contract_all P rows (JsMap.set row.job.contract_id row latest) h
          (JsMap.All-set (λ e. P e.1) row.job.contract_id row latest l p))
        (latest_by_contract_all P rows latest h l)

  watched-lem :
      (row : Row B) (contract hash : String)
      → watched row ≡ some (contract, hash)
      → (row.job.contract_id ≡ contract)
        × (row.status ≡ verified)
        × (attested_hash row.match_mode row.output_hash row.deployed_hash ≡ some hash)
  watched-lem row contract hash h = (ground arith, ground arith, ground arith)

  watch_list-IsLatestVerified :
      (rows : JsMap (Row B)) (limit : ℕ) (entries : JsMap (Row B))
      → All (λ (e : String × Row B). NoneLater e.1.job.contract_id (JsMap.values rows) e.1) entries
      → All (λ (e : String × Row B). Memᴰ e.1 (JsMap.values rows)) entries
      → All (IsLatestVerified rows) (watch_list limit (JsMap.values entries))
  unfolding watch_list JsMap.values
  watch_list-IsLatestVerified rows zero entries h m = tt
  watch_list-IsLatestVerified rows (suc limit) [] h m = tt
  watch_list-IsLatestVerified rows (suc limit) ((k, row) ∷ entries) (later, h) (stored, m) =
      go (watched row) refl (watch_list-IsLatestVerified rows (suc limit) entries h m)
        (watch_list-IsLatestVerified rows limit entries h m)
    where
      go :
          (w : Option (String × String))
          → watched row ≡ w
          → All (IsLatestVerified rows) (watch_list (suc limit) (JsMap.values entries))
          → All (IsLatestVerified rows) (watch_list limit (JsMap.values entries))
          → All (IsLatestVerified rows) (elim w [
            | none ↦ watch_list (suc limit) (JsMap.values entries)
            | some entry ↦ entry ∷ watch_list limit (JsMap.values entries)
          ])
      go none e skipped rest = skipped
      go (some (contract, hash)) e skipped rest =
          let (of_contract, is_ok, attests) = watched-lem row contract hash e in
          (
            (
              row,
              stored,
              of_contract,
              is_ok,
              attests,
              subst (λ c. NoneLater c (JsMap.values rows) row) of_contract later,
            ),
            rest,
          )

  entries-NoneLater :
      (rows : List (Row B)) (entries : JsMap (Row B))
      → KeyedByContract entries
      → JsMap.AllFound (latest_by_contract rows []) entries
      → All (λ (e : String × Row B). NoneLater e.1.job.contract_id rows e.1) entries
  entries-NoneLater rows [] k f = tt
  entries-NoneLater rows ((c, row) ∷ entries) (same, k) (found, f) = (
    subst (λ x. NoneLater x rows row) same (latest_by_contract-NoneLater c rows row found),
    entries-NoneLater rows entries k f,
  )

  pub list_latest_verified-IsLatest :
      (limit : ℕ) (rows : JsMap (Row B))
      → All (IsLatestVerified rows) (list_latest_verified limit rows)
  unfolding list_latest_verified JsMap.Distinct
  list_latest_verified-IsLatest limit rows =
      let latest = latest_by_contract (JsMap.values rows) [] in
      let (keyed, distinct) = latest-invariant (JsMap.values rows) [] tt tt in
      watch_list-IsLatestVerified rows limit latest
        (entries-NoneLater (JsMap.values rows) latest keyed (JsMap.AllFound-self latest distinct))
        (latest_by_contract_all (λ r. Memᴰ r (JsMap.values rows)) (JsMap.values rows) []
          (all_members (λ r. Memᴰ r (JsMap.values rows)) (JsMap.values rows) (λ r m. m)) tt)
