-- ===== src/WorkerService/JobStore/Watch/Listed.antt =====
-- services/worker-service/src/memory-job-store.ts: which contracts the watch list has.
use mathlib.Core.List.{Memᴰ}
use vellar_dapp.JsMap
use vellar_dapp.JsMap.{JsMap}
use vellar_dapp.WorkerService.JobStore.{
  verified, Row, attested_hash, is_judged, completed_at, supersedes, latest_by_contract, watched,
  watch_list, list_latest_verified,
}
use vellar_dapp.Prelude.{
  Bool-cases, Option-cases, All, get_or, length, ◌<◌, ◌⊎◌, ℕ, zero, suc, ◌≤◌, String, ◌≡◌, refl,
  sym, ap, ◌∙◌, subst, inl, inr, true, false, ◌&&◌, Option, none, some, List, [], ◌∷◌, arith,
  str_eq, eq_iff,
}
use vellar_dapp.WorkerService.JobStore.Watch.{
  latest_of, get-latest_by_contract, IsLatestVerified, list_latest_verified-IsLatest,
}

-- The list has the contract with the hash, or it is full.
abbrev pub IsListed : ℕ → List (String × String) → String × String → Type 0
IsListed limit list entry = Memᴰ entry list ⊎ (length list ≡ limit)

module _ {B : Type 0} where
  -- A judged row of the contract, later than every other one.
  abbrev pub IsLast : String → List (Row B) → Row B → Type 0
  IsLast contract rows best =
      (best.job.contract_id ≡ contract)
      × (is_judged best.status ≡ true)
      × All
          (λ (r : Row B).
            str_eq r.job.contract_id contract ≡ true
            → is_judged r.status ≡ true
            → (r ≡ best) ⊎ (get_or r.completed_at_ms 0 < get_or best.completed_at_ms 0))
          rows

  abbrev Beaten : Option (Row B) → Row B → Type 0
  Beaten none best = Unit
  Beaten (some r) best = get_or r.completed_at_ms 0 < get_or best.completed_at_ms 0

  latest_of_keeps :
      (contract : String) (rows : List (Row B)) (best : Row B)
      → IsLast contract rows best
      → latest_of contract rows (some best) ≡ some best
  unfolding latest_of
  latest_of_keeps contract [] best h = refl
  latest_of_keeps contract (row ∷ rows) best (own, judged, (first, h)) =
      let ih = latest_of_keeps contract rows best (own, judged, h) in
      elim (Bool-cases (
        str_eq row.job.contract_id contract
        && (is_judged row.status && supersedes row (some best)))) [
          | inl taken ↦ absurd (elim (first (ground (arith, taken)) (ground (arith, taken))) [
            | inl same ↦
                let equal : completed_at row ≡ completed_at best = ap completed_at same in
                ground (arith, taken, equal)
            | inr earlier ↦ ground (arith, taken, earlier)
          ])
          | inr skipped ↦ rw skipped ih
        ]

  latest_of_finds :
      (contract : String) (rows : List (Row B)) (start : Option (Row B)) (best : Row B)
      → IsLast contract rows best
      → Beaten start best
      → Memᴰ best rows
      → latest_of contract rows start ≡ some best
  unfolding latest_of
  latest_of_finds contract [] start best last beaten m = elim m [ ]
  latest_of_finds contract (row ∷ rows) start best (own, judged, (first, h)) beaten (Memᴰ.head e) =
      let taken : (str_eq row.job.contract_id contract
            && (is_judged row.status && supersedes row start))
          ≡ true =
        subst
          (λ (r : Row B).
            (str_eq r.job.contract_id contract && (is_judged r.status && supersedes r start))
            ≡ true)
          e (best_taken start beaten) in
      rw taken (
        subst (λ r. latest_of contract rows (some r) ≡ some best) e
          (latest_of_keeps contract rows best (own, judged, h)))
    where
      best_taken :
          (o : Option (Row B))
          → Beaten o best
          → (str_eq best.job.contract_id contract && (is_judged best.status && supersedes best o))
            ≡ true
      best_taken none b = rw ((eq_iff best.job.contract_id contract).1 own, judged) refl
      best_taken (some r) b =
          let same = (eq_iff best.job.contract_id contract).1 own in ground (arith, same, judged, b)
  latest_of_finds contract (row ∷ rows) start best (own, judged, (first, h)) beaten (Memᴰ.tail m) =
      let skip = latest_of_finds contract rows start best (own, judged, h) beaten m in
      let take_row = λ (b : Beaten (some row) best).
        latest_of_finds contract rows (some row) best (own, judged, h) b m in
      elim (Bool-cases
        (str_eq row.job.contract_id contract && (is_judged row.status && supersedes row start))) [
          | inr skipped ↦ rw skipped skip
          | inl taken ↦ elim (first (ground (arith, taken)) (ground (arith, taken))) [
            | inr earlier ↦ rw taken (take_row earlier)
            | inl same ↦ rw taken (
                subst (λ r. latest_of contract rows (some r) ≡ some best) (sym same)
                  (latest_of_keeps contract rows best (own, judged, h)))
          ]
        ]

  -- A row that is to be watched is on the list, unless this is full.
  watch_list_complete :
      (limit : ℕ) (rows : List (Row B)) (row : Row B) (entry : String × String)
      → Memᴰ row rows
      → watched row ≡ some entry
      → Memᴰ entry (watch_list limit rows) ⊎ (length (watch_list limit rows) ≡ limit)
  unfolding watch_list
  watch_list_complete zero rows row entry m w = inr refl
  watch_list_complete (suc limit) [] row entry m w = elim m [ ]
  watch_list_complete (suc limit) (r ∷ rows) row entry (Memᴰ.head e) w =
      let here : watched r ≡ some entry = ap watched (sym e) ∙ w in
      inl (rw (here, watch_list) (Memᴰ.head refl))
  watch_list_complete (suc limit) (r ∷ rows) row entry (Memᴰ.tail m) w =
      elim (Option-cases (watched r)) [
        | inl skipped ↦
            rw (skipped, watch_list) (watch_list_complete (suc limit) rows row entry m w)
        | inr (x, taken) ↦ elim (watch_list_complete limit rows row entry m w) [
          | inl listed ↦ inl (rw (taken, watch_list) (Memᴰ.tail listed))
          | inr full ↦ inr (rw (taken, watch_list, length) (ap suc full))
        ]
      ]

  watch_list-length : (limit : ℕ) (rows : List (Row B)) → length (watch_list limit rows) ≤ limit
  unfolding watch_list
  watch_list-length zero rows = omega arith
  watch_list-length (suc limit) [] = omega arith
  watch_list-length (suc limit) (row ∷ rows) =
      let a = watch_list-length (suc limit) rows in
      let b = watch_list-length limit rows in
      elim (Option-cases (watched row)) [
        | inl skipped ↦ rw (skipped, length) a
        | inr (x, taken) ↦ rw (taken, length) (omega (arith, b))
      ]

  -- The verified row of the store that attests the hash, and is later than every other judged row of
  -- its contract.
  abbrev pub AttestsLast : JsMap (Row B) → String → String → Row B → Type 0
  AttestsLast rows contract hash best =
      Memᴰ best (JsMap.values rows)
      × IsLast contract (JsMap.values rows) best
      × (best.status ≡ verified)
      × (attested_hash best.match_mode best.output_hash best.deployed_hash ≡ some hash)
      × (str_eq hash "" ≡ false)

  list_latest_verified_complete :
      (limit : ℕ) (rows : JsMap (Row B)) (contract hash : String) (best : Row B)
      → AttestsLast rows contract hash best
      → IsListed limit (list_latest_verified limit rows) (contract, hash)
  unfolding list_latest_verified JsMap.get JsMap.values
  list_latest_verified_complete limit rows contract hash best (m, last, status, attests, given) =
      let all = JsMap.values rows in
      let latest = latest_by_contract all [] in
      let found : JsMap.get contract latest ≡ some best =
        get-latest_by_contract contract all [] ∙ latest_of_finds contract all none best last tt m in
      let shown : watched best ≡ some (contract, hash) =
        rw (status, attests, given) (ap (λ c. some (c, hash)) last.0) in
      watch_list_complete limit (JsMap.values latest) best (contract, hash)
        (JsMap.get-Mem contract best latest found) shown

  -- The watch list has at most `limit` entries. Each is a contract with a verified row of the store,
  -- whose attested hash it gives, and no row of this contract was judged verified or failed at a
  -- later time. Each contract with a verified row that attests a hash and is later than every other
  -- judged row of it is on the list, unless this has `limit` entries.
  pub list_latest_verified_lem :
      (limit : ℕ) (rows : JsMap (Row B))
      → (length (list_latest_verified limit rows) ≤ limit)
        × All (IsLatestVerified rows) (list_latest_verified limit rows)
        × ((contract hash : String) (best : Row B)
            → AttestsLast rows contract hash best
            → IsListed limit (list_latest_verified limit rows) (contract, hash))
  unfolding list_latest_verified
  list_latest_verified_lem limit rows = (
    watch_list-length limit (JsMap.values (latest_by_contract (JsMap.values rows) [])),
    list_latest_verified-IsLatest limit rows,
    list_latest_verified_complete limit rows,
  )
