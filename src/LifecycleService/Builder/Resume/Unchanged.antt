-- ===== src/LifecycleService/Builder/Resume/Unchanged.antt =====
-- services/lifecycle-service/src/builder.ts: a plan resumed on the state it was made for.
use vellar_dapp.JsMap
use vellar_dapp.JsMap.{JsMap}
use vellar_dapp.LifecycleService.Horizon.{HorizonBalance, HorizonAccount, is_native}
use vellar_dapp.LifecycleService.Builder.{CleanupStep, Sdk, build_cleanup_steps}
use vellar_dapp.LifecycleService.Builder.Resume.{
  StepConfirmation, ExpectedState, create_plan_tracking, resumed, confirmed_indices, find_gap,
  balance_key, balance_map, find_new_trustline, find_changed_balance, find_divergence,
  resume_cleanup_plan,
}
use vellar_dapp.LifecycleService.Builder.Resume.Confirmed.{count_from}
use vellar_dapp.Prelude.{
  Bool-cases, length, ℕ, zero, suc, ◌+◌, ◌<◌, String, ◌≡◌, refl, ap, ◌∙◌, inl, inr, none, some,
  List, [], ◌∷◌, arith, eq_iff, eq_refl,
}

balance_map-Distinct :
    (bs : List HorizonBalance) (m : JsMap String)
    → JsMap.Distinct m
    → JsMap.Distinct (balance_map bs m)
unfolding balance_map
balance_map-Distinct [] m d = d
balance_map-Distinct (b ∷ bs) m d = elim (Bool-cases (is_native b)) [
  | inl is_xlm ↦ rw is_xlm (balance_map-Distinct bs m d)
  | inr other ↦ rw other (
      balance_map-Distinct bs (JsMap.set (balance_key b) b.balance m)
        (JsMap.set-Distinct (balance_key b) b.balance m d))
]

nothing_new :
    (m entries : JsMap String) → JsMap.AllFound m entries → find_new_trustline m entries ≡ none
unfolding find_new_trustline
nothing_new m [] h = refl
nothing_new m ((k, v) ∷ entries) (found, h) =
    rw (found, find_new_trustline) (nothing_new m entries h)

nothing_changed :
    (m entries : JsMap String) → JsMap.AllFound m entries → find_changed_balance m entries ≡ none
unfolding find_changed_balance
nothing_changed m [] h = refl
nothing_changed m ((k, v) ∷ entries) (found, h) =
    rw (found, find_changed_balance) (ground (arith, eq_iff v v, nothing_changed m entries h))

find_gap-count_from : (i n : ℕ) → find_gap i (count_from i n) ≡ none
unfolding find_gap count_from
find_gap-count_from i zero = refl
find_gap-count_from i (suc n) = ground (arith, find_gap-count_from (i + 1) n)

length-count_from : (i n : ℕ) → length (count_from i n) ≡ n
unfolding count_from
length-count_from i zero = refl
length-count_from i (suc n) = ap suc (length-count_from (i + 1) n)

no_divergence_same :
    (account : HorizonAccount) (expected : ExpectedState)
    → expected.balances ≡ account.balances
    → expected.open_offers ≡ account.open_offers
    → find_divergence account expected ≡ none
unfolding find_divergence JsMap.Distinct
no_divergence_same account expected balances offers =
    let m = balance_map account.balances [] in
    let found : JsMap.AllFound m m =
      JsMap.AllFound-self m (balance_map-Distinct account.balances [] tt) in
    let same : balance_map expected.balances [] ≡ m = ap (λ bs. balance_map bs []) balances in
    ground (arith, same, nothing_new m m found, nothing_changed m m found, offers)

-- A plan whose first `done` steps are confirmed, and not all, is resumed on the state it was made
-- for: from that step, with the steps that are built for that state.
pub resume_cleanup_plan_unchanged :
    (sdk : Sdk) (account : HorizonAccount) (destination passphrase : String)
    (steps : List CleanupStep) (now done : ℕ) (confirmations : List StepConfirmation)
    → build_cleanup_steps sdk account destination passphrase ≡ some steps
    → confirmed_indices confirmations ≡ count_from 0 done
    → done < length steps
    → resume_cleanup_plan sdk account destination passphrase
        (record (create_plan_tracking account destination steps now) { steps = confirmations })
      ≡ resumed done steps (length steps)
unfolding resume_cleanup_plan create_plan_tracking
resume_cleanup_plan_unchanged sdk account destination passphrase steps now done confirmations built
      first some_left =
    let expected = (create_plan_tracking account destination steps now).expected_state in
    let counted : length (confirmed_indices confirmations) ≡ done =
      ap length first ∙ length-count_from 0 done in
    rw
      (
        first,
        find_gap-count_from 0 done,
        no_divergence_same account expected refl refl,
        length-count_from 0 done,
        built,
      )
      (ground (arith, eq_refl account.account_id, counted))
