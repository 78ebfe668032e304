-- ===== src/LifecycleService/Builder/Resume/Confirmed.antt =====
-- services/lifecycle-service/src/builder.ts: which steps a resumed plan takes as done.
use vellar_dapp.JsMap
use vellar_dapp.JsMap.{JsMap}
use vellar_dapp.LifecycleService.Horizon.{HorizonAccount}
use vellar_dapp.LifecycleService.Builder.{CleanupStep, Sdk, build_cleanup_steps}
use vellar_dapp.LifecycleService.Builder.Resume.{
  ExpectedState, MultiStepPlanTracking, resumed, confirmed_indices, find_gap, balance_map,
  find_new_trustline, changed_from, find_changed_balance, find_divergence, resume_cleanup_plan,
}
use vellar_dapp.Prelude.{
  is_some, length, ℕ, zero, suc, ◌+◌, ◌≤◌, String, ◌≡◌, refl, ◌∙◌, ◌≢◌, ◌⊎◌, true, false, Option,
  none, some, List, [], ◌∷◌, arith, eq_iff,
}

-- i, i + 1, …: `n` numbers.
unfoldable pub count_from : ℕ → ℕ → List ℕ
count_from i zero = []
count_from i (suc n) = i ∷ count_from (i + 1) n

find_gap-none : (i : ℕ) (js : List ℕ) → find_gap i js ≡ none → js ≡ count_from i (length js)
unfolding find_gap count_from
find_gap-none i [] h = refl
find_gap-none i (j ∷ js) h = ground (arith, find_gap-none (i + 1) js)

-- Every balance of `now` was expected, and is as it was or spent.
unfoldable pub AsExpected : JsMap String → JsMap String → Type 0
AsExpected original [] = Unit
AsExpected original ((key, bal) ∷ rest) =
    ((orig : String) × (JsMap.get key original ≡ some orig) × ((bal ≡ orig) ⊎ (bal ≡ "0")))
    × AsExpected original rest

entry_as_expected :
    (bal : String) (orig : Option String)
    → is_some orig ≡ true
    → changed_from bal orig ≡ false
    → (o : String) × (orig ≡ some o) × ((bal ≡ o) ⊎ (bal ≡ "0"))
entry_as_expected bal none a b = absurd (cc)
entry_as_expected bal (some o) a b = (o, refl, ground (arith, eq_iff bal o, eq_iff bal "0"))

no_divergence :
    (original now : JsMap String)
    → find_new_trustline original now ≡ none
    → find_changed_balance original now ≡ none
    → AsExpected original now
unfolding find_new_trustline find_changed_balance AsExpected
no_divergence original [] a b = tt
no_divergence original ((key, bal) ∷ rest) a b = (
  entry_as_expected bal (JsMap.get key original) (ground arith) (ground arith),
  no_divergence original rest (ground arith) (ground arith),
)

-- What holds where a plan is resumed after `done` steps.
pub record Resumes (sdk : Sdk) (current : HorizonAccount) (destination passphrase : String)
    (tracking : MultiStepPlanTracking) (done : ℕ) (remaining : List CleanupStep) : Type 0 where
  pub same_account : current.account_id ≡ tracking.account_id
  pub first_steps : confirmed_indices tracking.steps ≡ count_from 0 done
  pub not_all : done ≢ tracking.total_steps
  pub as_expected :
      AsExpected (balance_map tracking.expected_state.balances []) (balance_map current.balances [])
  pub no_new_offers : current.open_offers ≤ tracking.expected_state.open_offers
  pub rebuilt : build_cleanup_steps sdk current destination passphrase ≡ some remaining

find_divergence-none :
    (current : HorizonAccount) (expected : ExpectedState)
    → find_divergence current expected ≡ none
    → AsExpected (balance_map expected.balances []) (balance_map current.balances [])
      × (current.open_offers ≤ expected.open_offers)
unfolding find_divergence
find_divergence-none current expected h = (
  no_divergence (balance_map expected.balances []) (balance_map current.balances []) (ground arith)
      (ground arith),
  ground arith,
)

-- A plan is resumed only for its own account, with its confirmed steps the first ones without a gap
-- and not all of them, on a state that shows no new trustline, no balance changed other than to "0",
-- and no more offers; the remaining steps are then built anew from the current state.
pub resume_cleanup_plan-Resumes :
    (sdk : Sdk) (current : HorizonAccount) (destination passphrase : String)
    (tracking : MultiStepPlanTracking) (done total : ℕ) (remaining : List CleanupStep)
    → resume_cleanup_plan sdk current destination passphrase tracking ≡ resumed done remaining total
    → Resumes sdk current destination passphrase tracking done remaining
unfolding resume_cleanup_plan
resume_cleanup_plan-Resumes sdk current destination passphrase tracking done total remaining h =
    let undiverged : find_divergence current tracking.expected_state ≡ none = ground arith in
    let gapless : find_gap 0 (confirmed_indices tracking.steps) ≡ none = ground arith in
    let counted : length (confirmed_indices tracking.steps) ≡ done = ground arith in
    let (kept, offers) = find_divergence-none current tracking.expected_state undiverged in
    record {
      same_account = ground (arith, eq_iff current.account_id tracking.account_id);
      first_steps = find_gap-none 0 (confirmed_indices tracking.steps) gapless ∙ (rw counted refl);
      not_all = ground arith;
      as_expected = kept;
      no_new_offers = offers;
      rebuilt = ground arith;
    }
