-- ===== src/LifecycleService/Builder/Resume.antt =====
-- services/lifecycle-service/src/builder.ts: the tracking of a plan of several steps, and its
-- resumption. A reason for a fresh plan carries the values that its text mentions.
pub mod Confirmed
pub mod Unchanged
use vellar_dapp.JsMap
use vellar_dapp.JsMap.{JsMap}
use vellar_dapp.LifecycleService.Horizon.{
  HorizonBalance, HorizonOffer, HorizonAccount, is_native, Page, follow_pages, max_offer_pages,
  max_trustline_pages, fetch_all_balances, AccountPage, get_account,
}
use vellar_dapp.LifecycleService.Builder.{
  ops_per_tx, Asset, native, issued, Operation, manage_sell_offer, payment, change_trust,
  manage_data, account_merge, CleanupOp, CleanupStep, Sdk, nonempty, to_asset, get_code,
  offer_asset, cancel_offer, cancel_offers, pay_out, remove_trustline, balance_cleanup,
  empty_balances, delete_data, collect_cleanup_ops, op_of, action_of, join_actions, make_step,
  build_from, build_cleanup_steps, build_merge_step,
}
use vellar_dapp.Prelude.{
  ltb, ◌==◌, if◌then◌else◌, get_or, is_some, length, filter, to_string, sort_by, ℕ, ◌+◌, String,
  ◌<>◌, Bool, true, false, not, ◌&&◌, Option, none, some, List, [], ◌∷◌, map, str_eq,
}

pub record StepConfirmation : Type 0 where
  pub step_index : ℕ
  pub hash : String
  pub confirmed : Bool
  pub confirmed_at : Option ℕ

pub record ExpectedState : Type 0 where
  pub sequence : ℕ
  pub balances : List HorizonBalance
  pub data_keys : List String
  pub open_offers : ℕ

pub record MultiStepPlanTracking : Type 0 where
  pub plan_id : String
  pub account_id : String
  pub destination : String
  pub total_steps : ℕ
  pub steps : List StepConfirmation
  pub original_steps : List CleanupStep
  pub expected_state : ExpectedState

unfoldable pub unconfirmed_from : ℕ → List CleanupStep → List StepConfirmation
unconfirmed_from idx [] = []
unconfirmed_from idx (s ∷ ss) =
    (record { step_index = idx; hash = s.hash; confirmed = false; confirmed_at = none })
    ∷ unconfirmed_from (idx + 1) ss

unfoldable pub create_plan_tracking :
    HorizonAccount → String → List CleanupStep → ℕ → MultiStepPlanTracking
unfolding unconfirmed_from
create_plan_tracking account destination steps now = record {
  plan_id = "plan_" <> (account.account_id <> ("_" <> to_string now));
  account_id = account.account_id;
  destination = destination;
  total_steps = length steps;
  steps = unconfirmed_from 0 steps;
  original_steps = steps;
  expected_state = record {
    sequence = account.sequence;
    balances = account.balances;
    data_keys = account.data_keys;
    open_offers = account.open_offers;
  };
}

pub data StepRef : Type 0 where
  by_index : ℕ → StepRef
  by_hash : String → StepRef

abbrev pub refers : StepRef → StepConfirmation → Bool
refers (by_index i) s = s.step_index == i
refers (by_hash h) s = str_eq s.hash h

unfoldable pub confirm : StepRef → ℕ → StepConfirmation → StepConfirmation
confirm ref now s =
    if refers ref s
    then record s { confirmed = true; confirmed_at = some (get_or s.confirmed_at now) }
    else s

unfoldable pub record_step_confirmation :
    MultiStepPlanTracking → StepRef → ℕ → MultiStepPlanTracking
unfolding confirm
record_step_confirmation tracking ref now = record tracking {
  steps = map (confirm ref now) tracking.steps;
}

pub data FreshReason : Type 0 where
  account_mismatch : String → String → FreshReason
  non_contiguous : ℕ → ℕ → FreshReason
  new_trustline : String → String → FreshReason
  balance_changed : String → String → String → FreshReason
  offers_increased : ℕ → ℕ → FreshReason

pub data ResumePlanResult : Type 0 where
  resumed : ℕ → List CleanupStep → ℕ → ResumePlanResult
  all_confirmed : ResumePlanResult
  fresh_plan_required : FreshReason → ResumePlanResult
  build_error : ResumePlanResult

abbrev pub index_of : StepConfirmation → ℕ
index_of s = s.step_index

abbrev pub is_confirmed : StepConfirmation → Bool
is_confirmed s = s.confirmed

unfoldable pub confirmed_indices : List StepConfirmation → List ℕ
confirmed_indices steps = sort_by (λ (i : ℕ). i) (map index_of (filter is_confirmed steps))

-- The loop that looks for a gap from place `i` on.
unfoldable pub find_gap : ℕ → List ℕ → Option FreshReason
find_gap i [] = none
find_gap i (j ∷ js) =
    let rest = find_gap (i + 1) js in if j == i then rest else some (non_contiguous i j)

-- An absent code or issuer prints as "undefined".
abbrev pub balance_key : HorizonBalance → String
balance_key b = get_or b.asset_code "undefined" <> (":" <> get_or b.asset_issuer "undefined")

unfoldable pub balance_map : List HorizonBalance → JsMap String → JsMap String
balance_map [] m = m
balance_map (b ∷ bs) m =
    let rest = balance_map bs (JsMap.set (balance_key b) b.balance m) in
    let skipped = balance_map bs m in if is_native b then skipped else rest

-- The two loops over the entries of the current balances.
unfoldable pub find_new_trustline : JsMap String → JsMap String → Option FreshReason
find_new_trustline original [] = none
find_new_trustline original ((key, bal) ∷ rest) =
    let later = find_new_trustline original rest in
    if is_some (JsMap.get key original) then later else some (new_trustline key bal)

abbrev pub changed_from : String → Option String → Bool
changed_from cur none = false
changed_from cur (some orig) = not (str_eq cur orig) && not (str_eq cur "0")

unfoldable pub find_changed_balance : JsMap String → JsMap String → Option FreshReason
find_changed_balance original [] = none
find_changed_balance original ((key, bal) ∷ rest) =
    let later = find_changed_balance original rest in
    let orig = JsMap.get key original in
    if changed_from bal orig then some (balance_changed key (get_or orig "") bal) else later

-- The checks of the state on chain, in their order.
unfoldable pub find_divergence : HorizonAccount → ExpectedState → Option FreshReason
unfolding balance_map find_new_trustline find_changed_balance
find_divergence current expected =
    let original = balance_map expected.balances [] in
    let now = balance_map current.balances [] in
    elim (find_new_trustline original now) [
      | some reason ↦ some reason
      | none ↦ elim (find_changed_balance original now) [
        | some reason ↦ some reason
        | none ↦
            if ltb expected.open_offers current.open_offers
            then some (offers_increased expected.open_offers current.open_offers)
            else none
      ]
    ]

abbrev resumed_with : ℕ → ℕ → Option (List CleanupStep) → ResumePlanResult
resumed_with done total none = build_error
resumed_with done total (some remaining) = resumed done remaining total

unfoldable pub resume_cleanup_plan :
    Sdk → HorizonAccount → String → String → MultiStepPlanTracking → ResumePlanResult
unfolding confirmed_indices find_gap find_divergence build_cleanup_steps
resume_cleanup_plan sdk current destination passphrase tracking =
    let indices = confirmed_indices tracking.steps in
    let checked : ResumePlanResult = elim (find_gap 0 indices) [
      | some gap ↦ fresh_plan_required gap
      | none ↦ elim (find_divergence current tracking.expected_state) [
        | some reason ↦ fresh_plan_required reason
        | none ↦
            resumed_with (length indices) tracking.total_steps
              (build_cleanup_steps sdk current destination passphrase)
      ]
    ] in
    if str_eq current.account_id tracking.account_id
    then if length indices == tracking.total_steps then all_confirmed else checked
    else fresh_plan_required (account_mismatch tracking.account_id current.account_id)
