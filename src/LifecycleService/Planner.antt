-- ===== src/LifecycleService/Planner.antt =====
-- services/lifecycle-service/src/planner.ts: the guided cleanup plan of an account. The check of a
-- key's checksum is the SDK's and is not modelled.
pub mod Estimate
mod Tests
use vellar_dapp.LifecycleService.Horizon.{
  HorizonBalance, HorizonOffer, HorizonAccount, is_native, Page, follow_pages, max_offer_pages,
  max_trustline_pages, fetch_all_balances, AccountPage, get_account,
}
use vellar_dapp.Prelude.{
  ltb, if◌then◌else◌, get_or, length, filter, to_string, ℕ, zero, suc, ◌+◌, ◌-◌, ◌*◌, ◌/◌, max,
  String, ◌<>◌, Bool, true, false, not, List, [], ◌∷◌, ◌++◌, map, stroops,
}

abbrev pub ops_per_tx : ℕ
ops_per_tx = 100

abbrev pub base_reserve_stroops : ℕ
base_reserve_stroops = 5000000

abbrev pub base_fee_stroops : ℕ
base_fee_stroops = 100

pub data BlockerType : Type 0 where
  balance_blocker trustline_blocker offer_blocker data_blocker : BlockerType

pub record Blocker : Type 0 where
  pub blocker_type : BlockerType
  pub description : String
  pub action_required : String

pub record CleanupPlan : Type 0 where
  pub account_id : String
  pub destination : String
  pub blockers : List Blocker
  pub estimated_transactions : ℕ
  pub merge_ready : Bool

-- The amounts in XLM and the message repeat the two numbers as texts.
pub record InsufficientSpendableBalance : Type 0 where
  pub spendable_balance_stroops : ℕ
  pub required_fee_stroops : ℕ
  pub account_id : String
  pub destination : String

pub data CleanupPlanResult : Type 0 where
  planned : CleanupPlan → CleanupPlanResult
  insufficient : InsufficientSpendableBalance → CleanupPlanResult
  incomplete_error : CleanupPlanResult

native_stroops : List HorizonBalance → ℕ
native_stroops [] = 0
native_stroops (b ∷ bs) = if is_native b then stroops b.balance else native_stroops bs

unfoldable pub calculate_spendable_balance : HorizonAccount → ℕ
unfolding native_stroops
calculate_spendable_balance account =
    let subentries = get_or account.subentry_count (
      length (filter (λ (b : HorizonBalance). not (is_native b)) account.balances)
      + account.open_offers
      + length account.data_keys) in
    let reserve = (2 + subentries) * base_reserve_stroops in
    let native = native_stroops account.balances in
    if ltb reserve native then native - reserve else 0

-- The loop that counts the payments and the trustline removals.
unfoldable pub balance_ops : List HorizonBalance → ℕ
balance_ops [] = 0
balance_ops (b ∷ bs) =
    let rest = balance_ops bs in
    if is_native b then rest else if ltb 0 (stroops b.balance) then 2 + rest else 1 + rest

unfoldable pub cleanup_ops : HorizonAccount → ℕ
unfolding balance_ops
cleanup_ops account = balance_ops account.balances + account.open_offers + length account.data_keys

unfoldable pub calculate_required_fee : HorizonAccount → ℕ
unfolding cleanup_ops
calculate_required_fee account = max 1 (cleanup_ops account) * base_fee_stroops

abbrev pub asset_name : HorizonBalance → String
asset_name b = get_or b.asset_code "?" <> (":" <> get_or b.asset_issuer "?")

abbrev trustline_blocker_of : HorizonBalance → Blocker
trustline_blocker_of b = record {
  blocker_type = trustline_blocker;
  description = "Trustline to " <> asset_name b;
  action_required =
      "Remove the " <> (get_or b.asset_code (asset_name b) <> " trustline (requires zero balance)");
}

abbrev balance_blocker_of : HorizonBalance → Blocker
balance_blocker_of b = record {
  blocker_type = balance_blocker;
  description = "Holds " <> (b.balance <> (" " <> get_or b.asset_code (asset_name b)));
  action_required =
      "Transfer or burn the "
      <> (get_or b.asset_code (asset_name b) <> " balance before removing its trustline");
}

balance_blockers : List HorizonBalance → List Blocker
balance_blockers [] = []
balance_blockers (b ∷ bs) =
    let rest = balance_blockers bs in
    if is_native b
    then rest
    else if ltb 0 (stroops b.balance)
    then balance_blocker_of b ∷ trustline_blocker_of b ∷ rest
    else trustline_blocker_of b ∷ rest

abbrev offer_blockers : ℕ → List Blocker
offer_blockers zero = []
offer_blockers (suc n) =
    (record {
      blocker_type = offer_blocker;
      description = to_string (suc n) <> " open DEX offer(s)";
      action_required = "Cancel all open offers";
    })
    ∷ []

abbrev data_blocker_of : String → Blocker
data_blocker_of key = record {
  blocker_type = data_blocker;
  description = "Managed data entry \"" <> (key <> "\"");
  action_required = "Delete the \"" <> (key <> "\" data entry");
}

unfoldable pub blockers_of : HorizonAccount → List Blocker
unfolding balance_blockers
blockers_of account =
    balance_blockers account.balances
    ++ (offer_blockers account.open_offers ++ map data_blocker_of account.data_keys)

-- Math.ceil(n / 100)
abbrev pub ceil_txs : ℕ → ℕ
ceil_txs n = (n + 99) / ops_per_tx

abbrev pub has_none {ℓ} : {A : Type ℓ} → List A → Bool
has_none [] = true
has_none (x ∷ xs) = false

unfoldable pub build_cleanup_plan : HorizonAccount → String → CleanupPlanResult
unfolding calculate_spendable_balance calculate_required_fee blockers_of cleanup_ops
build_cleanup_plan account destination =
    let spendable = calculate_spendable_balance account in
    let required = calculate_required_fee account in
    let blockers = blockers_of account in
    if account.pagination_incomplete
    then incomplete_error
    else if ltb spendable required
    then insufficient (record {
      spendable_balance_stroops = spendable;
      required_fee_stroops = required;
      account_id = account.account_id;
      destination = destination;
    })
    else planned (record {
      account_id = account.account_id;
      destination = destination;
      blockers = blockers;
      estimated_transactions =
          if has_none blockers then 1 else max 1 (ceil_txs (cleanup_ops account) + 1);
      merge_ready = has_none blockers;
    })
