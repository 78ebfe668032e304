-- ===== src/LifecycleService/Planner/Tests.antt =====
-- services/lifecycle-service/src/planner.ts: an account that can be cleaned up.
use vellar_dapp.LifecycleService.Horizon.{HorizonBalance, HorizonAccount}
use vellar_dapp.LifecycleService.Planner.{
  CleanupPlan, native_stroops, calculate_spendable_balance, balance_ops, cleanup_ops,
  calculate_required_fee, balance_blockers, blockers_of, build_cleanup_plan,
}
use vellar_dapp.LifecycleService.Planner.Estimate.{build_cleanup_plan_lem}
use vellar_dapp.Prelude.{
  ◌==◌, to_string, ◌+◌, ◌*◌, ◌/◌, ◌≤◌, max, ◌≡◌, refl, false, none, some, [], ◌∷◌, stroops,
}

abbrev xlm : HorizonBalance
xlm = record {
  asset_type = "native";
  asset_code = none;
  asset_issuer = none;
  balance = "10.0000000";
}

abbrev usd : HorizonBalance
usd = record {
  asset_type = "credit_alphanum4";
  asset_code = some "USD";
  asset_issuer = some "G1";
  balance = "2.0000000";
}

abbrev account : HorizonAccount
account = record {
  account_id = "G0";
  sequence = 7;
  subentry_count = none;
  balances = usd ∷ xlm ∷ [];
  data_keys = "k" ∷ [];
  offers = [];
  open_offers = 0;
  pagination_incomplete = false;
}

abbrev plan : CleanupPlan
plan = record {
  account_id = "G0";
  destination = "G9";
  blockers = blockers_of account;
  estimated_transactions = 2;
  merge_ready = false;
}

build_cleanup_plan_lem_example :
    (account.pagination_incomplete ≡ false)
    × (max 1 (cleanup_ops account) * 100 ≤ calculate_spendable_balance account)
    × (plan.estimated_transactions ≡ (cleanup_ops account + 99) / 100 + 1)
    × (plan.merge_ready ≡ (cleanup_ops account == 0))
unfolding build_cleanup_plan blockers_of balance_blockers calculate_spendable_balance
    calculate_required_fee native_stroops cleanup_ops balance_ops stroops to_string
build_cleanup_plan_lem_example = build_cleanup_plan_lem account "G9" plan refl
