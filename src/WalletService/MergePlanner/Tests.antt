-- ===== src/WalletService/MergePlanner/Tests.antt =====
-- services/wallet-service/src/merge-planner.ts: an account with a trustline that holds a balance.
use vellar_dapp.WalletService.MergePlanner.{
  AccountBalanceInput, plan_item, plan_items, items_or_default, build_merge_plan,
}
use vellar_dapp.WalletService.MergePlanner.Plan.{count_blocking, Emptied, build_merge_plan_lem}
use vellar_dapp.Prelude.{
  length, All, String, ◌≡◌, refl, ◌↔◌, ◌⊎◌, true, false, Option, none, some, List, [], ◌∷◌,
  to_lower, is_positive,
}

abbrev item : String → String → AccountBalanceInput
item asset balance = record { asset = asset; balance = balance; can_merge_automatically = none }

abbrev balances : Option (List AccountBalanceInput)
balances = some (item "XLM" "5" ∷ item "USD" "0" ∷ item "EUR" "0.5" ∷ [])

build_merge_plan_lem_example :
    (length (build_merge_plan "C1" "C2" balances).collected.source_final
      ≡ length (items_or_default balances))
    × (((build_merge_plan "C1" "C2" balances).can_merge ≡ true)
        ↔ (count_blocking (items_or_default balances) ≡ 0))
    × (((build_merge_plan "C1" "C2" balances).can_merge ≡ false)
        ⊎ All Emptied (build_merge_plan "C1" "C2" balances).collected.source_final)
build_merge_plan_lem_example = build_merge_plan_lem "C1" "C2" balances

one_blocks :
    (count_blocking (items_or_default balances) ≡ 1)
    × (length (build_merge_plan "C1" "C2" balances).collected.blockers ≡ 2)
unfolding build_merge_plan plan_items plan_item is_positive to_lower
one_blocks = (refl, refl)
