-- ===== src/LifecycleService/Planner/Estimate.antt =====
-- services/lifecycle-service/src/planner.ts: what the plan promises.
use vellar_dapp.LifecycleService.Horizon.{HorizonBalance, HorizonAccount}
use vellar_dapp.LifecycleService.Planner.{
  CleanupPlan, planned, calculate_spendable_balance, balance_ops, cleanup_ops,
  calculate_required_fee, balance_blockers, offer_blockers, data_blocker_of, blockers_of, has_none,
  build_cleanup_plan,
}
use vellar_dapp.Prelude.{
  ◌==◌, length, length-append, length-map, ℕ, zero, suc, ◌+◌, ◌*◌, ◌/◌, ◌≤◌, max, String, ◌≡◌, refl,
  ◌∙◌, ◌↔◌, false, List, [], ◌∷◌, map, arith,
}

balance_blockers-length : (bs : List HorizonBalance) → length (balance_blockers bs) ≡ balance_ops bs
unfolding balance_blockers balance_ops
balance_blockers-length [] = refl
balance_blockers-length (b ∷ bs) = ground (arith, balance_blockers-length bs)

offer_blockers-zero : (n : ℕ) → (length (offer_blockers n) ≡ 0) ↔ (n ≡ 0)
offer_blockers-zero zero = ground arith
offer_blockers-zero (suc n) = ground arith

blockers_of-length :
    (account : HorizonAccount)
    → length (blockers_of account)
      ≡ balance_ops account.balances
        + (length (offer_blockers account.open_offers) + length account.data_keys)
unfolding blockers_of
blockers_of-length account =
    length-append (balance_blockers account.balances) _
    ∙ (rw
        (
          length-append (offer_blockers account.open_offers)
              (map data_blocker_of account.data_keys),
          length-map data_blocker_of account.data_keys,
          balance_blockers-length account.balances,
        )
        refl)

has_none-length {ℓ} : {A : Type ℓ} (xs : List A) → has_none xs ≡ (length xs == 0)
has_none-length [] = refl
has_none-length (x ∷ xs) = ground arith

-- There is no blocker exactly if there is no operation to do.
pub has_none-cleanup_ops :
    (account : HorizonAccount) → has_none (blockers_of account) ≡ (cleanup_ops account == 0)
unfolding cleanup_ops
has_none-cleanup_ops account = ground (
  arith,
  blockers_of-length account,
  has_none-length (blockers_of account),
  offer_blockers-zero account.open_offers,
)

-- A plan is made only for an account that is not marked as cut off at its pages, a mark which its
-- reader has to set, and whose spendable balance covers the fee of every operation counted, of one
-- at least; its estimate is then a transaction for every
-- hundred operations begun and the merge, and it is ready to merge exactly if there is none to do.
pub build_cleanup_plan_lem :
    (account : HorizonAccount) (destination : String) (plan : CleanupPlan)
    → build_cleanup_plan account destination ≡ planned plan
    → (account.pagination_incomplete ≡ false)
      × (max 1 (cleanup_ops account) * 100 ≤ calculate_spendable_balance account)
      × (plan.estimated_transactions ≡ (cleanup_ops account + 99) / 100 + 1)
      × (plan.merge_ready ≡ (cleanup_ops account == 0))
unfolding build_cleanup_plan calculate_required_fee
build_cleanup_plan_lem account destination plan h = ground (arith, has_none-cleanup_ops account)
