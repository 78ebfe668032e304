-- ===== src/ServiceKit/Budget/Tests.antt =====
-- packages/service-kit/src/budget.ts and pg-budget.ts: runs that exercise the theorems.
use vellar_dapp.ServiceKit.Budget.{
  BudgetLine, sponsor, create, testnet, BudgetLimits, LedgerRow, PgBudgetConfig, sum_stroops,
  sum_count, try_consume, Request, consume_all,
}
use vellar_dapp.ServiceKit.Budget.Window.{Fits, consume_all-Fits}
use vellar_dapp.Prelude.{ℕ, ◌≡◌, refl, none, some, List, [], ◌∷◌, arith, stroops}

abbrev limits_of : BudgetLine → BudgetLimits
limits_of create = record { max_stroops = none; max_count = 3 }
limits_of _ = record { max_stroops = some 1000; max_count = 2 }

abbrev config : PgBudgetConfig
config = record { window_ms = 100; limits = limits_of }

abbrev spend : ℕ → ℕ → Request
spend now stroops = record {
  req = record { line = sponsor; network = testnet; stroops = stroops; count = none };
  now = now;
  at = now;
}

abbrev burst : List Request
burst = spend 1 600 ∷ spend 2 600 ∷ spend 3 400 ∷ spend 4 0 ∷ spend 101 600 ∷ []

-- The second is over the stroops, the fourth over the count, and the last has a window to itself
-- but for the third.
burst_spends :
    (sum_stroops config sponsor testnet 101 (consume_all config burst []) ≡ 1000)
    × (sum_count config sponsor testnet 101 (consume_all config burst []) ≡ 2)
unfolding consume_all try_consume sum_stroops sum_count
burst_spends = (refl, refl)

consume_all-Fits_example : Fits config sponsor testnet (consume_all config burst []) 101
unfolding sum_stroops sum_count
consume_all-Fits_example =
    consume_all-Fits config sponsor testnet 101 burst [] (omega arith)
      (record { count_fits = omega arith; stroops_fit = omega arith })

abbrev before : List LedgerRow
before = consume_all config burst []
