-- ===== src/ServiceKit/Budget/Window.antt =====
-- packages/service-kit/src/pg-budget.ts: no window is ever overspent.
use vellar_dapp.ServiceKit.Budget.{
  BudgetLine, BudgetNetwork, ConsumeRequest, consumed, refused, LedgerRow, same_line, same_network,
  PgBudgetConfig, sum_stroops, sum_count, try_consume, Request, consume_all, within_ceiling, Prior,
}
use vellar_dapp.Prelude.{
  if◌then◌else◌, Bool-cases, All, ℕ, ◌≤◌, ◌≡◌, sym, subst, inl, inr, true, false, ◌&&◌, Option,
  none, some, List, [], ◌∷◌, arith, stroops,
}

module _ (c : PgBudgetConfig) (line : BudgetLine) (network : BudgetNetwork) where
  -- Rows only leave a window as time goes on.
  sum_count_later :
      (now later : ℕ) (rows : List LedgerRow)
      → now ≤ later
      → sum_count c line network later rows ≤ sum_count c line network now rows
  unfolding sum_count
  sum_count_later now later [] h = omega arith
  sum_count_later now later (row ∷ rows) h = ground (arith, sum_count_later now later rows h)

  sum_stroops_later :
      (now later : ℕ) (rows : List LedgerRow)
      → now ≤ later
      → sum_stroops c line network later rows ≤ sum_stroops c line network now rows
  unfolding sum_stroops
  sum_stroops_later now later [] h = omega arith
  sum_stroops_later now later (row ∷ rows) h = ground (arith, sum_stroops_later now later rows h)

abbrev StroopsFit : Option ℕ → ℕ → Type 0
StroopsFit none spent = Unit
StroopsFit (some most) spent = spent ≤ most

-- At `t` the window of the line and network holds no more than the limits allow.
pub record Fits (c : PgBudgetConfig) (line : BudgetLine) (network : BudgetNetwork)
    (rows : List LedgerRow) (t : ℕ) : Type 0 where
  pub count_fits : sum_count c line network t rows ≤ (c.limits line).max_count
  pub stroops_fit : StroopsFit (c.limits line).max_stroops (sum_stroops c line network t rows)

same_key :
    (a b : BudgetLine) (m n : BudgetNetwork)
    → same_line a b && same_network m n ≡ true
    → (a ≡ b) × (m ≡ n)
same_key a b m n h = ground arith

module _ (c : PgBudgetConfig) (r : Request) (rows : List LedgerRow) (t : ℕ) where
  -- A request for the line itself: the guard is on a window that holds no less.
  own_key :
      r.now ≤ t
      → Fits c r.req.line r.req.network rows t
      → Fits c r.req.line r.req.network (try_consume c r.req r.now r.at rows).0 t
  unfolding try_consume sum_count sum_stroops
  own_key le h = ground (
    arith,
    sum_count_later c r.req.line r.req.network r.now t rows le,
    sum_stroops_later c r.req.line r.req.network r.now t rows le,
  )

  -- A request for another key adds a row that this window does not count.
  other_key :
      (line : BudgetLine) (network : BudgetNetwork)
      → same_line r.req.line line && same_network r.req.network network ≡ false
      → Fits c line network rows t
      → Fits c line network (try_consume c r.req r.now r.at rows).0 t
  unfolding try_consume sum_count sum_stroops
  other_key line network other h = ground arith

  try_consume-Fits :
      (line : BudgetLine) (network : BudgetNetwork)
      → r.now ≤ t
      → Fits c line network rows t
      → Fits c line network (try_consume c r.req r.now r.at rows).0 t
  try_consume-Fits line network le h =
      elim (Bool-cases (same_line r.req.line line && same_network r.req.network network)) [
        | inl same ↦
            let (p, q) = same_key r.req.line line r.req.network network same in
            subst (λ l. Fits c l network (try_consume c r.req r.now r.at rows).0 t) p
              (subst (λ n. Fits c r.req.line n (try_consume c r.req r.now r.at rows).0 t) q
                (own_key le (
                  subst (λ n. Fits c r.req.line n rows t) (sym q)
                    (subst (λ l. Fits c l network rows t) (sym p) h))))
        | inr other ↦ other_key line network other h
      ]

-- If the window that ends at `t` fits to begin with, then after any requests whose clocks do not
-- pass `t`, for whatever lines and networks, the window of each line and network that ends at `t`
-- holds at most the count and, where the line has a limit on them, at most the stroops allowed.
pub consume_all-Fits :
    (c : PgBudgetConfig) (line : BudgetLine) (network : BudgetNetwork) (t : ℕ) (rs : List Request)
    (rows : List LedgerRow)
    → All (λ (r : Request). r.now ≤ t) rs
    → Fits c line network rows t
    → Fits c line network (consume_all c rs rows) t
unfolding consume_all
consume_all-Fits c line network t [] rows by h = h
consume_all-Fits c line network t (r ∷ rs) rows by h =
    consume_all-Fits c line network t rs (try_consume c r.req r.now r.at rows).0 by.1
      (try_consume-Fits c r rows t line network by.0 h)

-- A call for one unit is recorded exactly if `withinCeiling` accepts it on top of the window's sums;
-- otherwise the ledger stays as it is and the reason is "budget_exceeded".
pub try_consume-within_ceiling :
    (c : PgBudgetConfig) (line : BudgetLine) (network : BudgetNetwork) (stroops now at : ℕ)
    (rows : List LedgerRow)
    → let req : ConsumeRequest = record {
      line = line;
      network = network;
      stroops = stroops;
      count = none;
    } in
      let prior : Prior = record {
        prior_stroops = sum_stroops c line network now rows;
        prior_count = sum_count c line network now rows;
      } in
      let row : LedgerRow = record {
        line = line;
        network = network;
        stroops = stroops;
        count = 1;
        at = at;
      } in
      try_consume c req now at rows ≡ (
        if within_ceiling prior stroops (c.limits line)
        then (row ∷ rows, consumed)
        else (rows, refused "budget_exceeded"))
unfolding try_consume within_ceiling
try_consume-within_ceiling c line network stroops now at rows = ground arith
