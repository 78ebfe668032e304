-- ===== src/ServiceKit/Budget.antt =====
-- packages/service-kit/src/budget.ts and pg-budget.ts: the ceilings on spending. The table
-- `spend_ledger` is a list of rows; the statement that checks and inserts runs under an advisory
-- lock of its (line, network), so a call is one step on the list. The two reads of the clock are
-- arguments; row ids are left out, since nothing reads them.
pub mod Window
mod Tests
use vellar_dapp.Prelude.{
  ltb, leb, if◌then◌else◌, get_or, ℕ, ◌+◌, String, Bool, true, false, not, ◌&&◌, Option, none, some,
  List, [], ◌∷◌, stroops,
}

pub data BudgetLine : Type 0 where
  sponsor deploy create : BudgetLine

pub data BudgetNetwork : Type 0 where
  testnet mainnet : BudgetNetwork

pub record BudgetLimits : Type 0 where
  pub max_stroops : Option ℕ
  pub max_count : ℕ

pub record ConsumeRequest : Type 0 where
  pub line : BudgetLine
  pub network : BudgetNetwork
  pub stroops : ℕ
  pub count : Option ℕ

pub data ConsumeResult : Type 0 where
  consumed : ConsumeResult
  refused : String → ConsumeResult

pub record Prior : Type 0 where
  pub prior_stroops : ℕ
  pub prior_count : ℕ

-- `priorStroops + addStroops > limits.maxStroops`, where there is a limit.
abbrev pub over_stroops : Option ℕ → ℕ → Bool
over_stroops none spent = false
over_stroops (some most) spent = ltb most spent

unfoldable pub within_ceiling : Prior → ℕ → BudgetLimits → Bool
within_ceiling prior add_stroops limits =
    if ltb limits.max_count (prior.prior_count + 1)
    then false
    else not (over_stroops limits.max_stroops (prior.prior_stroops + add_stroops))

-- createUnavailableBudget
unfoldable pub try_consume_unavailable : ConsumeRequest → ConsumeResult
try_consume_unavailable req = refused "budget_unavailable"

pub record LedgerRow : Type 0 where
  pub line : BudgetLine
  pub network : BudgetNetwork
  pub stroops : ℕ
  pub count : ℕ
  pub at : ℕ

abbrev pub same_line : BudgetLine → BudgetLine → Bool
same_line sponsor sponsor = true
same_line deploy deploy = true
same_line create create = true
same_line _ _ = false

abbrev pub same_network : BudgetNetwork → BudgetNetwork → Bool
same_network testnet testnet = true
same_network mainnet mainnet = true
same_network _ _ = false

pub record PgBudgetConfig : Type 0 where
  pub window_ms : ℕ
  pub limits : BudgetLine → BudgetLimits

-- `WHERE line = … AND network = … AND at > windowStart`, with windowStart = now - windowMs.
abbrev pub in_window : PgBudgetConfig → BudgetLine → BudgetNetwork → ℕ → LedgerRow → Bool
in_window c line network now row =
    same_line row.line line && (same_network row.network network && ltb now (row.at + c.window_ms))

-- `COALESCE(SUM(stroops), 0)` and `COALESCE(SUM(count), 0)` over the rows of the window.
unfoldable pub sum_stroops : PgBudgetConfig → BudgetLine → BudgetNetwork → ℕ → List LedgerRow → ℕ
sum_stroops c line network now [] = 0
sum_stroops c line network now (row ∷ rows) =
    (if in_window c line network now row then row.stroops else 0)
    + sum_stroops c line network now rows

unfoldable pub sum_count : PgBudgetConfig → BudgetLine → BudgetNetwork → ℕ → List LedgerRow → ℕ
sum_count c line network now [] = 0
sum_count c line network now (row ∷ rows) =
    (if in_window c line network now row then row.count else 0) + sum_count c line network now rows

-- The transaction of `tryConsume`: `now` is the clock at windowStart, `at` the clock of the row.
unfoldable pub try_consume :
    PgBudgetConfig → ConsumeRequest → ℕ → ℕ → List LedgerRow → List LedgerRow × ConsumeResult
try_consume c req now at ledger =
    let limits = c.limits req.line in
    let add_count = get_or req.count 1 in
    let row : LedgerRow = record {
      line = req.line;
      network = req.network;
      stroops = req.stroops;
      count = add_count;
      at = at;
    } in
    if leb (sum_count c req.line req.network now ledger + add_count) limits.max_count
      && not (
          over_stroops limits.max_stroops
            (sum_stroops c req.line req.network now ledger + req.stroops))
    then (row ∷ ledger, consumed)
    else (ledger, refused "budget_exceeded")

pub record Request : Type 0 where
  pub req : ConsumeRequest
  pub now : ℕ
  pub at : ℕ

unfoldable pub consume_all : PgBudgetConfig → List Request → List LedgerRow → List LedgerRow
consume_all c [] ledger = ledger
consume_all c (r ∷ rs) ledger = consume_all c rs (try_consume c r.req r.now r.at ledger).0
