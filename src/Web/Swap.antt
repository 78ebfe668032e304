-- ===== src/Web/Swap.antt =====
-- apps/web/lib/swap/quote.ts: the arithmetic of swaps. Amounts are natural numbers: a negative amount
-- is refused by the same tests as zero. An asset is its contract's id and its number of decimals.
pub mod Client
pub mod Floor
pub mod Best
mod Tests
use vellar_dapp.Prelude.{
  ltb, leb, ◌==◌, if◌then◌else◌, get_or, length, to_string, ℕ, zero, suc, ◌+◌, ◌-◌, ◌*◌, ◌/◌, ◌%◌,
  ◌^◌, String, ◌<>◌, Bool, true, false, not, ◌&&◌, Option, none, some, List, [], ◌∷◌, str_eq,
  Result, ok, err, ◌>>=◌, ◌>>◌, trim, utf16_length, codes,
}

pub data SwapQuoteError : Type 0 where
  bad_slippage malformed_slippage no_output too_small same_asset no_amount : SwapQuoteError
  other_route inconsistent unexpected no_liquidity no_rate : SwapQuoteError
  no_route unknown_asset expired : SwapQuoteError

abbrev pub Quoted : Type 0 → Type 0
Quoted = Result SwapQuoteError

abbrev pub require : Bool → SwapQuoteError → Quoted (Unit {0})
require true e = ok tt
require false e = err e

pub record RegisteredAsset : Type 0 where
  pub contract_id : String
  pub decimals : ℕ

pub record SwapQuote : Type 0 where
  pub sell : RegisteredAsset
  pub buy : RegisteredAsset
  pub amount_in : ℕ
  pub expected_out : ℕ
  pub path : List String
  pub hop_amounts : List ℕ
  pub quoted_at : ℕ

pub record SlippageBound : Type 0 where
  pub slippage_bps : ℕ
  pub min_out : ℕ

abbrev pub bps_denominator : ℕ
bps_denominator = 10000

abbrev pub min_slippage_bps : ℕ
min_slippage_bps = 1

abbrev pub max_slippage_bps : ℕ
max_slippage_bps = 500

unfoldable pub assert_slippage_bps : ℕ → Quoted (Unit {0})
assert_slippage_bps bps =
    require (leb min_slippage_bps bps && leb bps max_slippage_bps) bad_slippage

abbrev is_digit : ℕ → Bool
is_digit c = leb 48 c && leb c 57

-- The part after the point, of one or two digits, in hundredths.
abbrev hundredths : List ℕ → Option ℕ
hundredths (a ∷ []) = if is_digit a then some ((a - 48) * 10) else none
hundredths (a ∷ b ∷ []) = if is_digit a && is_digit b then some ((a - 48) * 10 + (b - 48)) else none
hundredths _ = none

-- What follows the whole percents.
abbrev after_whole : ℕ → List ℕ → Option ℕ
after_whole percent [] = some (percent * 100)
after_whole percent (c ∷ cs) =
    if c == 46
    then elim (hundredths cs) [ none ↦ none | some h ↦ some (percent * 100 + h) ]
    else none

-- One or two digits, and a fraction that may be left out.
abbrev pub basis_points : List ℕ → Option ℕ
basis_points [] = none
basis_points (a ∷ []) = if is_digit a then some ((a - 48) * 100) else none
basis_points (a ∷ b ∷ cs) =
    if is_digit a
    then if is_digit b
      then after_whole ((a - 48) * 10 + (b - 48)) cs
      else after_whole (a - 48) (b ∷ cs)
    else none

unfoldable pub parse_slippage_percent : String → Quoted ℕ
unfolding assert_slippage_bps trim
parse_slippage_percent input = elim (basis_points (codes (trim input))) [
  | none ↦ err malformed_slippage
  | some bps ↦ do assert_slippage_bps bps; ok bps
]

unfoldable pub minimum_out : ℕ → ℕ → Quoted ℕ
minimum_out expected_out slippage_bps = do
  assert_slippage_bps slippage_bps
  require (ltb 0 expected_out) no_output
  let least = expected_out * (bps_denominator - slippage_bps) / bps_denominator
  require (ltb 0 least) too_small
  ok least

unfoldable pub slippage_bound : SwapQuote → ℕ → Quoted SlippageBound
slippage_bound quote slippage_bps = do
  least ← minimum_out quote.expected_out slippage_bps
  ok (record { slippage_bps = slippage_bps; min_out = least })

abbrev pub head? {ℓ} : {A : Type ℓ} → List A → Option A
head? [] = none
head? (x ∷ xs) = some x

abbrev pub last? {ℓ} : {A : Type ℓ} → List A → Option A
last? [] = none
last? (x ∷ xs) = elim (last? xs) [ none ↦ some x | some y ↦ some y ]

abbrev pub is_text : Option String → String → Bool
is_text none s = false
is_text (some t) s = str_eq t s

abbrev pub is_amount : Option (Option ℕ) → ℕ → Bool
is_amount (some (some n)) m = n == m
is_amount _ m = false

-- The amounts, where none is missing.
abbrev pub all_amounts : List (Option ℕ) → Option (List ℕ)
all_amounts [] = some []
all_amounts (none ∷ amounts) = none
all_amounts (some n ∷ amounts) = elim (all_amounts amounts) [
  | none ↦ none
  | some ns ↦ some (n ∷ ns)
]

abbrev pub all_positive : List ℕ → Bool
all_positive [] = true
all_positive (n ∷ ns) = ltb 0 n && all_positive ns

abbrev pub present : Option (List ℕ) → Quoted (List ℕ)
present none = err unexpected
present (some amounts) = ok amounts

-- `hop_amounts` is what the venue answered, in which an amount may be missing.
unfoldable pub normalize_quote :
    RegisteredAsset → RegisteredAsset → ℕ → List String → List (Option ℕ) → ℕ → Quoted SwapQuote
normalize_quote sell buy amount_in path hop_amounts quoted_at = do
  require (not (str_eq sell.contract_id buy.contract_id)) same_asset
  require (ltb 0 amount_in) no_amount
  require
      (leb 2 (length path)
        && is_text (head? path) sell.contract_id
        && is_text (last? path) buy.contract_id)
      other_route
  require (length hop_amounts == length path && is_amount (head? hop_amounts) amount_in)
      inconsistent
  amounts ← present (all_amounts hop_amounts)
  require (all_positive amounts) no_liquidity
  ok (record {
    sell = sell;
    buy = buy;
    amount_in = amount_in;
    expected_out = get_or (last? amounts) 0;
    path = path;
    hop_amounts = amounts;
    quoted_at = quoted_at;
  })

abbrev pub quote_ttl_ms : ℕ
quote_ttl_ms = 30000

-- `now - quoted_at <= max_age_ms`, which a quote from the future meets too.
abbrev pub is_quote_fresh : SwapQuote → ℕ → ℕ → Bool
is_quote_fresh quote now max_age_ms = leb now (quote.quoted_at + max_age_ms)

strip_zeros : String → String
strip_zeros String.[] = ""
strip_zeros (String.◌∷◌ c s) =
    let rest = strip_zeros s in
    if str_eq rest "" && str_eq (String.◌∷◌ c "") "0" then "" else String.◌∷◌ c rest

abbrev zeros : ℕ → String
zeros zero = ""
zeros (suc n) = "0" <> zeros n

pad_start : ℕ → String → String
pad_start n s = zeros (n - utf16_length s) <> s

-- `scaled` in decimal with `precision` digits after the point, less the zeros at the end.
unfoldable pub format_scaled : ℕ → ℕ → String
unfolding strip_zeros pad_start utf16_length to_string
format_scaled scaled precision =
    let whole = to_string (scaled / 10 ^ precision) in
    let frac = strip_zeros (pad_start precision (to_string (scaled % 10 ^ precision))) in
    if str_eq frac "" then whole else whole <> "." <> frac

unfoldable pub format_rate : ℕ → ℕ → ℕ → ℕ → Quoted String
format_rate amount_in amount_out sell_decimals buy_decimals = do
  require (ltb 0 amount_in) no_rate
  ok (format_scaled (amount_out * 10 ^ sell_decimals * 10 ^ 7 / (amount_in * 10 ^ buy_decimals)) 7)
