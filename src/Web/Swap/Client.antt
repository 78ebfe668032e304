-- ===== src/Web/Swap/Client.antt =====
-- apps/web/lib/swap/client.ts: quoting a swap over the candidate routes, and preparing it for
-- approval. The venue, the clock and the registry of assets are arguments. Signing and submitting are
-- calls of the wallet kit and the backend.
use vellar_dapp.Web.Swap.{
  SwapQuoteError, same_asset, no_amount, no_route, unknown_asset, expired, Quoted, RegisteredAsset,
  SwapQuote, slippage_bound, last?, normalize_quote, is_quote_fresh, format_rate,
}
use vellar_dapp.Prelude.{
  ltb, leb, if◌then◌else◌, ℕ, ◌+◌, ◌/◌, String, Bool, true, false, not, ◌||◌, Option, none, some,
  List, [], ◌∷◌, str_eq, Result, ok, err, ◌>>=◌, ◌>>◌,
}

-- What a call may throw: the venue's error with its code, a `SwapQuoteError`, or anything else.
pub data Fault : Type 0 where
  venue_error : ℕ → Fault
  quote_error : SwapQuoteError → Fault
  other_error : Fault

abbrev pub quoted : {A : Type 0} → Quoted A → Result Fault A
quoted (ok a) = ok a
quoted (err e) = err (quote_error e)

abbrev pub demand : Bool → Fault → Result Fault (Unit {0})
demand true e = ok tt
demand false e = err e

pub record SwapRequest : Type 0 where
  pub amount_in : ℕ
  pub min_out : ℕ
  pub slippage_bps : ℕ
  pub path : List String
  pub recipient : String
  pub deadline : ℕ

pub record SwapReview : Type 0 where
  pub sender : String
  pub sell : RegisteredAsset
  pub buy : RegisteredAsset
  pub amount_in : ℕ
  pub expected_out : ℕ
  pub min_out : ℕ
  pub slippage_bps : ℕ
  pub rate : String
  pub worst_rate : String
  pub route : List RegisteredAsset

-- Direct, then by way of the native asset when neither side is native.
unfoldable pub candidate_paths : RegisteredAsset → RegisteredAsset → String → List (List String)
candidate_paths sell buy xlm =
    let direct = sell.contract_id ∷ buy.contract_id ∷ [] in
    if str_eq sell.contract_id xlm || str_eq buy.contract_id xlm
    then direct ∷ []
    else direct ∷ (sell.contract_id ∷ xlm ∷ buy.contract_id ∷ []) ∷ []

pub record Search : Type 0 where
  pub best : Option SwapQuote
  pub last_error : Option Fault

abbrev pub better : Option SwapQuote → SwapQuote → SwapQuote
better none quote = quote
better (some best) quote = if ltb best.expected_out quote.expected_out then quote else best

abbrev pub failure_of : Option Fault → Fault
failure_of (some (venue_error code)) = venue_error code
failure_of (some (quote_error e)) = quote_error e
failure_of _ = quote_error no_route

-- The assets of a route, where all are registered.
abbrev pub resolve_all :
    (String → Option RegisteredAsset) → List String → Option (List RegisteredAsset)
resolve_all resolve [] = some []
resolve_all resolve (id ∷ ids) = elim (resolve id) [
  | none ↦ none
  | some asset ↦ elim (resolve_all resolve ids) [
    | none ↦ none
    | some assets ↦ some (asset ∷ assets)
  ]
]

abbrev pub known : {A : Type 0} → Option A → Result Fault A
known none = err (quote_error unknown_asset)
known (some a) = ok a

module _ (get_amounts_out : ℕ → List String → Result Fault (List (Option ℕ)))
    (read_at : List String → ℕ) (sell buy : RegisteredAsset) (amount_in : ℕ) where
  -- What is quoted on one route.
  unfoldable pub quote_on : List String → Result Fault SwapQuote
  quote_on path = do
    hop_amounts ← get_amounts_out amount_in path
    quoted (normalize_quote sell buy amount_in path hop_amounts (read_at path))

  unfoldable pub search_paths : List (List String) → Search → Search
  search_paths [] s = s
  search_paths (path ∷ paths) s = search_paths paths (elim (quote_on path) [
    | ok quote ↦ record s { best = some (better s.best quote) }
    | err e ↦ record s { last_error = some e }
  ])

  unfoldable pub best_quote : String → (String → Option RegisteredAsset) → Result Fault SwapQuote
  best_quote xlm resolve = do
    demand (not (str_eq sell.contract_id buy.contract_id)) (quote_error same_asset)
    demand (ltb 0 amount_in) (quote_error no_amount)
    let found =
        search_paths (candidate_paths sell buy xlm) (record { best = none; last_error = none })
    quote ← elim found.best [ none ↦ err (failure_of found.last_error) | some quote ↦ ok quote ]
    route ← known (resolve_all resolve quote.path)
    ok quote

abbrev pub swap_deadline_seconds : ℕ
swap_deadline_seconds = 300

-- `now` is read for the age of the quote, `later` for the deadline. `build_swap` gives the simulated
-- amounts.
unfoldable pub prepare :
    (SwapRequest → Result Fault (List ℕ))
    → (String → Option RegisteredAsset)
    → ℕ
    → ℕ
    → ℕ
    → String
    → SwapQuote
    → ℕ
    → Result Fault SwapReview
prepare build_swap resolve max_age_ms now later sender quote slippage_bps = do
  demand (is_quote_fresh quote now max_age_ms) (quote_error expired)
  bound ← quoted (slippage_bound quote slippage_bps)
  simulated ← build_swap (record {
    amount_in = quote.amount_in;
    min_out = bound.min_out;
    slippage_bps = bound.slippage_bps;
    path = quote.path;
    recipient = sender;
    deadline = later / 1000 + swap_deadline_seconds;
  })
  simulated_out ← elim (last? simulated) [ none ↦ err (venue_error 507) | some out ↦ ok out ]
  demand (leb bound.min_out simulated_out) (venue_error 507)
  route ← known (resolve_all resolve quote.path)
  rate ← quoted (format_rate quote.amount_in simulated_out quote.sell.decimals quote.buy.decimals)
  worst_rate ←
      quoted (format_rate quote.amount_in bound.min_out quote.sell.decimals quote.buy.decimals)
  ok (record {
    sender = sender;
    sell = quote.sell;
    buy = quote.buy;
    amount_in = quote.amount_in;
    expected_out = simulated_out;
    min_out = bound.min_out;
    slippage_bps = bound.slippage_bps;
    rate = rate;
    worst_rate = worst_rate;
    route = route;
  })
