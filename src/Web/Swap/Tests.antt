-- ===== src/Web/Swap/Tests.antt =====
-- apps/web/lib/swap: a swap of two assets by way of the native one.
use vellar_dapp.Web.Swap.{
  bad_slippage, malformed_slippage, RegisteredAsset, SwapQuote, assert_slippage_bps,
  parse_slippage_percent, minimum_out, slippage_bound, normalize_quote, format_scaled, format_rate,
}
use vellar_dapp.Web.Swap.Client.{
  Fault, venue_error, SwapRequest, SwapReview, candidate_paths, resolve_all, quote_on, search_paths,
  best_quote, prepare,
}
use vellar_dapp.Web.Swap.Floor.{IsProtected, prepare-IsProtected}
use vellar_dapp.Web.Swap.Best.{IsBest, Found, best_quote-IsBest}
use vellar_dapp.Prelude.{
  is_some, ℕ, String, ◌≡◌, refl, true, Option, some, List, [], ◌∷◌, Result, ok, err, trim,
}

abbrev usdc : RegisteredAsset
usdc = record { contract_id = "CUSDC"; decimals = 7 }

abbrev eurc : RegisteredAsset
eurc = record { contract_id = "CEURC"; decimals = 7 }

-- The venue pays more by way of the native asset.
abbrev amounts_out : ℕ → List String → Result Fault (List (Option ℕ))
amounts_out n (a ∷ b ∷ []) = ok (some n ∷ some 900 ∷ [])
amounts_out n (a ∷ b ∷ c ∷ []) = ok (some n ∷ some 5000 ∷ some 950 ∷ [])
amounts_out n path = err (venue_error 500)

abbrev resolve : String → Option RegisteredAsset
resolve id = some (record { contract_id = id; decimals = 7 })

abbrev by_native : SwapQuote
by_native = record {
  sell = usdc;
  buy = eurc;
  amount_in = 1000;
  expected_out = 950;
  path = "CUSDC" ∷ "CXLM" ∷ "CEURC" ∷ [];
  hop_amounts = 1000 ∷ 5000 ∷ 950 ∷ [];
  quoted_at = 20;
}

chosen : best_quote amounts_out (λ p. 20) usdc eurc 1000 "CXLM" resolve ≡ ok by_native
unfolding best_quote search_paths candidate_paths quote_on normalize_quote
chosen = refl

best_quote-IsBest_example :
    Found amounts_out (λ p. 20) usdc eurc 1000 by_native (candidate_paths usdc eurc "CXLM")
    × IsBest amounts_out (λ p. 20) usdc eurc 1000 by_native (candidate_paths usdc eurc "CXLM")
    × (is_some (resolve_all resolve by_native.path) ≡ true)
best_quote-IsBest_example =
    best_quote-IsBest amounts_out (λ p. 20) usdc eurc 1000 "CXLM" resolve by_native chosen

abbrev simulate : SwapRequest → Result Fault (List ℕ)
simulate request = ok (1000 ∷ 948 ∷ [])

abbrev review : SwapReview
review = record {
  sender = "CWALLET";
  sell = usdc;
  buy = eurc;
  amount_in = 1000;
  expected_out = 948;
  min_out = 945;
  slippage_bps = 50;
  rate = "0.948";
  worst_rate = "0.945";
  route =
      record { contract_id = "CUSDC"; decimals = 7 }
      ∷ record { contract_id = "CXLM"; decimals = 7 }
      ∷ record { contract_id = "CEURC"; decimals = 7 }
      ∷ [];
}

prepared : prepare simulate resolve 30000 30020 30021 "CWALLET" by_native 50 ≡ ok review
unfolding prepare slippage_bound minimum_out assert_slippage_bps format_rate format_scaled
prepared = refl

prepare-IsProtected_example :
    IsProtected simulate resolve 30000 30020 30021 "CWALLET" by_native 50 review
prepare-IsProtected_example =
    prepare-IsProtected simulate resolve 30000 30020 30021 "CWALLET" by_native 50 review prepared

percents :
    (parse_slippage_percent " 0.5 " ≡ ok 50)
    × (parse_slippage_percent "12" ≡ err bad_slippage)
    × (parse_slippage_percent "1.234" ≡ err malformed_slippage)
unfolding parse_slippage_percent assert_slippage_bps trim
percents = (refl, refl, refl)
