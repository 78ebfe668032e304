-- ===== src/Web/Swap/Floor.antt =====
-- apps/web/lib/swap: the slippage floor of a prepared swap.
use vellar_dapp.Web.Swap.{
  RegisteredAsset, SwapQuote, SlippageBound, assert_slippage_bps, minimum_out, slippage_bound,
  last?, format_rate,
}
use vellar_dapp.Web.Swap.Client.{
  Fault, SwapRequest, SwapReview, resolve_all, swap_deadline_seconds, prepare,
}
use vellar_dapp.Prelude.{
  Option-cases, ℕ, ◌+◌, ◌-◌, ◌*◌, ◌/◌, ◌≤◌, ◌<◌, String, ◌≡◌, refl, ap, ◌∙◌, inl, inr, Option, some,
  List, arith, Result, ok, Result-cases,
}

-- `least` is `expected` less the tolerance, rounded down, and it is not zero.
pub record IsFloor (expected bps least : ℕ) : Type 0 where
  pub low : 1 ≤ bps
  pub high : bps ≤ 500
  pub positive : 0 < least
  pub below : least * 10000 ≤ expected * (10000 - bps)
  pub above : expected * (10000 - bps) < (least + 1) * 10000

minimum_out-IsFloor :
    (expected bps least : ℕ) → minimum_out expected bps ≡ ok least → IsFloor expected bps least
unfolding minimum_out assert_slippage_bps
minimum_out-IsFloor expected bps least h =
    let in_range : (1 ≤ bps) × (bps ≤ 500) = ground (arith, h) in
    let value : least ≡ expected * (10000 - bps) / 10000 = ground (arith, h) in
    record {
      low = in_range.0;
      high = in_range.1;
      positive = ground (arith, h);
      below = omega (arith, value);
      above = omega (arith, value);
    }

pub IsFloor-le : (expected bps least : ℕ) → IsFloor expected bps least → least ≤ expected
IsFloor-le expected bps least f = grind (arith, f.low, f.high, f.below)

slippage_bound-IsFloor :
    (quote : SwapQuote) (bps : ℕ) (bound : SlippageBound)
    → slippage_bound quote bps ≡ ok bound
    → (bound.slippage_bps ≡ bps) × IsFloor quote.expected_out bps bound.min_out
unfolding slippage_bound
slippage_bound-IsFloor quote bps bound h =
    elim (Result-cases (minimum_out quote.expected_out bps)) [
      | inr (e, a) ↦ absurd (ground (arith, a, h))
      | inl (least, a) ↦
          let same : bound ≡ record { slippage_bps = bps; min_out = least } =
            ground (arith, a, h) in
          rw same (refl, minimum_out-IsFloor quote.expected_out bps least a)
    ]

module _ (build_swap : SwapRequest → Result Fault (List ℕ))
    (resolve : String → Option RegisteredAsset) (max_age_ms now later : ℕ) (sender : String)
    (quote : SwapQuote) (bps : ℕ) where
  abbrev request_of : ℕ → SwapRequest
  request_of min_out = record {
    amount_in = quote.amount_in;
    min_out = min_out;
    slippage_bps = bps;
    path = quote.path;
    recipient = sender;
    deadline = later / 1000 + swap_deadline_seconds;
  }

  -- What a review that is shown for approval says.
  pub record IsProtected (review : SwapReview) : Type 0 where
    pub fresh : now ≤ quote.quoted_at + max_age_ms
    pub floor : IsFloor quote.expected_out bps review.min_out
    pub simulated : List ℕ
    pub built :
        build_swap (record {
          amount_in = quote.amount_in;
          min_out = review.min_out;
          slippage_bps = bps;
          path = quote.path;
          recipient = sender;
          deadline = later / 1000 + swap_deadline_seconds;
        })
        ≡ ok simulated
    pub expected : last? simulated ≡ some review.expected_out
    pub protected : review.min_out ≤ review.expected_out
    pub registered : resolve_all resolve quote.path ≡ some review.route
    pub same_amount : review.amount_in ≡ quote.amount_in
    pub same_sender : review.sender ≡ sender

  abbrev bound_of : ℕ → SlippageBound
  bound_of least = record { slippage_bps = bps; min_out = least }

  prepare_bound :
      (least : ℕ) (review : SwapReview)
      → slippage_bound quote bps ≡ ok (bound_of least)
      → prepare build_swap resolve max_age_ms now later sender quote bps ≡ ok review
      → IsProtected review
  unfolding prepare
  prepare_bound least review b h = elim (Result-cases (build_swap (request_of least))) [
    | inr (e, c) ↦ absurd (ground (arith, b, c, h))
    | inl (simulated, c) ↦ elim (Option-cases (last? simulated)) [
      | inl d ↦ absurd (ground (arith, b, c, d, h))
      | inr (out, d) ↦ elim (Option-cases (resolve_all resolve quote.path)) [
        | inl e ↦ absurd (ground (arith, b, c, d, e, h))
        | inr (route, e) ↦
            elim (Result-cases
              (format_rate quote.amount_in out quote.sell.decimals quote.buy.decimals)) [
                | inr (x, f) ↦ absurd (ground (arith, b, c, d, e, f, h))
                | inl (rate, f) ↦
                    elim (Result-cases
                      (format_rate quote.amount_in least quote.sell.decimals quote.buy.decimals)) [
                        | inr (x, g) ↦ absurd (ground (arith, b, c, d, e, f, g, h))
                        | inl (worst, g) ↦
                            let out_of : review.expected_out ≡ out =
                              ground (arith, b, c, d, e, f, g, h) in
                            let min_of : review.min_out ≡ least =
                              ground (arith, b, c, d, e, f, g, h) in
                            record {
                              fresh = ground (arith, b, c, d, e, f, g, h);
                              floor =
                                  rw min_of (slippage_bound-IsFloor quote bps (bound_of least) b).1;
                              simulated = simulated;
                              built = rw min_of c;
                              expected = rw out_of d;
                              protected = ground (arith, b, c, d, e, f, g, h);
                              registered = ground (arith, b, c, d, e, f, g, h);
                              same_amount = ground (arith, b, c, d, e, f, g, h);
                              same_sender = ground (arith, b, c, d, e, f, g, h);
                            }
                      ]
              ]
      ]
    ]
  ]

  -- A review that is prepared comes from a quote that is not too old. Its floor is the quoted output
  -- less a tolerance of 0.01% to 5%, rounded down and not zero; the swap was built with this floor
  -- and the quoted route and amount, and simulated to an output that is not below it, which is the
  -- review's expected output; and every asset of the route is registered.
  pub prepare-IsProtected :
      (review : SwapReview)
      → prepare build_swap resolve max_age_ms now later sender quote bps ≡ ok review
      → IsProtected review
  prepare-IsProtected review h = elim (Result-cases (slippage_bound quote bps)) [
    | inr (e, b) ↦ absurd (unfold prepare in ground (arith, b, h))
    | inl (bound, b) ↦
        let same : bound ≡ bound_of bound.min_out =
          ground (arith, (slippage_bound-IsFloor quote bps bound b).0) in
        prepare_bound bound.min_out review (b ∙ ap ok same) h
  ]
