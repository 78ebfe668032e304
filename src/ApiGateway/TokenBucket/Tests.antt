-- ===== src/ApiGateway/TokenBucket/Tests.antt =====
-- services/api-gateway/src/token-bucket.ts: requests that exercise the theorems.
use vellar_dapp.JsMap
use vellar_dapp.JsMap.{JsMap}
use vellar_dapp.ApiGateway.TokenBucket.{
  TokenBucketOptions, BucketState, tokens_at, retry_after, try_consume,
}
use vellar_dapp.ApiGateway.TokenBucket.Rate.{Request, serve, Funded, serve_within}
use vellar_dapp.Prelude.{ℕ, ◌+◌, ◌-◌, ◌*◌, ◌≤◌, String, ◌≡◌, refl, List, [], ◌∷◌, arith}

abbrev options : TokenBucketOptions
options = record { capacity = 5; refill_rate_per_second = 2 }

abbrev ask : String → ℕ → ℕ → Request
ask key tokens now = record { key = key; tokens = tokens; now = now }

abbrev requests : List Request
requests = ask "a" 4 100 ∷ ask "b" 5 150 ∷ ask "a" 3 200 ∷ ask "a" 3 1200 ∷ []

two_granted : (serve options "a" requests []).1 ≡ 7
unfolding serve try_consume tokens_at retry_after JsMap.get JsMap.set
two_granted = refl

serve_within_example :
    (serve options "a" requests []).1 * 1000 ≤ 5000 + (1200 - 100) * options.refill_rate_per_second
unfolding Funded JsMap.get
serve_within_example =
    serve_within options "a" requests 100 1200 5000 [] (omega arith)
      (omega arith, (omega arith, (omega arith, (omega arith, omega arith))))

abbrev drained : JsMap BucketState
drained = (try_consume options "a" 4 100 []).0
