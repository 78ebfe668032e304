-- ===== src/ApiGateway/TokenBucket/Delay.antt =====
-- services/api-gateway/src/token-bucket.ts: when a refused request may come back.
use native.Mathlib.Nat.{zero-mul, lt-div-mul-add, mul_assoc, mul_comm}
use vellar_dapp.JsMap
use vellar_dapp.JsMap.{JsMap}
use vellar_dapp.ApiGateway.TokenBucket.{
  TokenBucketOptions, BucketState, allowed, refused, tokens_at, retry_after, try_consume,
}
use vellar_dapp.ApiGateway.TokenBucket.Rate.{granted, state_of, get-try_consume}
use vellar_dapp.Prelude.{
  leb, ℕ, zero, suc, ◌+◌, ◌-◌, ◌*◌, ◌/◌, ◌≤◌, ◌<◌, max, String, ◌≡◌, refl, sym, ap, ◌∙◌, subst, ◌⊎◌,
  inl, inr, true, some, arith,
}

zero-or-most : (q : ℕ) → (q ≡ 0) ⊎ (max 1 q ≡ q)
zero-or-most zero = inl refl
zero-or-most (suc q) = inr (omega arith)

-- The seconds that a refusal names, at the refill rate, cover the deficit.
retry_after-covers :
    (options : TokenBucketOptions) (deficit : ℕ)
    → 0 < options.refill_rate_per_second
    → deficit ≤ retry_after options deficit * (options.refill_rate_per_second * 1000)
unfolding retry_after
retry_after-covers options deficit pos =
    let per_second = options.refill_rate_per_second * 1000 in
    let q = (deficit + (per_second - 1)) / per_second in
    let over : deficit + (per_second - 1) < q * per_second + per_second =
      lt-div-mul-add (omega arith) in
    let covered : deficit ≤ q * per_second = omega (arith, over) in
    elim (zero-or-most q) [
      | inl zero_q ↦
          let nothing : q * per_second ≡ 0 =
            ap (λ n. n * per_second) zero_q ∙ zero-mul per_second in
          omega (arith, covered, nothing)
      | inr most ↦ subst (λ n. deficit ≤ n * per_second) (sym most) covered
    ]

consume-allowed :
    (options : TokenBucketOptions) (key : String) (n now : ℕ) (buckets : JsMap BucketState)
    → n * 1000 ≤ tokens_at options now (JsMap.get key buckets)
    → (try_consume options key n now buckets).1
      ≡ allowed ((tokens_at options now (JsMap.get key buckets) - n * 1000) / 1000)
unfolding try_consume
consume-allowed options key n now buckets le =
    let enough : leb (n * 1000) (tokens_at options now (JsMap.get key buckets)) ≡ true =
      ground arith in
    rw enough refl

refused-delay :
    (options : TokenBucketOptions) (key : String) (n now delay : ℕ) (buckets : JsMap BucketState)
    → (try_consume options key n now buckets).1 ≡ refused delay
    → delay ≡ retry_after options (n * 1000 - tokens_at options now (JsMap.get key buckets))
unfolding try_consume
refused-delay options key n now delay buckets h = ground arith

refilled :
    (options : TokenBucketOptions) (n now delay tokens : ℕ)
    → n ≤ options.capacity
    → n * 1000 - tokens ≤ delay * (options.refill_rate_per_second * 1000)
    → n * 1000 ≤ tokens_at options (now + delay * 1000) (some (state_of now tokens))
unfolding tokens_at
refilled options n now delay tokens fits covered =
    let rate = options.refill_rate_per_second in
    let waited : (now + delay * 1000 - now) * rate ≡ delay * (rate * 1000) =
      ap (λ d. d * rate) (omega arith)
      ∙ (mul_assoc delay 1000 rate ∙ ap (λ x. delay * x) (mul_comm 1000 rate)) in
    omega (arith, waited, covered)

-- If a request is refused with a delay, for no more tokens than the capacity and with a positive rate,
-- the same request after this delay, with none for its key in between, is allowed.
pub retry_after-allowed :
    (options : TokenBucketOptions) (key : String) (n now delay : ℕ) (buckets : JsMap BucketState)
    → 0 < options.refill_rate_per_second
    → n ≤ options.capacity
    → (try_consume options key n now buckets).1 ≡ refused delay
    → (left : ℕ) × ((try_consume options key n
          (now + delay * 1000)
          (try_consume options key n now buckets).0).1
        ≡ allowed left)
retry_after-allowed options key n now delay buckets pos fits h =
    let tokens = tokens_at options now (JsMap.get key buckets) in
    let (le, left) = get-try_consume options key n now buckets in
    let none_granted : granted (try_consume options key n now buckets).1 n ≡ 0 =
      ap (λ r. granted r n) h in
    let kept : JsMap.get key (try_consume options key n now buckets).0
        ≡ some (state_of now tokens) =
      left
      ∙ ap (λ g. some (state_of now (tokens - g * 1000))) none_granted
      ∙ ap (λ t. some (state_of now t)) (omega arith) in
    let covered : n * 1000 - tokens ≤ delay * (options.refill_rate_per_second * 1000) =
      subst (λ d. n * 1000 - tokens ≤ d * (options.refill_rate_per_second * 1000))
        (sym (refused-delay options key n now delay buckets h))
        (retry_after-covers options (n * 1000 - tokens) pos) in
    let enough : n * 1000
        ≤ tokens_at options (now + delay * 1000)
            (JsMap.get key (try_consume options key n now buckets).0) =
      subst (λ o. n * 1000 ≤ tokens_at options (now + delay * 1000) o) (sym kept)
        (refilled options n now delay tokens fits covered) in
    (
      _,
      consume-allowed options key n (now + delay * 1000) (try_consume options key n now buckets).0
          enough,
    )
