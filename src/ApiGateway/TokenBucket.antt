-- ===== src/ApiGateway/TokenBucket.antt =====
-- services/api-gateway/src/token-bucket.ts: the rate limiter. Tokens are counted in thousandths, which
-- makes the refill of a millisecond exact; the capacity and the rate are natural numbers, and the
-- clock does not go back. A rate of 0, for which the retry delay is infinite, is left out by the
-- theorems on it.
pub mod Rate
pub mod Delay
mod Tests
use vellar_dapp.JsMap
use vellar_dapp.JsMap.{JsMap}
use vellar_dapp.Prelude.{
  leb, if◌then◌else◌, ℕ, ◌+◌, ◌-◌, ◌*◌, ◌/◌, min, max, String, Option, none, some, [], str_eq,
}

pub record TokenBucketOptions : Type 0 where
  pub capacity : ℕ
  pub refill_rate_per_second : ℕ

pub record BucketState : Type 0 where
  pub milli_tokens : ℕ
  pub last_refill_time : ℕ

pub data ConsumeResult : Type 0 where
  allowed : ℕ → ConsumeResult
  refused : ℕ → ConsumeResult

-- The bucket when a request comes: a new one is full, another is refilled up to its capacity.
unfoldable pub tokens_at : TokenBucketOptions → ℕ → Option BucketState → ℕ
tokens_at options now none = options.capacity * 1000
tokens_at options now (some state) =
    min (options.capacity * 1000)
      (state.milli_tokens + (now - state.last_refill_time) * options.refill_rate_per_second)

-- Math.ceil(deficit / refillRatePerSecond), the deficit in thousandths.
unfoldable pub retry_after : TokenBucketOptions → ℕ → ℕ
retry_after options deficit =
    let per_second = options.refill_rate_per_second * 1000 in
    max 1 ((deficit + (per_second - 1)) / per_second)

unfoldable pub try_consume :
    TokenBucketOptions → String → ℕ → ℕ → JsMap BucketState → JsMap BucketState × ConsumeResult
unfolding tokens_at retry_after
try_consume options key tokens_to_consume now buckets =
    let tokens = tokens_at options now (JsMap.get key buckets) in
    let left = tokens - tokens_to_consume * 1000 in
    if leb (tokens_to_consume * 1000) tokens
    then (
      JsMap.set key (record { milli_tokens = left; last_refill_time = now }) buckets,
      allowed (left / 1000),
    )
    else (
      JsMap.set key (record { milli_tokens = tokens; last_refill_time = now }) buckets,
      refused (retry_after options (tokens_to_consume * 1000 - tokens)),
    )

-- `reset(key)`; an empty key is falsy.
unfoldable pub reset : String → JsMap BucketState → JsMap BucketState
reset key buckets = if str_eq key "" then [] else JsMap.delete key buckets
