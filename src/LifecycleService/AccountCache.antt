-- ===== src/LifecycleService/AccountCache.antt =====
-- services/lifecycle-service/src/account-cache.ts: the cache of accounts read from Horizon. A call of
-- `getAccount` looks up the cache and, on a miss, awaits the reader and stores what it gave; other
-- calls may run in between, so these are two steps. A value is what the reader gives, `undefined`
-- included.
pub mod History
mod Tests
use vellar_dapp.JsMap
use vellar_dapp.JsMap.{JsMap}
use vellar_dapp.Prelude.{ltb, if◌then◌else◌, ℕ, ◌+◌, String, Option, none, some, []}

pub record CacheEntry {ℓ} (V : Type ℓ) : Type ℓ where
  pub value : V
  pub expires_at : ℕ

abbrev pub default_ttl_ms : ℕ
default_ttl_ms = 30000

module _ {ℓ} {V : Type ℓ} where
  abbrev pub unexpired : ℕ → Option (CacheEntry V) → Option V
  unexpired now none = none
  unexpired now (some cached) = if ltb now cached.expires_at then some cached.value else none

  -- Up to the `await`: the cached value, or `none` where the reader is asked.
  unfoldable pub lookup : String → ℕ → JsMap (CacheEntry V) → Option V
  lookup account_id now store = unexpired now (JsMap.get account_id store)

  -- After the `await`.
  unfoldable pub store_read : ℕ → String → V → ℕ → JsMap (CacheEntry V) → JsMap (CacheEntry V)
  store_read ttl_ms account_id value now store =
      JsMap.set account_id (record { value = value; expires_at = now + ttl_ms }) store

  unfoldable pub invalidate : String → JsMap (CacheEntry V) → JsMap (CacheEntry V)
  invalidate account_id store = JsMap.delete account_id store

  abbrev pub invalidate_all : JsMap (CacheEntry V) → JsMap (CacheEntry V)
  invalidate_all store = []
