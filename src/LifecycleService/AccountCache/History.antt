-- ===== src/LifecycleService/AccountCache/History.antt =====
-- services/lifecycle-service/src/account-cache.ts: what a lookup gives after any history of the cache.
use vellar_dapp.JsMap
use vellar_dapp.JsMap.{JsMap}
use vellar_dapp.LifecycleService.AccountCache.{
  CacheEntry, unexpired, lookup, store_read, invalidate, invalidate_all,
}
use vellar_dapp.Prelude.{
  ltb, if◌then◌else◌, Bool-cases, ℕ, ◌+◌, String, ◌≡◌, refl, inl, inr, Option, none, some, List, [],
  ◌∷◌, str_eq,
}

pub data Event {ℓ} (V : Type ℓ) : Type ℓ where
  stored : String → V → ℕ → Event V
  invalidated : String → Event V
  cleared : Event V

module _ {ℓ} {V : Type ℓ} (ttl_ms : ℕ) where
  -- The history, the latest event first.
  unfoldable pub replay : List (Event V) → JsMap (CacheEntry V)
  unfolding store_read invalidate
  replay [] = []
  replay (stored id v at ∷ events) = store_read ttl_ms id v at (replay events)
  replay (invalidated id ∷ events) = invalidate id (replay events)
  replay (cleared ∷ events) = invalidate_all (replay events)

  -- Read off the history alone: the latest read of the account that was stored, if no invalidation of
  -- it came after.
  abbrev pub latest : String → List (Event V) → Option (V × ℕ)
  latest account [] = none
  latest account (stored id v at ∷ events) =
      let before = latest account events in if str_eq id account then some (v, at) else before
  latest account (invalidated id ∷ events) =
      let before = latest account events in if str_eq id account then none else before
  latest account (cleared ∷ events) = none

  abbrev pub within_ttl : ℕ → Option (V × ℕ) → Option V
  within_ttl now none = none
  within_ttl now (some (v, at)) = if ltb now (at + ttl_ms) then some v else none

  get-replay :
      (account : String) (now : ℕ) (events : List (Event V))
      → unexpired now (JsMap.get account (replay events)) ≡ within_ttl now (latest account events)
  unfolding replay store_read invalidate JsMap.get
  get-replay account now [] = refl
  get-replay account now (stored id v at ∷ events) =
      let ih = get-replay account now events in
      let set_id =
        JsMap.get-set id account (record { value = v; expires_at = at + ttl_ms }) (replay events) in
      elim (Bool-cases (str_eq id account)) [
        | inl same ↦ rw (set_id, same) refl
        | inr other ↦ rw (set_id, other) ih
      ]
  get-replay account now (invalidated id ∷ events) =
      let ih = get-replay account now events in
      let without_id = JsMap.get-delete id account (replay events) in
      elim (Bool-cases (str_eq id account)) [
        | inl same ↦ rw (without_id, same) refl
        | inr other ↦ rw (without_id, other) ih
      ]
  get-replay account now (cleared ∷ events) = refl

  -- After any history of stored reads and invalidations, in whatever order the calls were
  -- interleaved, a lookup gives the latest read of the account that was stored, if it was stored less
  -- than the time to live ago and no invalidation of it came after; in every other case the reader is
  -- asked. A read that was under way during an invalidation and is stored after it is served too.
  pub lookup_lem :
      (account : String) (now : ℕ) (events : List (Event V))
      → lookup account now (replay events) ≡ within_ttl now (latest account events)
  unfolding lookup
  lookup_lem account now events = get-replay account now events
