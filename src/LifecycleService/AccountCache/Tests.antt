-- ===== src/LifecycleService/AccountCache/Tests.antt =====
-- services/lifecycle-service/src/account-cache.ts: a read that overlaps an invalidation.
use vellar_dapp.JsMap
use vellar_dapp.LifecycleService.AccountCache.{default_ttl_ms, lookup, store_read, invalidate}
use vellar_dapp.LifecycleService.AccountCache.History.{
  Event, stored, invalidated, replay, latest, within_ttl, lookup_lem,
}
use vellar_dapp.Prelude.{ℕ, ◌≡◌, refl, Option, none, some, List, [], ◌∷◌}

-- The account "G0" is read as open (some 7), merged and invalidated, and the read is stored then.
abbrev events : List (Event (Option ℕ))
events = stored "G0" (some 7) 110 ∷ invalidated "G0" ∷ stored "G1" none 90 ∷ []

lookup_lem_example :
    lookup "G0" 120 (replay default_ttl_ms events)
    ≡ within_ttl default_ttl_ms 120 (latest default_ttl_ms "G0" events)
lookup_lem_example = lookup_lem default_ttl_ms "G0" 120 events

stale_read_served : lookup "G0" 120 (replay default_ttl_ms events) ≡ some (some 7)
unfolding lookup replay store_read invalidate JsMap.get JsMap.set JsMap.delete
stale_read_served = refl
