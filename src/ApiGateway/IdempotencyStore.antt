-- ===== src/ApiGateway/IdempotencyStore.antt =====
-- services/api-gateway/src/idempotency-store.ts: which response answers a request that comes again.
-- Times are milliseconds. `now - record.recordedAt > ttl` is `recordedAt + ttl < now`.
pub mod Lookup
mod Tests
use vellar_dapp.JsMap
use vellar_dapp.JsMap.{JsMap}
use vellar_dapp.Prelude.{
  ltb, if◌then◌else◌, get_or, ℕ, ◌+◌, String, Bool, Option, none, some, [], ◌∷◌, str_eq,
}

pub record IdempotencyRecord : Type 0 where
  pub payload_hash : String
  pub status_code : ℕ
  pub headers : JsMap String
  pub body : String
  pub recorded_at : ℕ
  pub route : Option String

pub data IdempotencyLookupResult : Type 0 where
  miss : IdempotencyLookupResult
  hit : IdempotencyRecord → IdempotencyLookupResult
  conflict : IdempotencyLookupResult

pub record IdempotencyStore : Type 0 where
  pub records : JsMap IdempotencyRecord
  pub ttl_ms : ℕ
  pub route_ttl_ms : JsMap ℕ

unfoldable pub new_store : Option ℕ → Option (JsMap ℕ) → IdempotencyStore
new_store ttl_ms route_ttl_ms = record {
  records = [];
  ttl_ms = get_or ttl_ms 86400000;
  route_ttl_ms = get_or route_ttl_ms [];
}

unfoldable pub ttl_for : Option String → IdempotencyStore → ℕ
ttl_for none store = store.ttl_ms
ttl_for (some route) store = get_or (JsMap.get route store.route_ttl_ms) store.ttl_ms

unfoldable pub is_expired : IdempotencyRecord → ℕ → IdempotencyStore → Bool
unfolding ttl_for
is_expired r now store = ltb (r.recorded_at + ttl_for r.route store) now

unfoldable pub lookup : String → String → ℕ → IdempotencyStore → IdempotencyLookupResult
unfolding is_expired
lookup key payload_hash now store = elim (JsMap.get key store.records) [
  | none ↦ miss
  | some r ↦
      if is_expired r now store
      then miss
      else if str_eq r.payload_hash payload_hash
      then hit r
      else conflict
]

-- The method `record`.
unfoldable pub record_response : String → IdempotencyRecord → IdempotencyStore → IdempotencyStore
record_response key r store = record store { records = JsMap.set key r store.records }

-- The loop of `pruneExpired`: the records that stay, and how many went.
unfoldable pub prune_from :
    ℕ → IdempotencyStore → JsMap IdempotencyRecord → JsMap IdempotencyRecord × ℕ
unfolding is_expired
prune_from now store [] = ([], 0)
prune_from now store ((key, r) ∷ rest) =
    let (live, pruned) = prune_from now store rest in
    if is_expired r now store then (live, pruned + 1) else ((key, r) ∷ live, pruned)

unfoldable pub prune_expired : ℕ → IdempotencyStore → IdempotencyStore × ℕ
unfolding prune_from
prune_expired now store =
    let (live, pruned) = prune_from now store store.records in
    (record store { records = live }, pruned)
