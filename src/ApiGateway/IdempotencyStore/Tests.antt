-- ===== src/ApiGateway/IdempotencyStore/Tests.antt =====
-- services/api-gateway/src/idempotency-store.ts: a store that exercises the theorems.
use vellar_dapp.ApiGateway.IdempotencyStore.{
  IdempotencyRecord, miss, hit, conflict, IdempotencyStore, new_store, ttl_for, lookup,
  record_response,
}
use vellar_dapp.ApiGateway.IdempotencyStore.Lookup.{lookup-record_response}
use vellar_dapp.Prelude.{ltb, if◌then◌else◌, ℕ, ◌+◌, String, ◌≡◌, some, [], ◌∷◌, str_eq}

abbrev response : String → ℕ → IdempotencyRecord
response hash at = record {
  payload_hash = hash;
  status_code = 201;
  headers = [];
  body = "{}";
  recorded_at = at;
  route = some "POST /policies/deploy";
}

abbrev store : IdempotencyStore
store =
    record_response "k" (response "h1" 5)
      (new_store (some 10) (some (("POST /policies/deploy", 100) ∷ [])))

lookup-record_response_example :
    lookup "k" "h2" 20 (record_response "k" (response "h1" 5) store) ≡ (
      if str_eq "k" "k"
      then if ltb (5 + ttl_for (some "POST /policies/deploy") store) 20
        then miss
        else if str_eq "h1" "h2"
        then hit (response "h1" 5)
        else conflict
      else lookup "k" "h2" 20 store)
lookup-record_response_example = lookup-record_response "k" "k" "h2" 20 (response "h1" 5) store
