-- ===== src/ApiGateway/IdempotencyStore/Lookup.antt =====
-- services/api-gateway/src/idempotency-store.ts: what a lookup answers.
use vellar_dapp.JsMap
use vellar_dapp.JsMap.{JsMap}
use vellar_dapp.ApiGateway.IdempotencyStore.{
  IdempotencyRecord, IdempotencyLookupResult, miss, hit, conflict, IdempotencyStore, ttl_for,
  is_expired, lookup, record_response, prune_from, prune_expired,
}
use vellar_dapp.Prelude.{
  ltb, if◌then◌else◌, length, ℕ, ◌+◌, ◌≤◌, String, ◌≡◌, refl, sym, ◌∙◌, Option, none, some, [], ◌∷◌,
  arith, str_eq, eq_iff,
}

-- How one found record answers.
abbrev answer : String → ℕ → IdempotencyStore → Option IdempotencyRecord → IdempotencyLookupResult
answer payload_hash now store none = miss
answer payload_hash now store (some r) =
    if ltb (r.recorded_at + ttl_for r.route store) now
    then miss
    else if str_eq r.payload_hash payload_hash
    then hit r
    else conflict

lookup-answer :
    (key payload_hash : String) (now : ℕ) (store : IdempotencyStore)
    → lookup key payload_hash now store
      ≡ answer payload_hash now store (JsMap.get key store.records)
unfolding lookup is_expired
lookup-answer key payload_hash now store = ground arith

ttl_for-records :
    (route : Option String) (records : JsMap IdempotencyRecord) (store : IdempotencyStore)
    → ttl_for route (record store { records = records }) ≡ ttl_for route store
unfolding ttl_for
ttl_for-records none records store = refl
ttl_for-records (some r) records store = refl

answer-records :
    (payload_hash : String) (now : ℕ) (records : JsMap IdempotencyRecord) (store : IdempotencyStore)
    (found : Option IdempotencyRecord)
    → answer payload_hash now (record store { records = records }) found
      ≡ answer payload_hash now store found
answer-records payload_hash now records store none = refl
answer-records payload_hash now records store (some r) =
    rw (ttl_for-records r.route records store) refl

-- After a response was recorded, its key is answered, until the record expires, by this response for
-- the same payload and by a conflict for another; after that by a miss. Other keys are answered as
-- before.
pub lookup-record_response :
    (key other payload_hash : String) (now : ℕ) (r : IdempotencyRecord) (store : IdempotencyStore)
    → lookup other payload_hash now (record_response key r store) ≡ (
        if str_eq key other
        then if ltb (r.recorded_at + ttl_for r.route store) now
          then miss
          else if str_eq r.payload_hash payload_hash
          then hit r
          else conflict
        else lookup other payload_hash now store)
unfolding record_response
lookup-record_response key other payload_hash now r store =
    lookup-answer other payload_hash now (record_response key r store)
    ∙ (answer-records payload_hash now (JsMap.set key r store.records) store
          (JsMap.get other (JsMap.set key r store.records))
        ∙ rw (JsMap.get-set key other r store.records)
            (ground (arith, lookup-answer other payload_hash now store)))

pruned-count :
    (now : ℕ) (store : IdempotencyStore) (m : JsMap IdempotencyRecord)
    → length (prune_from now store m).0 + (prune_from now store m).1 ≡ length m
unfolding prune_from
pruned-count now store [] = omega arith
pruned-count now store ((k, r) ∷ m) = ground (arith, pruned-count now store m)

get-pruned_none :
    (key : String) (now : ℕ) (store : IdempotencyStore) (m : JsMap IdempotencyRecord)
    → JsMap.get key m ≡ none
    → JsMap.get key (prune_from now store m).0 ≡ none
unfolding prune_from JsMap.get
get-pruned_none key now store [] h = refl
get-pruned_none key now store ((k, r) ∷ m) h = ground (arith, get-pruned_none key now store m)

answer-pruned :
    (key payload_hash : String) (now later : ℕ) (store : IdempotencyStore)
    (m : JsMap IdempotencyRecord)
    → JsMap.Distinct m
    → now ≤ later
    → answer payload_hash later store (JsMap.get key (prune_from now store m).0)
      ≡ answer payload_hash later store (JsMap.get key m)
unfolding prune_from JsMap.get JsMap.Distinct is_expired
answer-pruned key payload_hash now later store [] d le = refl
answer-pruned key payload_hash now later store ((k, r) ∷ m) (new, d) le = ground (
  arith,
  answer-pruned key payload_hash now later store m d le,
  eq_iff k key,
  get-pruned_none k now store m new,
)

-- Pruning at a time changes no answer from that time on, and counts the records it removes.
pub lookup-prune_expired :
    (key payload_hash : String) (now later : ℕ) (store : IdempotencyStore)
    → JsMap.Distinct store.records
    → now ≤ later
    → (lookup key payload_hash later (prune_expired now store).0
        ≡ lookup key payload_hash later store)
      × (length (prune_expired now store).0.records + (prune_expired now store).1
          ≡ length store.records)
unfolding prune_expired
lookup-prune_expired key payload_hash now later store d le = (
  lookup-answer key payload_hash later (prune_expired now store).0
      ∙ (answer-records payload_hash later (prune_from now store store.records).0 store
            (JsMap.get key (prune_from now store store.records).0)
          ∙ (answer-pruned key payload_hash now later store store.records d le
              ∙ sym (lookup-answer key payload_hash later store))),
  pruned-count now store store.records,
)
