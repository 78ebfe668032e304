-- ===== src/ServiceKit/RpcPool.antt =====
-- packages/service-kit/src/rpc-pool.ts: the pool's urls, their health, the selected endpoint and
-- the calls of `onRotate`, the latest first. The probe is an argument, and so is the clock, read
-- once in each synchronous stretch. The interval timer and the coalescing of overlapping probe
-- cycles are not modelled: a cycle is one step.
pub mod Candidates
pub mod Selection
mod Tests
use vellar_dapp.JsMap
use vellar_dapp.JsMap.{JsMap}
use vellar_dapp.Prelude.{
  ltb, if◌then◌else◌, get_or, is_some, filter, dedupe_from, to_string, sort_by, ℕ, ◌-◌, max, String,
  ◌<>◌, ◌⊎◌, inl, inr, Bool, true, false, not, Option, none, some, List, [], ◌∷◌, ◌++◌, map, str_eq,
}

pub record RpcEndpointHealth : Type 0 where
  pub url : String
  pub healthy : Bool
  pub latest_ledger : Option ℕ
  pub reason : Option String
  pub last_checked_at : Option ℕ
  pub last_failure_at : Option ℕ

pub record Rotation : Type 0 where
  pub previous : String
  pub next : String
  pub reason : String

pub record RpcPool : Type 0 where
  pub urls : List String
  pub max_ledger_lag : ℕ
  pub state : JsMap RpcEndpointHealth
  pub selected : String
  pub rotations : List Rotation

abbrev pub default_max_ledger_lag : ℕ
default_max_ledger_lag = 10

-- How a probe ends: its reported health, or the message of its error.
pub data ProbeOutcome : Type 0 where
  answered : String → ℕ → ProbeOutcome
  failed : String → ProbeOutcome

unfoldable pub dedupe : List String → List String
dedupe urls = dedupe_from [] urls

abbrev pub unprobed : String → RpcEndpointHealth
unprobed url = record {
  url = url;
  healthy = true;
  latest_ledger = none;
  reason = none;
  last_checked_at = none;
  last_failure_at = none;
}

abbrev pub new_pool : List String → ℕ → Option RpcPool
new_pool [] lag = none
new_pool (url ∷ rest) lag = some (record {
  urls = url ∷ rest;
  max_ledger_lag = lag;
  state = map (λ u. (u, unprobed u)) (url ∷ rest);
  selected = url;
  rotations = [];
})

-- `none` is the error thrown for an empty list.
unfoldable pub create_rpc_pool : List String → Option ℕ → Option RpcPool
unfolding dedupe
create_rpc_pool urls max_ledger_lag =
    new_pool (dedupe urls) (get_or max_ledger_lag default_max_ledger_lag)

-- `state.get(url)!`; every url of the pool has an entry.
unfoldable pub entry : RpcPool → String → RpcEndpointHealth
entry p url = get_or (JsMap.get url p.state) (unprobed url)

unfoldable pub is_healthy : RpcPool → String → Bool
unfolding entry
is_healthy p url = (entry p url).healthy

unfoldable pub last_failure : RpcPool → String → ℕ
unfolding entry
last_failure p url = get_or (entry p url).last_failure_at 0

unfoldable pub candidates : RpcPool → List String
candidates p =
    filter (is_healthy p) p.urls
    ++ sort_by (last_failure p) (filter (λ url. not (is_healthy p url)) p.urls)

abbrev pub select : String → String → RpcPool → RpcPool
select next reason p = if str_eq next p.selected then p else record p {
  selected = next;
  rotations = (record { previous = p.selected; next = next; reason = reason }) ∷ p.rotations;
}

abbrev pub select_first : List String → String → RpcPool → RpcPool
select_first [] reason p = p
select_first (next ∷ rest) reason p = select next reason p

unfoldable pub reselect : String → RpcPool → RpcPool
reselect reason p = select_first (candidates p) reason p

abbrev pub set_entry : RpcEndpointHealth → String → RpcPool → RpcPool
set_entry e url p = record p { state = JsMap.set url e p.state }

abbrev pub unhealthy : String → ℕ → RpcEndpointHealth → RpcEndpointHealth
unhealthy reason now e = record e {
  healthy = false;
  reason = some reason;
  last_failure_at = some now;
}

unfoldable pub mark_unhealthy : String → String → ℕ → RpcPool → RpcPool
mark_unhealthy url reason now p = elim (JsMap.get url p.state) [
  | none ↦ p
  | some e ↦ set_entry (unhealthy reason now e) url p
]

unfoldable pub report_failure : String → Option String → ℕ → RpcPool → RpcPool
unfolding mark_unhealthy reselect
report_failure url reason now p =
    let why = get_or reason "call failed" in
    if is_some (JsMap.get url p.state)
    then reselect (url <> ": " <> why) (mark_unhealthy url why now p)
    else p

unfoldable pub freshest_of : List (String × ProbeOutcome) → ℕ
freshest_of [] = 0
freshest_of ((url, answered status latest) ∷ rest) = max latest (freshest_of rest)
freshest_of ((url, failed message) ∷ rest) = freshest_of rest

-- The body of the loop over the results.
unfoldable pub apply_result : ℕ → ℕ → RpcPool → String → ProbeOutcome → RpcPool
unfolding mark_unhealthy entry
apply_result freshest now p url (failed message) =
    let checked = record (entry p url) { last_checked_at = some now } in
    mark_unhealthy url ("probe failed: " <> message) now (set_entry checked url p)
apply_result freshest now p url (answered status latest) =
    let checked = record (entry p url) {
      last_checked_at = some now;
      latest_ledger = some latest;
    } in
    let p' = set_entry checked url p in
    if not (str_eq status "healthy")
    then mark_unhealthy url ("reported status \"" <> status <> "\"") now p'
    else if ltb p.max_ledger_lag (freshest - latest)
    then mark_unhealthy url
        ("lagging " <> to_string (freshest - latest) <> " ledgers behind the freshest endpoint") now
        p'
    else set_entry (record checked { healthy = true; reason = none }) url p'

unfoldable pub apply_results : ℕ → ℕ → RpcPool → List (String × ProbeOutcome) → RpcPool
unfolding apply_result
apply_results freshest now p [] = p
apply_results freshest now p ((url, outcome) ∷ rest) =
    apply_results freshest now (apply_result freshest now p url outcome) rest

-- One probe cycle; the new health is what `snapshot` then shows.
unfoldable pub run_probes : (String → ProbeOutcome) → ℕ → RpcPool → RpcPool
unfolding apply_results reselect
run_probes probe now p =
    let results = map (λ url. (url, probe url)) p.urls in
    reselect "health check" (apply_results (freshest_of results) now p results)

unfoldable pub snapshot : RpcPool → List RpcEndpointHealth
unfolding entry
snapshot p = map (entry p) p.urls

-- What a caller or the timer does to the pool.
pub data Operation : Type 0 where
  failure_reported : String → Option String → ℕ → Operation
  probed : (String → ProbeOutcome) → ℕ → Operation

unfoldable pub operate : RpcPool → Operation → RpcPool
operate p (failure_reported url reason now) = report_failure url reason now p
operate p (probed probe now) = run_probes probe now p

unfoldable pub operate_all : RpcPool → List Operation → RpcPool
operate_all p [] = p
operate_all p (op ∷ ops) = operate_all (operate p op) ops

-- How `withRpcFailover` ends; with no candidate it throws `undefined`.
pub data Failover {ℓ} (T E : Type ℓ) : Type ℓ where
  returned : T → Failover T E
  threw : E → Failover T E
  threw_undefined : Failover T E

module _ {ℓ} {T E : Type ℓ} (fn : String → T ⊎ E) (is_failover : E → Bool)
    (message : E → String) where
  last_error : Option E → Failover T E
  last_error none = threw_undefined
  last_error (some err) = threw err

  after_call : T ⊎ E → (E → RpcPool × Failover T E) → RpcPool → RpcPool × Failover T E
  after_call (inl v) again p = (p, returned v)
  after_call (inr err) again p = if is_failover err then again err else (p, threw err)

  -- The loop over the candidates as they were at the start.
  unfoldable pub try_candidates : List String → Option E → ℕ → RpcPool → RpcPool × Failover T E
  unfolding after_call last_error
  try_candidates [] last now p = (p, last_error last)
  try_candidates (url ∷ rest) last now p =
      after_call (fn url)
        (λ err. try_candidates rest (some err) now (report_failure url (some (message err)) now p))
        p

  unfoldable pub with_rpc_failover : ℕ → RpcPool → RpcPool × Failover T E
  unfolding try_candidates
  with_rpc_failover now p = try_candidates (candidates p) none now p
