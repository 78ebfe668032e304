-- ===== src/ServiceKit/RpcPool/Tests.antt =====
-- packages/service-kit/src/rpc-pool.ts: pools that exercise the theorems.
use mathlib.Core.List.{Perm}
use vellar_dapp.JsMap
use vellar_dapp.ServiceKit.RpcPool.{
  RpcPool, create_rpc_pool, candidates, ProbeOutcome, answered, failed, Operation, failure_reported,
  probed, operate_all, report_failure, run_probes, apply_results, operate, is_healthy, last_failure,
  freshest_of, reselect,
}
use vellar_dapp.ServiceKit.RpcPool.Selection.{IsBest, operate_all-IsBest}
use vellar_dapp.Prelude.{
  if◌then◌else◌, get_or, sort_by, String, ◌≡◌, refl, Option, none, some, List, [], ◌∷◌, str_eq,
}

abbrev probe : String → ProbeOutcome
probe url =
    if str_eq url "a"
    then failed "timeout"
    else if str_eq url "b"
    then answered "healthy" 80
    else answered "healthy" 100

abbrev first_pool : Option RpcPool
first_pool = create_rpc_pool ("a" ∷ "b" ∷ "a" ∷ "c" ∷ []) none

abbrev three : RpcPool
three =
    get_or first_pool
      (record { urls = []; max_ledger_lag = 0; state = []; selected = ""; rotations = [] })

three_created : create_rpc_pool ("a" ∷ "b" ∷ "a" ∷ "c" ∷ []) none ≡ some three
unfolding create_rpc_pool
three_created = refl

abbrev outage : List Operation
outage = failure_reported "a" none 5 ∷ probed probe 9 ∷ []

-- "a" fails and "b" lags behind, so the pool rotates to "b" and then to "c".
outage_selects : (operate_all three outage).selected ≡ "c"
unfolding operate_all operate report_failure run_probes apply_results freshest_of reselect
    candidates is_healthy last_failure create_rpc_pool JsMap.get JsMap.set sort_by
outage_selects = refl

operate_all-IsBest_example :
    IsBest (operate_all three outage)
    × Perm (candidates (operate_all three outage)) (operate_all three outage).urls
operate_all-IsBest_example =
    operate_all-IsBest ("a" ∷ "b" ∷ "a" ∷ "c" ∷ []) none three outage three_created
