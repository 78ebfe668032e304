-- ===== src/PolicyService/Deployment/Tests.antt =====
-- A policy that is deployed and attached, two deploys that overlap, and a write that fails.
use vellar_dapp.JsMap.{JsMap}
use vellar_dapp.JsMap
use vellar_dapp.ServiceKit.Budget.{
  BudgetLine, deploy, testnet, BudgetLimits, PgBudgetConfig, sum_stroops, sum_count, try_consume,
}
use vellar_dapp.ServiceKit.Budget.Window.{Fits}
use vellar_dapp.PolicyService.Attach.{
  sc_address, no_vals, val, collect_addresses, collect_vals, Operation, invoke_contract, success,
  LookupAnswer, answered, unreachable, check_invocation, check_operations, check_result,
  verify_attach_tx,
}
use vellar_dapp.PolicyService.Templates.{
  PolicyDefinition, ConstructorArgs, token_spending, policy_contract,
  derive_token_spending_constructor, enforce, GeneratedPolicy, get_template, generate_policy,
}
use vellar_dapp.PolicyService.Templates.Schema.{
  is_address, is_contract_address, base_units, token_budget_schema, template_schema,
  validate_definition,
}
use vellar_dapp.PolicyService.Templates.Generated.{publisher_ids}
use vellar_dapp.PolicyService.Deployment.Generate.{
  new_record, generate_route, is_policy_contract, deploy_answer, generate_route_lem,
}
use vellar_dapp.PolicyService.Deployment.{
  generated, instance_deployed, deployed, PolicyInstance, PolicyRecord, World, DeploymentDeps,
  replied, failure, validate_policy_for_deployment, DeployRequest, consume, begin_deploy,
  instance_made, FinishRequest, take_waiting, finish_deploy, AttachRequest, begin_attach,
  AttachAnswer, finish_attach, Step, begin, finish, attach, attach_answered, step, run, Orphan,
}
use vellar_dapp.PolicyService.Deployment.Spending.{
  paid_instances, paid_waiting, fresh, run_within_budget,
}
use vellar_dapp.PolicyService.Deployment.Backed.{AllBacked, run-AllBacked}
use vellar_dapp.PolicyService.Deployment.Settled.{made_for, IsSettled, run-IsSettled}
use vellar_dapp.PolicyService.Deployment.Orphans.{Accepted, lost, lost_instance}
use vellar_dapp.Prelude.{
  if◌then◌else◌, ℕ, ◌+◌, ◌≤◌, String, ◌≡◌, refl, ◌⊎◌, true, false, Option, none, some, List, [],
  ◌∷◌, arith, str_eq, is_digits, to_number, ok,
}

abbrev owner_wallet : String
owner_wallet = "CAAAAAAAAAAAAAAAAAAAAAAAAAAAAAAAAAAAAAAAAAAAAAAAAAAAAAAA"

abbrev bare : PolicyDefinition
bare = record {
  version = "1";
  schema_version = some 1;
  policy_type = "token_spending_limit";
  owners = [];
  threshold = none;
  spending_limits = none;
  allowlisted_contracts = none;
  timelocks = none;
  safety_rules = none;
  token_budget = none;
  provenance = none;
}

abbrev args : ConstructorArgs
args = token_spending owner_wallet "500" 86400

abbrev policy : GeneratedPolicy
policy = record {
  definition = bare;
  policy_hash = "hash";
  schema_version = 1;
  template = "token_spending_limit";
  enforcement = policy_contract "wasm" (some args);
  mainnet = false;
}

abbrev p1 : PolicyRecord
p1 = record {
  id = "p1";
  policy = policy;
  created_at = 0;
  status = generated;
  instance_of = none;
  deployment = none;
}

abbrev made : PolicyInstance
made = record { contract_id = "C1"; wallet = owner_wallet; tx_hash = "t1"; deployed_at = 3 }

abbrev limits : BudgetLine → BudgetLimits
limits line = record { max_stroops = none; max_count = 2 }

abbrev config : PgBudgetConfig
config = record { window_ms = 100; limits = limits }

abbrev from_xdr : String → Option (List Operation)
from_xdr s = some (
    invoke_contract (record {
      contract_address = owner_wallet;
      function_name = "add_signer";
      call_args = val (sc_address s) no_vals;
    })
    ∷ [])

abbrev deps : DeploymentDeps
deps = record {
  has_deployer = true;
  budget = some (config, testnet);
  verifies = true;
  from_xdr = from_xdr;
}

abbrev request : String → ℕ → DeployRequest
request call now = record {
  call = call;
  admin = false;
  id = "p1";
  wallet = owner_wallet;
  ledger_up = true;
  now = now;
  at = now;
}

abbrev answer : String → String → ℕ → FinishRequest
answer call contract now = record {
  call = call;
  outcome = instance_made contract "t1";
  commits = true;
  now = now;
}

abbrev look_up : ℕ → String → LookupAnswer
look_up now tx_hash = if str_eq tx_hash "a1" then answered (success (some "C1")) else unreachable

abbrev attach_request : AttachRequest
attach_request = record {
  call = "r3";
  admin = false;
  id = "p1";
  tx_hash = "a1";
  contract_id = some "C1";
}

abbrev attach_answer : ℕ → AttachAnswer
attach_answer now = record { call = "r3"; answers = look_up now; commits = true; now = now }

abbrev steps : List Step
steps =
    begin (request "r1" 1)
    ∷ finish (answer "r1" "C1" 3)
    ∷ begin (request "r2" 4)
    ∷ attach attach_request
    ∷ attach_answered (attach_answer 5)
    ∷ []

abbrev policies : JsMap PolicyRecord
policies = ("p1", p1) ∷ []

-- The second request is answered from the record.
run_once :
    ((run deps steps (fresh policies [])).policies
      ≡ (
        "p1",
        (record p1 {
          status = deployed;
          instance_of = some made;
          deployment = some (record { contract_id = some "C1"; tx_hash = "a1"; deployed_at = 5 });
        }),
      )
        ∷ [])
    × (made_for "p1" (run deps steps (fresh policies [])).chain ≡ 1)
unfolding run step begin_deploy finish_deploy begin_attach finish_attach consume take_waiting
    try_consume sum_count sum_stroops is_contract_address validate_policy_for_deployment
    verify_attach_tx check_result check_operations check_invocation collect_addresses collect_vals
    JsMap.get JsMap.set
run_once = (refl, refl)

-- Two requests that overlap make two instances, and the record keeps the later one.
overlap :
    made_for "p1"
      (run deps
        (begin (request "r1" 1)
          ∷ begin (request "r2" 2)
          ∷ finish (answer "r1" "C1" 3)
          ∷ finish (answer "r2" "C2" 4)
          ∷ [])
        (fresh policies [])).chain
    ≡ 2
unfolding run step begin_deploy finish_deploy begin_attach finish_attach consume take_waiting
    try_consume sum_count sum_stroops is_contract_address validate_policy_for_deployment
    verify_attach_tx check_result check_operations check_invocation collect_addresses collect_vals
    JsMap.get JsMap.set
overlap = refl

-- An attach of the first instance that waits while a second deploy writes the record: its copy puts
-- the first instance back, and the record does not show the second.
stale_attach :
    (run deps
      (begin (request "r1" 1)
        ∷ begin (request "r2" 2)
        ∷ finish (answer "r1" "C1" 3)
        ∷ attach attach_request
        ∷ finish (answer "r2" "C2" 4)
        ∷ attach_answered (attach_answer 5)
        ∷ [])
      (fresh policies [])).policies
    ≡ (run deps steps (fresh policies [])).policies
unfolding run step begin_deploy finish_deploy begin_attach finish_attach consume take_waiting
    try_consume sum_count sum_stroops is_contract_address validate_policy_for_deployment
    verify_attach_tx check_result check_operations check_invocation collect_addresses collect_vals
    JsMap.get JsMap.set
stale_attach = refl

empty-Fits : Fits config deploy testnet [] 9
unfolding sum_count sum_stroops
empty-Fits = record { count_fits = omega arith; stroops_fit = tt }

run_within_budget_example :
    (let w = run deps steps (fresh policies []) in
      paid_instances 100 9 w.chain + paid_waiting 100 9 w.waiting ≤ 2)
run_within_budget_example =
    run_within_budget config testnet 9 deps steps policies [] refl
      (omega arith, (tt, (omega arith, (tt, (tt, tt))))) empty-Fits

run-AllBacked_example : AllBacked look_up deps (run deps steps (fresh policies []))
run-AllBacked_example =
    run-AllBacked look_up deps refl steps (fresh policies [])
      (tt, (tt, (tt, (refl, ((λ tx_hash. refl), tt))))) (((λ status. absurd cc), tt), tt)

abbrev settled_world : World
settled_world = record {
  policies = ("p1", (record p1 { status = instance_deployed; instance_of = some made })) ∷ [];
  ledger = [];
  waiting = [];
  attaching = [];
  chain = (record { policy_id = "p1"; contract_id = "C1"; paid_at = some 1 }) ∷ [];
}

settled_world-IsSettled : IsSettled "p1" made 1 settled_world
unfolding JsMap.get
settled_world-IsSettled = ((refl, tt), refl, tt, tt, refl)

run-IsSettled_example : IsSettled "p1" made 1 (run deps steps settled_world)
run-IsSettled_example = run-IsSettled "p1" made 1 deps steps settled_world settled_world-IsSettled

abbrev orphan : Orphan
orphan = record { contract_id = "C9"; tx_hash = "t9"; wallet = owner_wallet }

p1_found : JsMap.get "p1" policies ≡ some p1
unfolding JsMap.get
p1_found = refl

first_accepted : Accepted deps (request "r1" 1) (fresh policies []) p1 args
unfolding is_contract_address JsMap.get validate_policy_for_deployment consume try_consume sum_count
    sum_stroops
first_accepted = (refl, refl, refl, refl, refl, refl)

paid_again : (consume deps (request "r2" 5) (consume deps (request "r1" 1) []).1).0 ≡ true
unfolding consume try_consume sum_count sum_stroops
paid_again = refl

wallet_valid : is_contract_address owner_wallet ≡ true
unfolding is_contract_address
wallet_valid = refl

lost_instance_example :
    (let after = lost deps (request "r1" 1) (fresh policies []) p1 args "C1" "t1" 2 in
      (after.1 ≡ some (failure 500 "deploy_failed"))
      × (after.0.policies ≡ policies)
      × (made_for "p1" after.0.chain ≡ 1)
      × ((begin_deploy deps (request "r2" 5) after.0).1 ≡ none))
lost_instance_example =
    lost_instance deps (request "r1" 1) (request "r2" 5) (fresh policies []) p1 args "C1" "t1" 2
      first_accepted refl wallet_valid paid_again

abbrev budgeted : PolicyDefinition
budgeted = record bare {
  owners = owner_wallet ∷ [];
  token_budget =
      some (record { token = owner_wallet; amount_base_units = "500"; window_seconds = none });
}

abbrev no_url : String → Option (String × String)
no_url s = none

abbrev as_id : String → String
as_id s = s

abbrev one_hash : PolicyDefinition → String
one_hash d = "hash"

-- The definition is valid, and the policy generated from it waits for its instance.
budgeted_starts :
    ((begin_deploy deps
        (request "r1" 1)
        (generate_route
          (publisher_ids no_url as_id)
          one_hash
          "p1"
          0
          budgeted
          false
          (fresh [] [])).0).1
      ≡ none)
    × ((generate_route (publisher_ids no_url as_id) one_hash "p1" 0 bare false (fresh [] [])).1
        ≡ some (failure 422 "invalid_policy"))
unfolding generate_route validate_definition get_template template_schema token_budget_schema
    is_address is_contract_address base_units is_digits to_number generate_policy enforce
    derive_token_spending_constructor begin_deploy consume try_consume sum_count sum_stroops
    validate_policy_for_deployment JsMap.get JsMap.set
budgeted_starts = (refl, refl)

generate_route_lem_example :
    (let ids = publisher_ids no_url as_id in
      let after = generate_route ids one_hash "p1" 0 budgeted false (fresh [] []) in
      ((validate_definition ids budgeted none ≡ false)
        × (after ≡ (fresh [] [], some (failure 422 "invalid_policy"))))
      ⊎ ((g : GeneratedPolicy) × (validate_definition ids budgeted none ≡ true)
          × (generate_policy ids one_hash budgeted false ≡ ok g)
          × (after ≡ (
            fresh (("p1", new_record "p1" 0 g) ∷ []) [],
            some (replied (new_record "p1" 0 g) none),
          ))
          × ((begin_deploy deps (request "r1" 1) after.0).1
              ≡ deploy_answer
                  (is_policy_contract g.enforcement)
                  (consume deps (request "r1" 1) []).0)))
unfolding JsMap.set
generate_route_lem_example =
    generate_route_lem no_url as_id one_hash deps "p1" 0 budgeted false (fresh [] [])
      (request "r1" 1) refl refl wallet_valid
