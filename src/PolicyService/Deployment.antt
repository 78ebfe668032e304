-- ===== src/PolicyService/Deployment.antt =====
-- services/policy-service/src: deployment.ts, validation.ts and the routes of server.ts that deploy
-- an instance of a policy and record its attach, for users and for administrators (Generate has the
-- one that generates a policy), with the budget of packages/service-kit.
-- The repository is the Postgres one: `find` gives a copy, and a failed `update` leaves the row.
-- A deploy and an attach are two steps each, before and after the wait for the chain, and steps
-- interleave. The log of instances on the chain is an observation. Times are numbers; metrics,
-- traces and logs are left out.
pub mod Generate
pub mod Steps
pub mod Spending
pub mod Backed
pub mod Settled
pub mod Orphans
mod Tests
use vellar_dapp.JsMap.{JsMap}
use vellar_dapp.JsMap
use vellar_dapp.ServiceKit.Budget.{
  BudgetLine, sponsor, deploy, create, BudgetNetwork, testnet, mainnet, BudgetLimits,
  ConsumeRequest, ConsumeResult, consumed, refused, Prior, over_stroops, within_ceiling,
  try_consume_unavailable, LedgerRow, same_line, same_network, PgBudgetConfig, in_window,
  sum_stroops, sum_count, try_consume, Request, consume_all,
}
use vellar_dapp.PolicyService.Templates.{
  SpendingLimits, TokenAmount, SafetyRules, TokenBudget, ProvenanceMode, strict, trusted_publishers,
  Provenance, PolicyDefinition, digits_value, seven_zeros, stroops_per_xlm, stroops_of_codes,
  xlm_to_stroops, SafetyRulesConstructor, ConstructorArgs, spending, token_spending,
  verified_recipient, Enforcement, policy_contract, signer_limits, no_enforcement,
  custom_contract_pending, GenerateError, unknown_policy_type, no_limit, no_token_budget,
  unattributable_publisher, default_window_seconds, attestation_registry_id,
  spending_policy_wasm_hash, verified_recipient_wasm_hash, token_spending_policy_wasm_hash, or_else,
  rules_of, derive_safety_rules, cap_of, spending_args, derive_spending_constructor,
  derive_token_spending_constructor, id_of_publisher, verified_args,
  derive_verified_recipient_constructor, enforce, GeneratedPolicy, PolicyTemplate, templates,
  find_template, latest_template, get_template, generated_as, generate_from, generate_policy,
}
use vellar_dapp.PolicyService.Templates.Schema.{
  every, optional, absent, required, unique_items, is_address, is_contract_address,
  max_window_seconds, max_rule_entries, max_trusted_publishers, base_units, window_seconds,
  decimal_form, positive_xlm_amount, spending_limits_schema, caps_schema, tokens_schema,
  safety_rules_schema, token_budget_schema, owners_schema, base_schema, no_fields, publisher_schema,
  publishers_schema, provenance_schema, own_schema, template_schema, accepted, validate_definition,
  validate_deployed_policy,
}
use vellar_dapp.PolicyService.Attach.{
  ScVal, sc_address, sc_vec, sc_map, other, ScVals, no_vals, val, ScEntries, no_entries, entry,
  collect_addresses, collect_vals, collect_entries, InvokeContractArgs, Operation, invoke_contract,
  invoke_other, other_operation, TxResult, success, not_found, failed, LookupAnswer, answered,
  unreachable, timed_out, AttachError, attach_unconfirmed, attach_timeout, attach_mismatch,
  AttachTarget, add_policy_fns, check_invocation, check_operations, check_result, verify_attach_tx,
}
use vellar_dapp.Prelude.{
  if◌then◌else◌, is_some, ℕ, String, Bool, true, false, not, ◌&&◌, ◌||◌, Option, none, some, List,
  [], ◌∷◌, str_eq, stroops, Result, ok, err,
}

pub data PolicyStatus : Type 0 where
  generated instance_deployed deployed : PolicyStatus

pub record PolicyInstance : Type 0 where
  pub contract_id : String
  pub wallet : String
  pub tx_hash : String
  pub deployed_at : ℕ

pub record PolicyDeployment : Type 0 where
  pub contract_id : Option String
  pub tx_hash : String
  pub deployed_at : ℕ

pub record PolicyRecord : Type 0 where
  pub id : String
  pub policy : GeneratedPolicy
  pub created_at : ℕ
  pub status : PolicyStatus
  pub instance_of : Option PolicyInstance
  pub deployment : Option PolicyDeployment

-- A deploy that waits for the chain, with its copy of the record and the clock of its payment; an
-- administrator's is not paid for.
pub record Waiting : Type 0 where
  pub held : PolicyRecord
  pub wallet : String
  pub args : ConstructorArgs
  pub admin : Bool
  pub paid_at : Option ℕ

-- An attach that waits, with its copy of the record, and whether it is checked on the chain.
pub record Attaching : Type 0 where
  pub held : PolicyRecord
  pub tx_hash : String
  pub contract_id : Option String
  pub checks : Bool

pub record OnChain : Type 0 where
  pub policy_id : String
  pub contract_id : String
  pub paid_at : Option ℕ

pub record World : Type 0 where
  pub policies : JsMap PolicyRecord
  pub ledger : List LedgerRow
  pub waiting : List (String × Waiting)
  pub attaching : List (String × Attaching)
  pub chain : List OnChain

pub record DeploymentDeps : Type 0 where
  pub has_deployer : Bool
  pub budget : Option (PgBudgetConfig × BudgetNetwork)
  pub verifies : Bool
  pub from_xdr : String → Option (List Operation)

-- A status code and the field `error`.
pub data Reply : Type 0 where
  replied : PolicyRecord → Option String → Reply
  failure : ℕ → String → Reply

-- The args of validatePolicyForDeployment's check, `none` where it fails.
abbrev pub deployable_args : Enforcement → Option ConstructorArgs
deployable_args (policy_contract wasm_hash args) = args
deployable_args _ = none

unfoldable pub validate_policy_for_deployment : PolicyRecord → Option ConstructorArgs
validate_policy_for_deployment r = deployable_args r.policy.enforcement

abbrev pub deploy_fee : ℕ
deploy_fee = 10000000

-- The route's `call` names the request, whose clocks are `now` and `at`. The administrators' route
-- has the same guards and no budget.
pub record DeployRequest : Type 0 where
  pub call : String
  pub admin : Bool
  pub id : String
  pub wallet : String
  pub ledger_up : Bool
  pub now : ℕ
  pub at : ℕ

abbrev pub is_consumed : ConsumeResult → Bool
is_consumed consumed = true
is_consumed (refused why) = false

-- The budget's line "deploy"; without a budget, and for an administrator, nothing is written.
unfoldable pub consume : DeploymentDeps → DeployRequest → List LedgerRow → Bool × List LedgerRow
unfolding try_consume
consume deps req ledger = if req.admin then (true, ledger) else elim deps.budget [
  | none ↦ (true, ledger)
  | some (config, network) ↦
      let taken =
        try_consume config
          (record { line = deploy; network = network; stroops = deploy_fee; count = none }) req.now
          req.at ledger in
      if req.ledger_up then (is_consumed taken.1, taken.0) else (false, ledger)
]

abbrev pub paid_at_of : DeployRequest → Option ℕ
paid_at_of req = if req.admin then none else some req.at

abbrev pub waiting_of : DeployRequest → PolicyRecord → ConstructorArgs → Waiting
waiting_of req r args = record {
  held = r;
  wallet = req.wallet;
  args = args;
  admin = req.admin;
  paid_at = paid_at_of req;
}

-- POST /policies/:id/deploy-instance up to the wait for the deployer; `none` is no reply yet.
abbrev pub start :
    DeploymentDeps → DeployRequest → PolicyRecord → ConstructorArgs → World → World × Option Reply
start deps req record_found args w =
    let paid = consume deps req w.ledger in
    if paid.0
    then (
      record w {
        ledger = paid.1;
        waiting = (req.call, waiting_of req record_found args) ∷ w.waiting;
      },
      none,
    )
    else (record w { ledger = paid.1 }, some (failure 503 "deploy_budget_exceeded"))

-- The instance held so far and the args to deploy with decide.
abbrev pub begin_with :
    DeploymentDeps
    → DeployRequest
    → PolicyRecord
    → World
    → Option PolicyInstance
    → Option ConstructorArgs
    → World × Option Reply
begin_with deps req r w (some i) args = (w, some (replied r (some i.contract_id)))
begin_with deps req r w none none = (w, some (failure 422 "not_deployable"))
begin_with deps req r w none (some args) = start deps req r args w

abbrev pub begin_found :
    DeploymentDeps → DeployRequest → World → Option PolicyRecord → World × Option Reply
begin_found deps req w none = (w, some (failure 404 "policy_not_found"))
begin_found deps req w (some r) =
    begin_with deps req r w r.instance_of (validate_policy_for_deployment r)

unfoldable pub begin_deploy : DeploymentDeps → DeployRequest → World → World × Option Reply
begin_deploy deps req w =
    if not deps.has_deployer
    then (w, some (failure 503 "deploy_unavailable"))
    else if not (is_contract_address req.wallet)
    then (w, some (failure 400 "invalid_body"))
    else begin_found deps req w (JsMap.get req.id w.policies)

-- The deployer's answer: an instance, a PolicyDeployError, or another error. After an error, a
-- timeout for one, the chain may hold an instance all the same.
pub data DeployOutcome : Type 0 where
  instance_made : String → String → DeployOutcome
  deploy_refused deploy_broke : Option String → DeployOutcome

pub record FinishRequest : Type 0 where
  pub call : String
  pub outcome : DeployOutcome
  pub commits : Bool
  pub now : ℕ

-- What waits for a request, and the others.
unfoldable pub take_waiting {ℓ} :
    {A : Type ℓ} → String → List (String × A) → Option (A × List (String × A))
take_waiting call [] = none
take_waiting call ((c, x) ∷ xs) =
    let rest = take_waiting call xs in
    if str_eq c call
    then some (x, xs)
    else elim rest [ none ↦ none | some (y, ys) ↦ some (y, (c, x) ∷ ys) ]

abbrev pub with_instance : PolicyRecord → PolicyInstance → PolicyRecord
with_instance r i = record r { status = instance_deployed; instance_of = some i }

abbrev pub instance_from : FinishRequest → Waiting → String → String → PolicyInstance
instance_from req x contract_id tx_hash = record {
  contract_id = contract_id;
  wallet = x.wallet;
  tx_hash = tx_hash;
  deployed_at = req.now;
}

-- The answer to an error that is no PolicyDeployError; the administrators' route throws it on.
abbrev pub fault : Bool → Reply
fault admin = failure 500 (if admin then "Internal Server Error" else "deploy_failed")

-- The record's write, which may fail after the instance was made; then the route's error is not
-- told from any other.
abbrev pub commit : Bool → Bool → PolicyRecord → String → World → World × Option Reply
commit admin true updated contract_id w = (
  record w { policies = JsMap.set updated.id updated w.policies },
  some (replied updated (some contract_id)),
)
commit admin false updated contract_id w = (w, some (fault admin))

abbrev pub made_by : Waiting → String → OnChain
made_by x contract_id = record {
  policy_id = x.held.id;
  contract_id = contract_id;
  paid_at = x.paid_at;
}

-- The chain's log after an error of the deployer.
abbrev pub log_stray : Waiting → Option String → World → World
log_stray x none w = w
log_stray x (some contract_id) w = record w { chain = made_by x contract_id ∷ w.chain }

-- What follows the deployer's call in deployPolicyInstance, and the route's replies.
abbrev pub settle : FinishRequest → Waiting → DeployOutcome → World → World × Option Reply
settle req x (deploy_refused stray) w = (log_stray x stray w, some (failure 502 "deploy_failed"))
settle req x (deploy_broke stray) w = (log_stray x stray w, some (fault x.admin))
settle req x (instance_made contract_id tx_hash) w =
    commit x.admin req.commits (with_instance x.held (instance_from req x contract_id tx_hash))
      contract_id (record w { chain = made_by x contract_id ∷ w.chain })

abbrev pub finish_taken :
    FinishRequest → World → Option (Waiting × List (String × Waiting)) → World × Option Reply
finish_taken req w none = (w, none)
finish_taken req w (some (x, others)) = settle req x req.outcome (record w { waiting = others })

unfoldable pub finish_deploy : FinishRequest → World → World × Option Reply
finish_deploy req w = finish_taken req w (take_waiting req.call w.waiting)

-- The administrators' route does not check the attach.
pub record AttachRequest : Type 0 where
  pub call : String
  pub admin : Bool
  pub id : String
  pub tx_hash : String
  pub contract_id : Option String

abbrev pub attaching_of : DeploymentDeps → AttachRequest → PolicyRecord → Attaching
attaching_of deps req r = record {
  held = r;
  tx_hash = req.tx_hash;
  contract_id = req.contract_id;
  checks = not req.admin && deps.verifies;
}

-- validatePolicyInstance, where the attach is checked; `none` is no reply yet.
abbrev pub attach_found :
    DeploymentDeps → AttachRequest → World → Option PolicyRecord → World × Option Reply
attach_found deps req w none = (w, some (failure 404 "policy_not_found"))
attach_found deps req w (some r) =
    if not req.admin && (deps.verifies && not (is_some r.instance_of))
    then (w, some (failure 422 "no_instance"))
    else (record w { attaching = (req.call, attaching_of deps req r) ∷ w.attaching }, none)

-- POST /policies/deploy up to the wait for the attach's transaction
unfoldable pub begin_attach : DeploymentDeps → AttachRequest → World → World × Option Reply
begin_attach deps req w =
    if str_eq req.id "" || str_eq req.tx_hash ""
    then (w, some (failure 400 "invalid_body"))
    else attach_found deps req w (JsMap.get req.id w.policies)

-- The network's answers by the hash of a transaction, and whether the write succeeds.
pub record AttachAnswer : Type 0 where
  pub call : String
  pub answers : String → LookupAnswer
  pub commits : Bool
  pub now : ℕ

-- The route lets an error that it does not know through, for the server to answer.
abbrev pub attach_reply : AttachError → Reply
attach_reply attach_unconfirmed = failure 503 "attach_unconfirmed"
attach_reply attach_mismatch = failure 422 "attach_mismatch"
attach_reply attach_timeout = failure 500 "Internal Server Error"

abbrev pub target_of : PolicyInstance → AttachTarget
target_of i = record { wallet = i.wallet; policy_contract_id = i.contract_id }

abbrev pub with_attach : AttachAnswer → Attaching → PolicyRecord
with_attach req x = record x.held {
  status = deployed;
  deployment =
      some (record { contract_id = x.contract_id; tx_hash = x.tx_hash; deployed_at = req.now });
}

abbrev pub record_attach : Bool → PolicyRecord → World → World × Option Reply
record_attach true updated w =
    (record w { policies = JsMap.set updated.id updated w.policies }, some (replied updated none))
record_attach false updated w = (w, some (failure 500 "Internal Server Error"))

abbrev pub attach_verified :
    AttachAnswer → Attaching → World → Result AttachError (Unit {0}) → World × Option Reply
attach_verified req x w (err e) = (w, some (attach_reply e))
attach_verified req x w (ok _) = record_attach req.commits (with_attach req x) w

-- What follows the lookup in verifyAndRecordAttach, where the attach is checked and where not.
abbrev pub verify_and_record_attach :
    DeploymentDeps
    → AttachAnswer
    → Attaching
    → World
    → Bool
    → Option PolicyInstance
    → World × Option Reply
verify_and_record_attach deps req x w false o = record_attach req.commits (with_attach req x) w
verify_and_record_attach deps req x w true none = (w, some (failure 422 "no_instance"))
verify_and_record_attach deps req x w true (some i) =
    attach_verified req x w (verify_attach_tx deps.from_xdr (target_of i) (req.answers x.tx_hash))

abbrev pub attach_taken :
    DeploymentDeps
    → AttachAnswer
    → World
    → Option (Attaching × List (String × Attaching))
    → World × Option Reply
attach_taken deps req w none = (w, none)
attach_taken deps req w (some (x, others)) =
    verify_and_record_attach deps req x (record w { attaching = others }) x.checks
      x.held.instance_of

unfoldable pub finish_attach : DeploymentDeps → AttachAnswer → World → World × Option Reply
finish_attach deps req w = attach_taken deps req w (take_waiting req.call w.attaching)

pub data Step : Type 0 where
  begin : DeployRequest → Step
  finish : FinishRequest → Step
  attach : AttachRequest → Step
  attach_answered : AttachAnswer → Step

unfoldable pub step : DeploymentDeps → Step → World → World
step deps (begin req) w = (begin_deploy deps req w).0
step deps (finish req) w = (finish_deploy req w).0
step deps (attach req) w = (begin_attach deps req w).0
step deps (attach_answered req) w = (finish_attach deps req w).0

unfoldable pub run : DeploymentDeps → List Step → World → World
run deps [] w = w
run deps (s ∷ ss) w = run deps ss (step deps s w)

pub record Orphan : Type 0 where
  pub contract_id : String
  pub tx_hash : String
  pub wallet : String

abbrev pub is_recorded : PolicyStatus → Bool
is_recorded generated = false
is_recorded _ = true

abbrev pub instance_is : String → Option PolicyInstance → Bool
instance_is contract none = false
instance_is contract (some i) = str_eq i.contract_id contract

abbrev pub deployment_is : String → Option PolicyDeployment → Bool
deployment_is contract none = false
deployment_is contract (some d) = elim d.contract_id [ none ↦ false | some c ↦ str_eq c contract ]

abbrev pub already_recorded : Orphan → PolicyRecord → Bool
already_recorded orphan r =
    is_recorded r.status
    && (instance_is orphan.contract_id r.instance_of
        || deployment_is orphan.contract_id r.deployment)

abbrev pub first_deployed_at : Option PolicyInstance → ℕ → ℕ
first_deployed_at none now = now
first_deployed_at (some i) now = i.deployed_at

abbrev pub instance_of_orphan : Orphan → ℕ → PolicyRecord → PolicyInstance
instance_of_orphan orphan now r = record {
  contract_id = orphan.contract_id;
  wallet = orphan.wallet;
  tx_hash = orphan.tx_hash;
  deployed_at = first_deployed_at r.instance_of now;
}

abbrev pub reconcile_found : Orphan → ℕ → PolicyRecord → World → World × (PolicyRecord × Bool)
reconcile_found orphan now r w =
    let updated = with_instance r (instance_of_orphan orphan now r) in
    if already_recorded orphan r
    then (w, (r, false))
    else (record w { policies = JsMap.set r.id updated w.policies }, (updated, true))

abbrev pub reconcile_with :
    Orphan → ℕ → World → Option PolicyRecord → Option (World × (PolicyRecord × Bool))
reconcile_with orphan now w none = none
reconcile_with orphan now w (some r) = some (reconcile_found orphan now r w)

-- `none` where no record has the id. The write is taken to succeed.
unfoldable pub reconcile_orphaned_deployment :
    String → Orphan → ℕ → World → Option (World × (PolicyRecord × Bool))
reconcile_orphaned_deployment policy_id orphan now w =
    reconcile_with orphan now w (JsMap.get policy_id w.policies)
