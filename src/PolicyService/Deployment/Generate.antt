-- ===== src/PolicyService/Deployment/Generate.antt =====
-- services/policy-service/src/server.ts: the route that generates a policy from a definition, with
-- templates.ts, and what a deploy finds of it. The drawn id is an argument.
use vellar_dapp.JsMap.{JsMap}
use vellar_dapp.JsMap
use vellar_dapp.PolicyService.Templates.{
  PolicyDefinition, Enforcement, policy_contract, signer_limits, no_enforcement,
  custom_contract_pending, GenerateError, GeneratedPolicy, generate_policy,
}
use vellar_dapp.PolicyService.Templates.Schema.{is_contract_address, accepted, validate_definition}
use vellar_dapp.PolicyService.Templates.Generated.{IsEnforced, publisher_ids, generate_policy_lem}
use vellar_dapp.PolicyService.Deployment.{
  generated, PolicyRecord, World, DeploymentDeps, Reply, replied, failure, deployable_args,
  validate_policy_for_deployment, DeployRequest, consume, begin_with, begin_deploy,
}
use vellar_dapp.PolicyService.Deployment.Steps.{begin_valid}
use vellar_dapp.Prelude.{
  if◌then◌else◌, Bool-cases, ℕ, String, ◌≡◌, refl, sym, ap, ◌∙◌, subst, ◌⊎◌, inl, inr, Bool, true,
  false, Option, none, some, Result, ok, err,
}

abbrev pub new_record : String → ℕ → GeneratedPolicy → PolicyRecord
new_record id now g = record {
  id = id;
  policy = g;
  created_at = now;
  status = generated;
  instance_of = none;
  deployment = none;
}

-- policies.insert and the reply; what generatePolicy throws is answered by the server.
abbrev pub insert_generated :
    String → ℕ → World → Result GenerateError GeneratedPolicy → World × Option Reply
insert_generated id now w (err e) = (w, some (failure 500 "Internal Server Error"))
insert_generated id now w (ok g) = (
  record w { policies = JsMap.set id (new_record id now g) w.policies },
  some (replied (new_record id now g) none),
)

module _ (publisher_id_for : String → Option String) (policy_hash : PolicyDefinition → String) where
  -- POST /policies/generate
  unfoldable pub generate_route :
      String → ℕ → PolicyDefinition → Bool → World → World × Option Reply
  generate_route id now definition mainnet w =
      if validate_definition publisher_id_for definition none
      then insert_generated id now w
          (generate_policy publisher_id_for policy_hash definition mainnet)
      else (w, some (failure 422 "invalid_policy"))

abbrev pub is_policy_contract : Enforcement → Bool
is_policy_contract (policy_contract wasm_hash args) = true
is_policy_contract _ = false

-- What a request to deploy the policy is answered; `none` is a deploy that waits.
abbrev pub deploy_answer : Bool → Bool → Option Reply
deploy_answer true true = none
deploy_answer true false = some (failure 503 "deploy_budget_exceeded")
deploy_answer false paid = some (failure 422 "not_deployable")

-- Enforced as its definition asks, a policy has arguments to deploy with exactly for a contract.
enforced_answer :
    (deps : DeploymentDeps) (req : DeployRequest) (r : PolicyRecord) (w : World)
    (d : PolicyDefinition) (e : Enforcement)
    → IsEnforced d e
    → (begin_with deps req r w none (deployable_args e)).1
      ≡ deploy_answer (is_policy_contract e) (consume deps req w.ledger).0
enforced_answer deps req r w d (policy_contract wasm_hash (some args)) h =
    elim (Bool-cases (consume deps req w.ledger).0) [ inl e ↦ rw e refl | inr e ↦ rw e refl ]
enforced_answer deps req r w d (policy_contract wasm_hash none) h = absurd h
enforced_answer deps req r w d signer_limits h = refl
enforced_answer deps req r w d no_enforcement h = refl
enforced_answer deps req r w d custom_contract_pending h = refl

stored_deploys :
    (deps : DeploymentDeps) (id : String) (now : ℕ) (d : PolicyDefinition) (g : GeneratedPolicy)
    (w : World) (req : DeployRequest)
    → deps.has_deployer ≡ true
    → req.id ≡ id
    → is_contract_address req.wallet ≡ true
    → JsMap.get id w.policies ≡ some (new_record id now g)
    → IsEnforced d g.enforcement
    → (begin_deploy deps req w).1
      ≡ deploy_answer (is_policy_contract g.enforcement) (consume deps req w.ledger).0
unfolding validate_policy_for_deployment
stored_deploys deps id now d g w req deploys same valid found enforced =
    let r = new_record id now g in
    let here = subst (λ k. JsMap.get k w.policies ≡ some r) (sym same) found in
    ap (λ p. p.1) (begin_valid deps req w r deploys valid here refl)
    ∙ enforced_answer deps req r w d g.enforcement enforced

module _ (parse_url : String → Option (String × String)) (publisher_id_hex : String → String)
    (policy_hash : PolicyDefinition → String) where
  -- For any URL parser and hash: a definition that is not valid is answered with 422, and nothing
  -- changes. For a valid one a policy is generated without an error, a record of it is stored under
  -- the new id, and nothing else changes, and the record is replied. A request to deploy it, to a
  -- server with a deployer and for a wallet at a contract's address, is then answered with 422 if the
  -- policy is not enforced by a contract; for any other it waits for the chain if its budget is
  -- granted, and is answered with 503 if not.
  pub generate_route_lem :
      (deps : DeploymentDeps) (id : String) (now : ℕ) (d : PolicyDefinition) (mainnet : Bool)
      (w : World) (req : DeployRequest)
      → deps.has_deployer ≡ true
      → req.id ≡ id
      → is_contract_address req.wallet ≡ true
      → (let ids = publisher_ids parse_url publisher_id_hex in
          let after = generate_route ids policy_hash id now d mainnet w in
          ((validate_definition ids d none ≡ false)
            × (after ≡ (w, some (failure 422 "invalid_policy"))))
          ⊎ ((g : GeneratedPolicy) × (validate_definition ids d none ≡ true)
              × (generate_policy ids policy_hash d mainnet ≡ ok g)
              × (after ≡ (
                record w { policies = JsMap.set id (new_record id now g) w.policies },
                some (replied (new_record id now g) none),
              ))
              × ((begin_deploy deps req after.0).1
                  ≡ deploy_answer
                      (is_policy_contract g.enforcement)
                      (consume deps req w.ledger).0)))
  unfolding generate_route
  generate_route_lem deps id now d mainnet w req deploys same valid =
      elim (Bool-cases (validate_definition (publisher_ids parse_url publisher_id_hex) d none)) [
        | inr refused ↦ inl (refused, (rw refused refl))
        | inl accepted ↦
            let made =
              generate_policy_lem parse_url publisher_id_hex policy_hash d mainnet accepted in
            let g = made.0 in
            let r = new_record id now g in
            let stored : World = record w { policies = JsMap.set id r w.policies } in
            let route : generate_route (publisher_ids parse_url publisher_id_hex) policy_hash id now
                  d mainnet w
                ≡ (stored, some (replied r none)) =
              rw accepted (ap (λ o. insert_generated id now w o) made.1) in
            let found : JsMap.get id stored.policies ≡ some r =
              JsMap.get-set_self id r w.policies in
            inr (
              g,
              accepted,
              made.1,
              route,
              ap (λ p. (begin_deploy deps req p.0).1) route
                  ∙ stored_deploys deps id now d g stored req deploys same valid found made.2,
            )
      ]
