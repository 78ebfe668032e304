-- ===== src/PolicyService/Deployment/Backed.antt =====
-- services/policy-service/src/server.ts with verify-attach.ts: what the status "deployed" says of a
-- record where attaches are verified.
use vellar_dapp.JsMap.{JsMap}
use vellar_dapp.JsMap
use vellar_dapp.PolicyService.Attach.{LookupAnswer}
use vellar_dapp.PolicyService.Attach.Confirmed.{IsAttach, verify_attach_tx_iff}
use vellar_dapp.PolicyService.Deployment.{
  deployed, PolicyInstance, PolicyDeployment, PolicyRecord, Waiting, World, DeploymentDeps,
  DeployRequest, consume, start, DeployOutcome, instance_made, deploy_refused, deploy_broke,
  FinishRequest, with_instance, instance_from, settle, log_stray, Attaching, AttachRequest,
  AttachAnswer, target_of, with_attach, Step, begin, finish, attach, attach_answered, step, run,
}
use vellar_dapp.PolicyService.Deployment.Steps.{
  WasVerified, Begun, Answered, take_waiting_all, begin_lem, finish_lem, attach_lem, answer_lem,
}
use vellar_dapp.PolicyService.Templates.{ConstructorArgs}
use vellar_dapp.Prelude.{
  Bool-cases, All, ℕ, String, ◌≡◌, refl, subst, inl, inr, true, false, Option, none, some, List, [],
  ◌∷◌,
}

-- The network's answer at a time for a transaction's hash.
module _ (lookup : ℕ → String → LookupAnswer) (deps : DeploymentDeps) where
  -- A record that is "deployed" holds its instance and its deployment, and the network's answer for
  -- the deployment's transaction, when it was recorded, was an attach of that instance to its wallet.
  abbrev pub IsBacked : PolicyRecord → Type 0
  IsBacked r =
      r.status ≡ deployed
      → (i : PolicyInstance) × (d : PolicyDeployment) × (r.instance_of ≡ some i)
        × (r.deployment ≡ some d)
        × IsAttach deps.from_xdr (target_of i) (lookup d.deployed_at d.tx_hash)

  abbrev pub IsChecked : Attaching → Type 0
  IsChecked x = x.checks ≡ true

  -- Every record is backed, and every attach that waits will be checked.
  abbrev pub AllBacked : World → Type 0
  AllBacked w =
      All (λ (e : String × PolicyRecord). IsBacked e.1) w.policies
      × All (λ (e : String × Attaching). IsChecked e.1) w.attaching

  -- Attaches are by users, and answered as the network answers.
  abbrev pub IsHonest : Step → Type 0
  IsHonest (attach req) = req.admin ≡ false
  IsHonest (attach_answered req) = (tx_hash : String) → req.answers tx_hash ≡ lookup req.now tx_hash
  IsHonest _ = Unit

  log_stray-AllBacked :
      (x : Waiting) (stray : Option String) (w : World)
      → AllBacked w
      → AllBacked (log_stray x stray w)
  log_stray-AllBacked x none w h = h
  log_stray-AllBacked x (some contract) w h = h

  settle-AllBacked :
      (req : FinishRequest) (o : DeployOutcome) (x : Waiting) (w : World)
      → AllBacked w
      → AllBacked (settle req x o w).0
  settle-AllBacked req (deploy_refused stray) x w h = log_stray-AllBacked x stray w h
  settle-AllBacked req (deploy_broke stray) x w h = log_stray-AllBacked x stray w h
  settle-AllBacked req (instance_made contract tx) x w h = elim (Bool-cases req.commits) [
    | inl e ↦ rw e (
      JsMap.All-set (λ e. IsBacked e.1) x.held.id
          (with_instance x.held (instance_from req x contract tx)) w.policies h.0 (λ no. absurd cc),
      h.1,
    )
    | inr e ↦ rw e h
  ]

  started_backed :
      (req : DeployRequest) (r : PolicyRecord) (args : ConstructorArgs) (w : World)
      → AllBacked w
      → AllBacked (start deps req r args w).0
  started_backed req r args w h = elim (Bool-cases (consume deps req w.ledger).0) [
    | inl e ↦ rw e h
    | inr e ↦ rw e h
  ]

  module _ (verifies : deps.verifies ≡ true) where
    attached-IsBacked :
        (req : AttachAnswer) (x : Attaching)
        → ((tx_hash : String) → req.answers tx_hash ≡ lookup req.now tx_hash)
        → x.checks ≡ true
        → WasVerified deps req x
        → IsBacked (with_attach req x)
    attached-IsBacked req x honest checks checked status =
        let v = checked checks in
        let confirmed =
          (verify_attach_tx_iff deps.from_xdr (target_of v.0) (req.answers x.tx_hash)).0 v.2 in
        (
          v.0,
          record { contract_id = x.contract_id; tx_hash = x.tx_hash; deployed_at = req.now },
          v.1,
          refl,
          subst (λ a. IsAttach deps.from_xdr (target_of v.0) a) (honest x.tx_hash) confirmed,
        )

    attach-AllBacked :
        (req : AttachRequest) (r : PolicyRecord) (w : World)
        → req.admin ≡ false
        → AllBacked w
        → Begun AllBacked deps w req r
    attach-AllBacked req r w user h = (h.0, ((rw (user, verifies) refl), h.1))

    answer-AllBacked :
        (req : AttachAnswer) (w : World)
        → IsHonest (attach_answered req)
        → AllBacked w
        → Answered AllBacked deps w req
    answer-AllBacked req w honest h x others e =
        let (checks, rest) = take_waiting_all IsChecked req.call w.attaching x others e h.1 in
        (
          (h.0, rest),
          λ checked. (
            JsMap.All-set (λ e. IsBacked e.1) x.held.id (with_attach req x) w.policies h.0
                (attached-IsBacked req x honest checks checked),
            rest,
          ),
        )

    step-AllBacked : (s : Step) (w : World) → IsHonest s → AllBacked w → AllBacked (step deps s w)
    unfolding step
    step-AllBacked (begin req) w honest h =
        begin_lem AllBacked deps w h req (λ r args found bare. started_backed req r args w h)
    step-AllBacked (finish req) w honest h =
        finish_lem AllBacked deps w h req
          (λ x others e. settle-AllBacked req req.outcome x (record w { waiting = others }) h)
    step-AllBacked (attach req) w user h =
        attach_lem AllBacked deps w h req (λ r found. attach-AllBacked req r w user h)
    step-AllBacked (attach_answered req) w honest h =
        answer_lem AllBacked deps w h req (answer-AllBacked req w honest h)

    -- With verification on, from records of which every "deployed" one is backed and attaches in
    -- flight of which every one is to be checked: after any interleaved steps of deploys, by users
    -- and administrators, and of attaches by users, answered as the network answers, every
    -- "deployed" record is backed by a confirmed attach of its own instance to its own wallet. The
    -- administrators' route that records an attach unchecked is excluded.
    pub run-AllBacked :
        (ss : List Step) (w : World) → All IsHonest ss → AllBacked w → AllBacked (run deps ss w)
    unfolding run
    run-AllBacked [] w honest h = h
    run-AllBacked (s ∷ ss) w honest h =
        run-AllBacked ss (step deps s w) honest.1 (step-AllBacked s w honest.0 h)
