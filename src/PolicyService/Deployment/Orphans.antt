-- ===== src/PolicyService/Deployment/Orphans.antt =====
-- services/policy-service/src/deployment.ts: an instance whose record was not written, and its
-- reconciliation.
use vellar_dapp.JsMap.{JsMap}
use vellar_dapp.JsMap
use vellar_dapp.PolicyService.Templates.{ConstructorArgs}
use vellar_dapp.PolicyService.Templates.Schema.{is_contract_address}
use vellar_dapp.PolicyService.Deployment.{
  PolicyInstance, PolicyRecord, World, DeploymentDeps, Reply, fault, waiting_of, made_by,
  validate_policy_for_deployment, DeployRequest, consume, start, begin_deploy, instance_made,
  take_waiting, with_instance, finish_deploy, Orphan, already_recorded, instance_of_orphan,
  reconcile_found, reconcile_with, reconcile_orphaned_deployment,
}
use vellar_dapp.PolicyService.Deployment.Steps.{begin_start}
use vellar_dapp.PolicyService.Deployment.Settled.{made_for}
use vellar_dapp.Prelude.{
  Bool-cases, ℕ, ◌+◌, String, ◌≡◌, refl, sym, ap, ◌∙◌, subst, inl, inr, Bool, true, false, not,
  Option, none, some, ◌∷◌, arith, eq_iff, eq_refl,
}

instance_recorded :
    (orphan : Orphan) (r : PolicyRecord) (i : PolicyInstance)
    → i.contract_id ≡ orphan.contract_id
    → already_recorded orphan (with_instance r i) ≡ true
instance_recorded orphan r i same = ground (arith, (eq_iff i.contract_id orphan.contract_id).1 same)

-- What a reconciliation of a record found leaves: the same record where it was recorded already.
abbrev pub Reconciled :
    String → Orphan → PolicyRecord → World → World × (PolicyRecord × Bool) → Type 0
Reconciled p orphan r w (after, (held, changed)) =
    (JsMap.get p after.policies ≡ some held)
    × (already_recorded orphan held ≡ true)
    × (changed ≡ not (already_recorded orphan r))
    × (after.chain ≡ w.chain)

reconcile_found-Reconciled :
    (p : String) (orphan : Orphan) (now : ℕ) (w : World) (r : PolicyRecord)
    → JsMap.get p w.policies ≡ some r
    → r.id ≡ p
    → Reconciled p orphan r w (reconcile_found orphan now r w)
reconcile_found-Reconciled p orphan now w r found own =
    elim (Bool-cases (already_recorded orphan r)) [
      | inl e ↦ rw e (found, e, refl, refl)
      | inr e ↦ rw e (
        (let updated = with_instance r (instance_of_orphan orphan now r) in
            subst (λ q. JsMap.get p (JsMap.set q updated w.policies) ≡ some updated) (sym own)
              (JsMap.get-set_self p updated w.policies)),
        instance_recorded orphan r (instance_of_orphan orphan now r) refl,
        refl,
        refl,
      )
    ]

-- For a record that stands under its own id: reconciling succeeds. It says that it changed the
-- record exactly if this was not recorded with the orphan's contract before, and afterwards it is.
-- Reconciling again, at any time, gives the same record and changes nothing.
pub reconcile_twice :
    (p : String) (orphan : Orphan) (now later : ℕ) (w : World) (r : PolicyRecord)
    → JsMap.get p w.policies ≡ some r
    → r.id ≡ p
    → (after : World) × (held : PolicyRecord) × (changed : Bool) × (reconcile_orphaned_deployment p
          orphan now w
        ≡ some (after, (held, changed)))
      × Reconciled p orphan r w (after, (held, changed))
      × (reconcile_orphaned_deployment p orphan later after ≡ some (after, (held, false)))
unfolding reconcile_orphaned_deployment
reconcile_twice p orphan now later w r found own =
    let first = reconcile_found orphan now r w in
    let done = reconcile_found-Reconciled p orphan now w r found own in
    (
      first.0,
      first.1.0,
      first.1.1,
      ap (λ o. reconcile_with orphan now w o) found,
      done,
      ap (λ o. reconcile_with orphan later first.0 o) done.0 ∙ rw done.1,
    )

-- A deploy whose instance is made on the chain while its record is not written.
module _ (deps : DeploymentDeps) (req : DeployRequest) (w : World) (r : PolicyRecord)
    (args : ConstructorArgs) where
  abbrev pub Accepted : Type 0
  Accepted =
      (deps.has_deployer ≡ true)
      × (is_contract_address req.wallet ≡ true)
      × (JsMap.get req.id w.policies ≡ some r)
      × (r.instance_of ≡ none)
      × (validate_policy_for_deployment r ≡ some args)
      × ((consume deps req w.ledger).0 ≡ true)

  accepted_lem : Accepted → begin_deploy deps req w ≡ start deps req r args w
  accepted_lem (a, b, c, d, e, f) = begin_start deps req w r args a b c d e

  started_lem :
      Accepted
      → start deps req r args w ≡ (
        record w {
          ledger = (consume deps req w.ledger).1;
          waiting = (req.call, waiting_of req r args) ∷ w.waiting;
        },
        none,
      )
  started_lem h = rw h.5

  abbrev pub lost : String → String → ℕ → World × Option Reply
  lost contract_id tx_hash now =
      finish_deploy
        (record {
          call = req.call;
          outcome = instance_made contract_id tx_hash;
          commits = false;
          now = now;
        })
        (begin_deploy deps req w).0

  lost_eq :
      (contract_id tx_hash : String) (now : ℕ)
      → Accepted
      → lost contract_id tx_hash now ≡ (
        record w {
          ledger = (consume deps req w.ledger).1;
          chain = made_by (waiting_of req r args) contract_id ∷ w.chain;
        },
        some (fault req.admin),
      )
  unfolding finish_deploy take_waiting
  lost_eq contract_id tx_hash now h = rw (accepted_lem h, started_lem h, eq_refl req.call)

-- A deploy that passed the route's guards and the budget, whose instance is made while the write of
-- its record fails: the reply is that the deploy failed, or for an administrator the server's error,
-- no record changed, and there is one instance more for the policy. A further request for it that the budget allows on top of the first
-- passes as well and waits for another instance.
pub lost_instance :
    (deps : DeploymentDeps) (req again : DeployRequest) (w : World) (r : PolicyRecord)
    (args : ConstructorArgs) (contract_id tx_hash : String) (now : ℕ)
    → Accepted deps req w r args
    → again.id ≡ req.id
    → is_contract_address again.wallet ≡ true
    → (consume deps again (consume deps req w.ledger).1).0 ≡ true
    → (let after = lost deps req w r args contract_id tx_hash now in
        (after.1 ≡ some (fault req.admin))
        × (after.0.policies ≡ w.policies)
        × (made_for r.id after.0.chain ≡ 1 + made_for r.id w.chain)
        × ((begin_deploy deps again after.0).1 ≡ none))
lost_instance deps req again w r args contract_id tx_hash now h same valid paid =
    let eq = lost_eq deps req w r args contract_id tx_hash now h in
    let left : World = record w {
      ledger = (consume deps req w.ledger).1;
      chain = made_by (waiting_of req r args) contract_id ∷ w.chain;
    } in
    let found = subst (λ k. JsMap.get k w.policies ≡ some r) (sym same) h.2 in
    let accepted : Accepted deps again left r args = (h.0, valid, found, h.3, h.4, paid) in
    (
      ap (λ p. p.1) eq,
      ap (λ p. p.0.policies) eq,
      ap (λ p. made_for r.id p.0.chain) eq ∙ rw (eq_refl r.id) refl,
      ap (λ p. (begin_deploy deps again p.0).1) eq
          ∙ ap (λ p. p.1) (accepted_lem deps again left r args accepted)
          ∙ ap (λ p. p.1) (started_lem deps again left r args accepted),
    )
