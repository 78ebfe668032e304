-- ===== src/PolicyService/Deployment/Steps.antt =====
-- Induction over the steps of Deployment: what must hold of a step's effect for a property to be
-- kept, with the guards that the routes passed.
use vellar_dapp.JsMap
use vellar_dapp.PolicyService.Templates.{ConstructorArgs}
use vellar_dapp.PolicyService.Templates.Schema.{is_contract_address}
use vellar_dapp.PolicyService.Attach.{AttachError, verify_attach_tx}
use vellar_dapp.PolicyService.Deployment.{
  PolicyInstance, PolicyRecord, Waiting, Attaching, World, DeploymentDeps,
  validate_policy_for_deployment, DeployRequest, consume, start, begin_with, begin_found,
  begin_deploy, FinishRequest, take_waiting, settle, finish_taken, finish_deploy, AttachRequest,
  attaching_of, attach_found, begin_attach, AttachAnswer, target_of, with_attach, record_attach,
  attach_verified, verify_and_record_attach, attach_taken, finish_attach,
}
use vellar_dapp.Prelude.{
  Bool-cases, String, ◌≡◌, refl, ap, ◌∙◌, inl, inr, Bool, true, false, not, ◌&&◌, ◌||◌, is_some,
  Option, none, some, List, [], ◌∷◌, All, Option-cases, subst, str_eq, Result, ok, err,
}

-- What an attach was checked against, where it was checked.
abbrev pub WasVerified : DeploymentDeps → AttachAnswer → Attaching → Type 0
WasVerified deps req x =
    x.checks ≡ true
    → (i : PolicyInstance) × (x.held.instance_of ≡ some i)
      × (verify_attach_tx deps.from_xdr (target_of i) (req.answers x.tx_hash) ≡ ok tt)

-- What holds of all that waits holds of what is taken and of the others.
module _ {A : Type 0} (P : A → Type 0) where
  abbrev AllWaiting : List (String × A) → Type 0
  AllWaiting = All (λ (e : String × A). P e.1)

  Remaining : Option (A × List (String × A)) → Type 0
  Remaining none = Unit
  Remaining (some (x, others)) = P x × AllWaiting others

  take_waiting-Remaining :
      (call : String) (xs : List (String × A)) → AllWaiting xs → Remaining (take_waiting call xs)
  unfolding take_waiting Remaining
  take_waiting-Remaining call [] h = tt
  take_waiting-Remaining call ((c, x) ∷ xs) h = elim (Bool-cases (str_eq c call)) [
    | inl e ↦ rw e h
    | inr e ↦ elim (Option-cases (take_waiting call xs)) [
      | inl f ↦ rw (e, f) tt
      | inr ((y, ys), f) ↦
          let rest = subst (λ o. Remaining o) f (take_waiting-Remaining call xs h.1) in
          rw (e, f) (rest.0, (h.0, rest.1))
    ]
  ]

  pub take_waiting_all :
      (call : String) (xs : List (String × A)) (x : A) (others : List (String × A))
      → take_waiting call xs ≡ some (x, others)
      → AllWaiting xs
      → P x × AllWaiting others
  unfolding Remaining
  take_waiting_all call xs x others e h =
      subst (λ o. Remaining o) e (take_waiting-Remaining call xs h)

-- What an attach and an answer must keep.
module _ {ℓ} (P : World → Type ℓ) (deps : DeploymentDeps) (w : World) where
  abbrev pub Begun : AttachRequest → PolicyRecord → Type ℓ
  Begun req r = P (record w { attaching = (req.call, attaching_of deps req r) ∷ w.attaching })

  module _ (req : AttachAnswer) (x : Attaching) (others : List (String × Attaching)) where
    abbrev Dropped : Type ℓ
    Dropped = P (record w { attaching = others })

    abbrev Attached : Type ℓ
    Attached = P (record w {
      attaching = others;
      policies = JsMap.set x.held.id (with_attach req x) w.policies;
    })

  abbrev pub Answered : AttachAnswer → Type ℓ
  Answered req =
      (x : Attaching) (others : List (String × Attaching))
      → take_waiting req.call w.attaching ≡ some (x, others)
      → Dropped req x others × (WasVerified deps req x → Attached req x others)

module _ {ℓ} (P : World → Type ℓ) (deps : DeploymentDeps) (w : World) (held : P w) where
  started :
      (req : DeployRequest)
      → ((r : PolicyRecord) (args : ConstructorArgs)
          → JsMap.get req.id w.policies ≡ some r
          → r.instance_of ≡ none
          → P (start deps req r args w).0)
      → (r : PolicyRecord) → JsMap.get req.id w.policies ≡ some r
      → (o : Option PolicyInstance) → r.instance_of ≡ o
      → (args : Option ConstructorArgs) → P (begin_with deps req r w o args).0
  started req next r found (some i) e args = held
  started req next r found none e none = held
  started req next r found none e (some args) = next r args found e

  found_begin :
      (req : DeployRequest)
      → ((r : PolicyRecord) (args : ConstructorArgs)
          → JsMap.get req.id w.policies ≡ some r
          → r.instance_of ≡ none
          → P (start deps req r args w).0)
      → (o : Option PolicyRecord) → JsMap.get req.id w.policies ≡ o
      → P (begin_found deps req w o).0
  found_begin req next none e = held
  found_begin req next (some r) e =
      started req next r e r.instance_of refl (validate_policy_for_deployment r)

  -- A deploy that begins finds a record without an instance.
  pub begin_lem :
      (req : DeployRequest)
      → ((r : PolicyRecord) (args : ConstructorArgs)
          → JsMap.get req.id w.policies ≡ some r
          → r.instance_of ≡ none
          → P (start deps req r args w).0)
      → P (begin_deploy deps req w).0
  unfolding begin_deploy
  begin_lem req next = elim (Bool-cases (not deps.has_deployer)) [
    | inl e ↦ rw e held
    | inr e ↦ elim (Bool-cases (not (is_contract_address req.wallet))) [
      | inl f ↦ rw (e, f) held
      | inr f ↦ rw (e, f) (found_begin req next (JsMap.get req.id w.policies) refl)
    ]
  ]

  finished :
      (req : FinishRequest) (o : Option (Waiting × List (String × Waiting)))
      → take_waiting req.call w.waiting ≡ o
      → ((x : Waiting) (others : List (String × Waiting))
          → take_waiting req.call w.waiting ≡ some (x, others)
          → P (settle req x req.outcome (record w { waiting = others })).0)
      → P (finish_taken req w o).0
  finished req none e next = held
  finished req (some (x, others)) e next = next x others e

  pub finish_lem :
      (req : FinishRequest)
      → ((x : Waiting) (others : List (String × Waiting))
          → take_waiting req.call w.waiting ≡ some (x, others)
          → P (settle req x req.outcome (record w { waiting = others })).0)
      → P (finish_deploy req w).0
  unfolding finish_deploy
  finish_lem req next = finished req (take_waiting req.call w.waiting) refl next

  found_attach :
      (req : AttachRequest) (o : Option PolicyRecord)
      → JsMap.get req.id w.policies ≡ o
      → ((r : PolicyRecord) → JsMap.get req.id w.policies ≡ some r → Begun P deps w req r)
      → P (attach_found deps req w o).0
  found_attach req none e next = held
  found_attach req (some r) e next =
      elim (Bool-cases (not req.admin && (deps.verifies && not (is_some r.instance_of)))) [
        | inl f ↦ rw f held
        | inr f ↦ rw f (next r e)
      ]

  pub attach_lem :
      (req : AttachRequest)
      → ((r : PolicyRecord) → JsMap.get req.id w.policies ≡ some r → Begun P deps w req r)
      → P (begin_attach deps req w).0
  unfolding begin_attach
  attach_lem req next = elim (Bool-cases (str_eq req.id "" || str_eq req.tx_hash "")) [
    | inl e ↦ rw e held
    | inr e ↦ rw e (found_attach req (JsMap.get req.id w.policies) refl next)
  ]

  module _ (req : AttachAnswer) (x : Attaching) (others : List (String × Attaching)) where
    recorded :
        (commits : Bool)
        → Dropped P deps w req x others
        → Attached P deps w req x others
        → P (record_attach commits (with_attach req x) (record w { attaching = others })).0
    recorded true dropped p = p
    recorded false dropped p = dropped

    verified :
        (v : Result AttachError (Unit {0}))
        → Dropped P deps w req x others
        → (v ≡ ok tt → Attached P deps w req x others)
        → P (attach_verified req x (record w { attaching = others }) v).0
    verified (err e) dropped next = dropped
    verified (ok u) dropped next = recorded req.commits dropped (next refl)

    checked :
        (v : Bool)
        → x.checks ≡ v
        → (o : Option PolicyInstance) → x.held.instance_of ≡ o
        → Dropped P deps w req x others
        → (WasVerified deps req x → Attached P deps w req x others)
        → P (verify_and_record_attach deps req x (record w { attaching = others }) v o).0
    checked false e o f dropped next = recorded req.commits dropped (next (λ on. absurd cc))
    checked true e none f dropped next = dropped
    checked true e (some i) f dropped next =
        verified (verify_attach_tx deps.from_xdr (target_of i) (req.answers x.tx_hash)) dropped
          (λ v. next (λ on. (i, f, v)))

  answered :
      (req : AttachAnswer) (o : Option (Attaching × List (String × Attaching)))
      → take_waiting req.call w.attaching ≡ o
      → Answered P deps w req
      → P (attach_taken deps req w o).0
  answered req none e next = held
  answered req (some (x, others)) e next =
      let (dropped, attached) = next x others e in
      checked req x others x.checks refl x.held.instance_of refl dropped attached

  -- An answer takes the attach that waits away, and its record is written if it was verified.
  pub answer_lem : (req : AttachAnswer) → Answered P deps w req → P (finish_attach deps req w).0
  unfolding finish_attach
  answer_lem req next = answered req (take_waiting req.call w.attaching) refl next

-- A request that passes the route's guards comes to the policy's arguments.
pub begin_valid :
    (deps : DeploymentDeps) (req : DeployRequest) (w : World) (r : PolicyRecord)
    → deps.has_deployer ≡ true
    → is_contract_address req.wallet ≡ true
    → JsMap.get req.id w.policies ≡ some r
    → r.instance_of ≡ none
    → begin_deploy deps req w ≡ begin_with deps req r w none (validate_policy_for_deployment r)
unfolding begin_deploy consume
begin_valid deps req w r a b c d =
    rw (a, b)
      (ap (λ o. begin_found deps req w o) c
        ∙ ap (λ o. begin_with deps req r w o (validate_policy_for_deployment r)) d)

-- With arguments it comes to the budget.
pub begin_start :
    (deps : DeploymentDeps) (req : DeployRequest) (w : World) (r : PolicyRecord)
    (args : ConstructorArgs)
    → deps.has_deployer ≡ true
    → is_contract_address req.wallet ≡ true
    → JsMap.get req.id w.policies ≡ some r
    → r.instance_of ≡ none
    → validate_policy_for_deployment r ≡ some args
    → begin_deploy deps req w ≡ start deps req r args w
begin_start deps req w r args a b c d e =
    begin_valid deps req w r a b c d ∙ ap (λ v. begin_with deps req r w none v) e
