-- ===== src/PolicyService/Deployment/Settled.antt =====
-- services/policy-service/src/server.ts: a policy that has its instance keeps it, and no second
-- one is made.
use vellar_dapp.JsMap.{JsMap}
use vellar_dapp.JsMap
use vellar_dapp.PolicyService.Templates.{ConstructorArgs}
use vellar_dapp.PolicyService.Deployment.{
  PolicyInstance, PolicyRecord, Waiting, OnChain, World, DeploymentDeps, DeployRequest, consume,
  start, DeployOutcome, instance_made, deploy_refused, deploy_broke, FinishRequest, with_instance,
  instance_from, settle, log_stray, Attaching, AttachRequest, AttachAnswer, with_attach, Step,
  begin, finish, attach, attach_answered, step, run,
}
use vellar_dapp.PolicyService.Deployment.Steps.{
  Begun, Answered, take_waiting_all, begin_lem, finish_lem, attach_lem, answer_lem,
}
use vellar_dapp.Prelude.{
  if◌then◌else◌, Bool-cases, All, ℕ, ◌+◌, String, ◌≡◌, refl, sym, ◌∙◌, subst, inl, inr, true, false,
  Option, none, some, List, [], ◌∷◌, arith, str_eq, eq_iff,
}

-- Every record stands under its own id.
abbrev pub IsKeyed : JsMap PolicyRecord → Type 0
IsKeyed = All (λ (e : String × PolicyRecord). e.1.id ≡ e.0)

abbrev pub made_for : String → List OnChain → ℕ
made_for p [] = 0
made_for p (x ∷ xs) = (if str_eq x.policy_id p then 1 else 0) + made_for p xs

module _ (p : String) (i : PolicyInstance) (n : ℕ) where
  abbrev pub IsOther : Waiting → Type 0
  IsOther x = str_eq x.held.id p ≡ false

  abbrev pub IsSame : Attaching → Type 0
  IsSame x = str_eq x.held.id p ≡ true → x.held.instance_of ≡ some i

  abbrev Holds : Option PolicyRecord → Type 0
  Holds none = ⊥
  Holds (some r) = r.instance_of ≡ some i

  -- The record of `p` has the instance `i`, and so have the copies that attaches of `p` hold; no
  -- deploy of `p` waits, and `n` instances were made for it.
  abbrev pub IsSettled : World → Type 0
  IsSettled w =
      IsKeyed w.policies
      × Holds (JsMap.get p w.policies)
      × All (λ (e : String × Waiting). IsOther e.1) w.waiting
      × All (λ (e : String × Attaching). IsSame e.1) w.attaching
      × (made_for p w.chain ≡ n)

  -- A write under another id, or of a record with the same instance.
  set-Holds :
      (k : String) (r : PolicyRecord) (m : JsMap PolicyRecord)
      → Holds (JsMap.get p m)
      → (str_eq k p ≡ true → r.instance_of ≡ some i)
      → Holds (JsMap.get p (JsMap.set k r m))
  set-Holds k r m h same = elim (Bool-cases (str_eq k p)) [
    | inl e ↦ rw (JsMap.get-set k p r m, e) (same e)
    | inr e ↦ rw (JsMap.get-set k p r m, e) h
  ]

  start-IsSettled :
      (req : DeployRequest) (r : PolicyRecord) (args : ConstructorArgs) (deps : DeploymentDeps)
      (w : World)
      → IsSettled w
      → str_eq r.id p ≡ false
      → IsSettled (start deps req r args w).0
  start-IsSettled req r args deps w (keyed, held, idle, same, count) other =
      elim (Bool-cases (consume deps req w.ledger).0) [
        | inl e ↦ rw e (keyed, held, (other, idle), same, count)
        | inr e ↦ rw e (keyed, held, idle, same, count)
      ]

  -- A record with the id of `p` is the one that is stored under it.
  own_record :
      (k : String) (r : PolicyRecord) (m : JsMap PolicyRecord)
      → IsKeyed m
      → Holds (JsMap.get p m)
      → JsMap.get k m ≡ some r
      → str_eq r.id p ≡ true
      → r.instance_of ≡ some i
  own_record k r m keyed held found same =
      let key : r.id ≡ k = JsMap.All-get (λ e. e.1.id ≡ e.0) k r m keyed found in
      let here : k ≡ p = sym key ∙ (eq_iff r.id p).0 same in
      let at_p : JsMap.get p m ≡ some r = subst (λ q. JsMap.get q m ≡ some r) here found in
      subst (λ o. Holds o) at_p held

  -- A record found without an instance is not that of `p`.
  other_record :
      (k : String) (r : PolicyRecord) (m : JsMap PolicyRecord)
      → IsKeyed m
      → Holds (JsMap.get p m)
      → JsMap.get k m ≡ some r
      → r.instance_of ≡ none
      → str_eq r.id p ≡ false
  other_record k r m keyed held found bare = elim (Bool-cases (str_eq r.id p)) [
    | inl e ↦ let no : none ≡ some i = sym bare ∙ own_record k r m keyed held found e in absurd cc
    | inr e ↦ e
  ]

  log_stray-IsSettled :
      (x : Waiting) (stray : Option String) (w : World)
      → IsSettled w
      → str_eq x.held.id p ≡ false
      → IsSettled (log_stray x stray w)
  log_stray-IsSettled x none w h other = h
  log_stray-IsSettled x (some contract) w (keyed, held, idle, same, count) other =
      (keyed, held, idle, same, ground (arith, other, count))

  settle-IsSettled :
      (req : FinishRequest) (o : DeployOutcome) (x : Waiting) (w : World)
      → IsSettled w
      → str_eq x.held.id p ≡ false
      → IsSettled (settle req x o w).0
  settle-IsSettled req (deploy_refused stray) x w h other = log_stray-IsSettled x stray w h other
  settle-IsSettled req (deploy_broke stray) x w h other = log_stray-IsSettled x stray w h other
  settle-IsSettled req (instance_made contract tx) x w (keyed, held, idle, same, count) other =
      elim (Bool-cases req.commits) [
        | inl e ↦
            let updated = with_instance x.held (instance_from req x contract tx) in
            rw e (
              JsMap.All-set (λ e. e.1.id ≡ e.0) x.held.id updated w.policies keyed refl,
              set-Holds x.held.id updated w.policies held (λ own. absurd cc),
              idle,
              same,
              ground (arith, other, count),
            )
        | inr e ↦ rw e (keyed, held, idle, same, ground (arith, other, count))
      ]

  attach-IsSettled :
      (deps : DeploymentDeps) (req : AttachRequest) (r : PolicyRecord) (w : World)
      → IsSettled w
      → JsMap.get req.id w.policies ≡ some r
      → Begun IsSettled deps w req r
  attach-IsSettled deps req r w (keyed, held, idle, same, count) found =
      (keyed, held, idle, (own_record req.id r w.policies keyed held found, same), count)

  answer-IsSettled :
      (deps : DeploymentDeps) (req : AttachAnswer) (w : World)
      → IsSettled w
      → Answered IsSettled deps w req
  answer-IsSettled deps req w (keyed, held, idle, same, count) x others e =
      let (own, rest) = take_waiting_all IsSame req.call w.attaching x others e same in
      (
        (keyed, held, idle, rest, count),
        λ checked. (
          JsMap.All-set (λ e. e.1.id ≡ e.0) x.held.id (with_attach req x) w.policies keyed refl,
          set-Holds x.held.id (with_attach req x) w.policies held own,
          idle,
          rest,
          count,
        ),
      )

  step-IsSettled :
      (deps : DeploymentDeps) (s : Step) (w : World) → IsSettled w → IsSettled (step deps s w)
  unfolding step
  step-IsSettled deps (begin req) w h = begin_lem IsSettled deps w h req (λ r args found bare.
      start-IsSettled req r args deps w h (other_record req.id r w.policies h.0 h.1 found bare))
  step-IsSettled deps (finish req) w h = finish_lem IsSettled deps w h req (λ x others e.
      let rest = take_waiting_all IsOther req.call w.waiting x others e h.2 in
      settle-IsSettled req req.outcome x (record w { waiting = others })
        (h.0, h.1, rest.1, h.3, h.4) rest.0)
  step-IsSettled deps (attach req) w h =
      attach_lem IsSettled deps w h req (λ r found. attach-IsSettled deps req r w h found)
  step-IsSettled deps (attach_answered req) w h =
      answer_lem IsSettled deps w h req (answer-IsSettled deps req w h)

  -- A policy whose record has an instance, while no deploy of it waits and the attaches of it that
  -- wait hold copies with this instance: after any interleaved steps, by users and administrators,
  -- the same holds, so that its record has that very instance, and no further instance was made for
  -- it. Every record stands under its own id before and after.
  pub run-IsSettled :
      (deps : DeploymentDeps) (ss : List Step) (w : World) → IsSettled w → IsSettled (run deps ss w)
  unfolding run
  run-IsSettled deps [] w h = h
  run-IsSettled deps (s ∷ ss) w h =
      run-IsSettled deps ss (step deps s w) (step-IsSettled deps s w h)
