-- ===== src/PolicyService/Deployment/Spending.antt =====
-- services/policy-service/src/deployment.ts with packages/service-kit/src/pg-budget.ts: what the
-- budget's line "deploy" holds the instances to.
use vellar_dapp.ServiceKit.Budget.{
  deploy, BudgetNetwork, ConsumeRequest, LedgerRow, same_network, PgBudgetConfig, sum_count,
  try_consume, consume_all,
}
use vellar_dapp.ServiceKit.Budget.Window.{Fits, consume_all-Fits}
use vellar_dapp.PolicyService.Deployment.{
  PolicyRecord, Waiting, OnChain, World, DeploymentDeps, deploy_fee, DeployRequest, paid_at_of,
  log_stray, is_consumed, consume, start, DeployOutcome, instance_made, deploy_refused,
  deploy_broke, FinishRequest, take_waiting, settle, Step, begin, finish, attach, attach_answered,
  step, run,
}
use vellar_dapp.PolicyService.Deployment.Steps.{begin_lem, finish_lem, attach_lem, answer_lem}
use vellar_dapp.PolicyService.Templates.{ConstructorArgs}
use vellar_dapp.JsMap.{JsMap}
use vellar_dapp.Prelude.{
  ltb, if◌then◌else◌, Bool-cases, Option-cases, All, ℕ, ◌+◌, ◌≤◌, String, ◌≡◌, refl, subst, inl,
  inr, Bool, true, false, Option, none, some, List, [], ◌∷◌, arith, str_eq,
}

module _ (window t : ℕ) where
  -- 1 for a payment that the window which ends at `t` holds.
  abbrev pub in_time : Option ℕ → ℕ
  in_time none = 0
  in_time (some at) = if ltb t (at + window) then 1 else 0

  -- The instances, and the waiting deploys, whose payment the window that ends at `t` holds.
  abbrev pub paid_instances : List OnChain → ℕ
  paid_instances [] = 0
  paid_instances (x ∷ xs) = in_time x.paid_at + paid_instances xs

  abbrev pub paid_waiting : List (String × Waiting) → ℕ
  paid_waiting [] = 0
  paid_waiting ((c, x) ∷ xs) = in_time x.paid_at + paid_waiting xs

  abbrev Taken : List (String × Waiting) → Option (Waiting × List (String × Waiting)) → Type 0
  Taken xs none = Unit
  Taken xs (some (x, others)) = paid_waiting xs ≡ in_time x.paid_at + paid_waiting others

  take_waiting-Taken :
      (call : String) (xs : List (String × Waiting)) → Taken xs (take_waiting call xs)
  unfolding take_waiting
  take_waiting-Taken call [] = tt
  take_waiting-Taken call ((c, x) ∷ xs) = elim (Bool-cases (str_eq c call)) [
    | inl h ↦ rw h refl
    | inr h ↦ elim (Option-cases (take_waiting call xs)) [
      | inl e ↦ rw (h, e) tt
      | inr ((y, ys), e) ↦
          let held = subst (λ o. Taken xs o) e (take_waiting-Taken call xs) in
          rw (h, e) (omega (arith, held))
    ]
  ]

same_self : (n : BudgetNetwork) → same_network n n ≡ true
same_self n = ground arith

abbrev pub fresh : JsMap PolicyRecord → List LedgerRow → World
fresh policies ledger = record {
  policies = policies;
  ledger = ledger;
  waiting = [];
  attaching = [];
  chain = [];
}

module _ (config : PgBudgetConfig) (network : BudgetNetwork) (t : ℕ) where
  -- Every payment in the window is a row of the ledger, which is within its limits.
  abbrev IsPaid : World → Type 0
  IsPaid w =
      Fits config deploy network w.ledger t
      × (paid_instances config.window_ms t w.chain + paid_waiting config.window_ms t w.waiting
          ≤ sum_count config deploy network t w.ledger)

  -- A payment adds its row to the window's count; a refusal adds none.
  abbrev Counted : Option ℕ → List LedgerRow → Bool × List LedgerRow → Type 0
  Counted paid ledger p =
      Fits config deploy network p.1 t
      × ((if p.0 then in_time config.window_ms t paid else 0)
            + sum_count config deploy network t ledger
          ≤ sum_count config deploy network t p.1)

  abbrev InTime : Step → Type 0
  InTime (begin req) = req.now ≤ t
  InTime _ = Unit

  module _ (deps : DeploymentDeps) (funded : deps.budget ≡ some (config, network)) where
    abbrev payment : ConsumeRequest
    payment = record { line = deploy; network = network; stroops = deploy_fee; count = none }

    try_consume-IsPaid :
        (now at : ℕ) (ledger : List LedgerRow)
        → now ≤ t
        → Fits config deploy network ledger t
        → Fits config deploy network (try_consume config payment now at ledger).0 t
    unfolding consume_all
    try_consume-IsPaid now at ledger le fits =
        consume_all-Fits config deploy network t
          ((record { req = payment; now = now; at = at }) ∷ []) ledger (le, tt) fits

    try_consume-Counted :
        (req : DeployRequest) (ledger : List LedgerRow)
        → req.now ≤ t
        → Fits config deploy network ledger t
        → (let taken = try_consume config payment req.now req.at ledger in
            Counted (some req.at) ledger (is_consumed taken.1, taken.0))
    unfolding try_consume sum_count
    try_consume-Counted req ledger le fits =
        let after = try_consume-IsPaid req.now req.at ledger le fits in
        let own = same_self network in (after, ground (arith, own))

    unpaid :
        (req : DeployRequest) (ledger : List LedgerRow)
        → Fits config deploy network ledger t
        → Counted (some req.at) ledger (false, ledger)
    unpaid req ledger fits = (fits, omega arith)

    consume-Counted :
        (req : DeployRequest) (ledger : List LedgerRow)
        → req.now ≤ t
        → Fits config deploy network ledger t
        → Counted (paid_at_of req) ledger (consume deps req ledger)
    unfolding consume
    consume-Counted req ledger le fits = elim (Bool-cases req.admin) [
      | inl admin ↦ rw admin (fits, omega arith)
      | inr user ↦ elim (Bool-cases req.ledger_up) [
        | inl up ↦ rw (user, funded, up) (try_consume-Counted req ledger le fits)
        | inr down ↦ rw (user, funded, down) (unpaid req ledger fits)
      ]
    ]

    start-IsPaid :
        (req : DeployRequest) (r : PolicyRecord) (args : ConstructorArgs) (w : World)
        → req.now ≤ t
        → IsPaid w
        → IsPaid (start deps req r args w).0
    start-IsPaid req r args w le paid =
        let counted = consume-Counted req w.ledger le paid.0 in
        let before = paid.1 in
        elim (Bool-cases (consume deps req w.ledger).0) [
          | inl e ↦ let grown = counted.1 in rw e (counted.0, ground (arith, e, grown, before))
          | inr e ↦ let grown = counted.1 in rw e (counted.0, ground (arith, e, grown, before))
        ]

    log_stray-IsPaid :
        (stray : Option String) (x : Waiting) (others : List (String × Waiting)) (w : World)
        → Taken config.window_ms t w.waiting (some (x, others))
        → IsPaid w
        → IsPaid (log_stray x stray (record w { waiting = others }))
    log_stray-IsPaid none x others w taken paid =
        let le = paid.1 in (paid.0, ground (arith, le, taken))
    log_stray-IsPaid (some contract) x others w taken paid =
        let le = paid.1 in (paid.0, ground (arith, le, taken))

    settle-IsPaid :
        (req : FinishRequest) (o : DeployOutcome) (x : Waiting) (others : List (String × Waiting))
        (w : World)
        → Taken config.window_ms t w.waiting (some (x, others))
        → IsPaid w
        → IsPaid (settle req x o (record w { waiting = others })).0
    settle-IsPaid req (deploy_refused stray) x others w taken paid =
        log_stray-IsPaid stray x others w taken paid
    settle-IsPaid req (deploy_broke stray) x others w taken paid =
        log_stray-IsPaid stray x others w taken paid
    settle-IsPaid req (instance_made contract tx) x others w taken paid =
        let le = paid.1 in
        elim (Bool-cases req.commits) [
          | inl e ↦ rw e (paid.0, omega (arith, le, taken))
          | inr e ↦ rw e (paid.0, omega (arith, le, taken))
        ]

    step-IsPaid : (s : Step) (w : World) → InTime s → IsPaid w → IsPaid (step deps s w)
    unfolding step
    step-IsPaid (begin req) w le paid =
        begin_lem IsPaid deps w paid req (λ r args found bare. start-IsPaid req r args w le paid)
    step-IsPaid (finish req) w le paid = finish_lem IsPaid deps w paid req (λ x others e.
        settle-IsPaid req req.outcome x others w
          (subst (λ o. Taken config.window_ms t w.waiting o) e
            (take_waiting-Taken config.window_ms t req.call w.waiting))
          paid)
    step-IsPaid (attach req) w le paid = attach_lem IsPaid deps w paid req (λ r found. paid)
    step-IsPaid (attach_answered req) w le paid =
        answer_lem IsPaid deps w paid req (λ x others e. (paid, λ checked. paid))

    run-IsPaid : (ss : List Step) (w : World) → All InTime ss → IsPaid w → IsPaid (run deps ss w)
    unfolding run
    run-IsPaid [] w le paid = paid
    run-IsPaid (s ∷ ss) w le paid = run-IsPaid ss (step deps s w) le.1 (step-IsPaid s w le.0 paid)

  -- With a budget, for any steps of deploys and attaches, by users and by administrators, interleaved
  -- in any way, whose clocks do not pass `t`, from a ledger that fits at `t`: the instances that were
  -- made for users, those left by an error of the deployer included, and the users' deploys that
  -- still wait, as far as their payments lie in the window that ends at `t`, are together at most the
  -- count that the line "deploy" allows. Administrators' deploys are not paid for and not counted.
  pub run_within_budget :
      (deps : DeploymentDeps) (ss : List Step) (policies : JsMap PolicyRecord)
      (ledger : List LedgerRow)
      → deps.budget ≡ some (config, network)
      → All InTime ss
      → Fits config deploy network ledger t
      → (let w = run deps ss (fresh policies ledger) in
          paid_instances config.window_ms t w.chain + paid_waiting config.window_ms t w.waiting
          ≤ (config.limits deploy).max_count)
  run_within_budget deps ss policies ledger funded le fits =
      let paid = run-IsPaid deps funded ss (fresh policies ledger) le (fits, omega arith) in
      let rows = paid.1 in let most = paid.0.count_fits in omega (arith, rows, most)
