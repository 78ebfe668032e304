-- ===== src/LifecycleService/Builder/Steps.antt =====
-- services/lifecycle-service/src/builder.ts: what the cleanup steps do.
use vellar_dapp.LifecycleService.Horizon.{HorizonBalance, HorizonOffer, HorizonAccount, is_native}
use vellar_dapp.LifecycleService.Planner.{
  ops_per_tx, CleanupPlan, planned, balance_ops, cleanup_ops, build_cleanup_plan,
}
use vellar_dapp.LifecycleService.Planner.Estimate.{build_cleanup_plan_lem}
use vellar_dapp.LifecycleService.Builder.{
  Asset, CleanupOp, CleanupStep, Sdk, to_asset, cancel_offer, cancel_offers, balance_cleanup,
  empty_balances, delete_data, collect_cleanup_ops, build_from, build_cleanup_steps,
}
use vellar_dapp.LifecycleService.Builder.Chunks.{IsSplit, build_from-IsSplit}
use vellar_dapp.Prelude.{
  ltb, if◌then◌else◌, Bool-cases, length, length-append, length-map, ℕ, suc, ◌+◌, ◌/◌, String, ◌≡◌,
  refl, ap, ◌∙◌, subst, ◌↔◌, inl, inr, true, Option, none, some, List, [], ◌∷◌, ◌++◌, map, arith,
  stroops,
}

-- If there are operations, there are `n`.
abbrev pub Counts : ℕ → Option (List CleanupOp) → Type 0
Counts n none = Unit
Counts n (some ops) = length ops ≡ n

cons-Counts :
    (o : Option CleanupOp) (rest : Option (List CleanupOp)) (n : ℕ)
    → Counts n rest
    → Counts
        (suc n)
        (elim o [ none ↦ none | some op ↦ elim rest [ none ↦ none | some ops ↦ some (op ∷ ops) ] ])
cons-Counts none rest n h = tt
cons-Counts (some op) none n h = tt
cons-Counts (some op) (some ops) n h = omega arith

cancel_offers-Counts : (os : List HorizonOffer) → Counts (length os) (cancel_offers os)
unfolding cancel_offers
cancel_offers-Counts [] = refl
cancel_offers-Counts (o ∷ os) =
    cons-Counts (cancel_offer o) (cancel_offers os) (length os) (cancel_offers-Counts os)

balance-Counts :
    (destination : String) (b : HorizonBalance) (asset : Option Asset)
    (rest : Option (List CleanupOp)) (n : ℕ)
    → Counts n rest
    → Counts (if ltb 0 (stroops b.balance) then 2 + n else 1 + n) (elim asset [
      | none ↦ none
      | some asset ↦ elim rest [
        | none ↦ none
        | some ops ↦ some (balance_cleanup destination b asset ++ ops)
      ]
    ])
balance-Counts destination b none rest n h = tt
balance-Counts destination b (some asset) none n h = tt
balance-Counts destination b (some asset) (some ops) n h = ground arith

empty_balances-Counts :
    (destination : String) (bs : List HorizonBalance)
    → Counts (balance_ops bs) (empty_balances destination bs)
unfolding empty_balances balance_ops
empty_balances-Counts destination [] = refl
empty_balances-Counts destination (b ∷ bs) = elim (Bool-cases (is_native b)) [
  | inl is_xlm ↦ rw is_xlm (empty_balances-Counts destination bs)
  | inr other ↦ rw other (
      balance-Counts destination b (to_asset b.asset_code b.asset_issuer)
        (empty_balances destination bs) (balance_ops bs) (empty_balances-Counts destination bs))
]

collect-Counts :
    (offers balances : Option (List CleanupOp)) (keys : List String) (m n : ℕ)
    → Counts m offers
    → Counts n balances
    → Counts (n + m + length keys) (elim offers [
      | none ↦ none
      | some os ↦ elim balances [
        | none ↦ none
        | some bs ↦ some (os ++ (bs ++ map delete_data keys))
      ]
    ])
collect-Counts none balances keys m n h k = tt
collect-Counts (some os) none keys m n h k = tt
collect-Counts (some os) (some bs) keys m n h k =
    length-append os (bs ++ map delete_data keys)
    ∙ (rw (length-append bs (map delete_data keys), length-map delete_data keys) (omega arith))

-- The operations that are collected are as many as the planner counts.
collect_cleanup_ops-Counts :
    (account : HorizonAccount) (destination : String)
    → account.open_offers ≡ length account.offers
    → Counts (cleanup_ops account) (collect_cleanup_ops account destination)
unfolding collect_cleanup_ops cleanup_ops
collect_cleanup_ops-Counts account destination h = rw h (
    collect-Counts (cancel_offers account.offers) (empty_balances destination account.balances)
      account.data_keys (length account.offers) (balance_ops account.balances)
      (cancel_offers-Counts account.offers) (empty_balances-Counts destination account.balances))

abbrev steps_from :
    Sdk → HorizonAccount → String → Option (List CleanupOp) → Option (List CleanupStep)
steps_from sdk account passphrase none = none
steps_from sdk account passphrase (some ops) = some (
    build_from sdk account.account_id passphrase (length ops) ((length ops + 99) / ops_per_tx) 1
      account.sequence ops)

steps_from-IsSplit :
    (sdk : Sdk) (account : HorizonAccount) (passphrase : String) (found : Option (List CleanupOp))
    (steps : List CleanupStep)
    → steps_from sdk account passphrase found ≡ some steps
    → (ops : List CleanupOp) × (found ≡ some ops)
      × IsSplit sdk account.account_id passphrase account.sequence ops steps
steps_from-IsSplit sdk account passphrase none steps h = absurd (cc)
steps_from-IsSplit sdk account passphrase (some ops) steps h =
    let built : build_from sdk account.account_id passphrase (length ops)
          ((length ops + 99) / ops_per_tx) 1 account.sequence ops
        ≡ steps =
      cc in
    (
      ops,
      refl,
      subst (λ s. IsSplit sdk account.account_id passphrase account.sequence ops s) built
          (build_from-IsSplit sdk account.account_id passphrase (length ops)
            ((length ops + 99) / ops_per_tx) 1 account.sequence ops (omega arith)),
    )

-- When the steps of an account are built, its operations are collected, and the steps are a split of
-- them into transactions of one to a hundred operations each, in order and with the sequence numbers
-- in a row; a step for every hundred operations begun.
pub build_cleanup_steps-IsSplit :
    (sdk : Sdk) (account : HorizonAccount) (destination passphrase : String)
    (steps : List CleanupStep)
    → build_cleanup_steps sdk account destination passphrase ≡ some steps
    → (ops : List CleanupOp) × (collect_cleanup_ops account destination ≡ some ops)
      × IsSplit sdk account.account_id passphrase account.sequence ops steps
unfolding build_cleanup_steps
build_cleanup_steps-IsSplit sdk account destination passphrase steps h =
    steps_from-IsSplit sdk account passphrase (collect_cleanup_ops account destination) steps h

no_steps : (steps : List CleanupStep) → length steps ≡ 0 → steps ≡ []
no_steps [] h = refl
no_steps (s ∷ ss) h = absurd (omega arith)

-- When the steps of an account are built and a plan is made, the plan's estimate is the number of
-- steps and one more, the merge; and the account is ready for the merge exactly if there is no step.
-- The account's number of open offers is that of its list, as the reader of accounts gives it.
pub estimate_exact :
    (sdk : Sdk) (account : HorizonAccount) (destination passphrase : String)
    (steps : List CleanupStep) (plan : CleanupPlan)
    → account.open_offers ≡ length account.offers
    → build_cleanup_steps sdk account destination passphrase ≡ some steps
    → build_cleanup_plan account destination ≡ planned plan
    → (plan.estimated_transactions ≡ length steps + 1) × ((plan.merge_ready ≡ true) ↔ (steps ≡ []))
estimate_exact sdk account destination passphrase steps plan offers built made =
    let (ops, collected, split) =
      build_cleanup_steps-IsSplit sdk account destination passphrase steps built in
    let counted : length ops ≡ cleanup_ops account =
      subst (λ o. Counts (cleanup_ops account) o) collected
        (collect_cleanup_ops-Counts account destination offers) in
    let (complete, funded, estimate, ready) =
      build_cleanup_plan_lem account destination plan made in
    (
      rw split.count (omega arith),
      (
        λ r. no_steps steps (split.count ∙ (ground arith)),
        λ e. ground (arith, ap length e, split.count),
      ),
    )
