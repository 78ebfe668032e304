-- ===== src/LifecycleService/Builder/Tests.antt =====
-- services/lifecycle-service/src/builder.ts: an account that can be cleaned up, and its steps.
use vellar_dapp.LifecycleService.Horizon.{HorizonBalance, HorizonAccount}
use vellar_dapp.LifecycleService.Planner.{
  CleanupPlan, build_cleanup_plan, blockers_of, calculate_spendable_balance, calculate_required_fee,
  cleanup_ops, balance_ops,
}
use vellar_dapp.LifecycleService.Builder.{
  CleanupOp, CleanupStep, Sdk, to_asset, cancel_offers, empty_balances, collect_cleanup_ops,
  make_step, build_from, build_cleanup_steps,
}
use vellar_dapp.LifecycleService.Builder.Chunks.{IsSplit}
use vellar_dapp.LifecycleService.Builder.Steps.{build_cleanup_steps-IsSplit, estimate_exact}
use vellar_dapp.LifecycleService.Builder.Resume.{
  MultiStepPlanTracking, StepConfirmation, unconfirmed_from, create_plan_tracking, resumed,
  confirmed_indices, resume_cleanup_plan,
}
use vellar_dapp.LifecycleService.Builder.Resume.Confirmed.{
  count_from, Resumes, resume_cleanup_plan-Resumes,
}
use vellar_dapp.LifecycleService.Builder.Resume.Unchanged.{resume_cleanup_plan_unchanged}
use vellar_dapp.Prelude.{
  ℕ, zero, suc, Bool, String, length, to_string, sort_by, ◌+◌, ◌<>◌, ◌≡◌, refl, ◌↔◌, true, false,
  Option, none, some, List, [], ◌∷◌, arith, stroops,
}

abbrev sdk : Sdk
sdk = record {
  to_xdr = λ id n ops pass. "tx" <> (id <> to_string n);
  hash = λ id n ops pass. "hash" <> (id <> to_string n);
  bumped = λ n. n + 1;
}

abbrev usd : HorizonBalance
usd = record {
  asset_type = "credit_alphanum4";
  asset_code = some "USD";
  asset_issuer = some "G1";
  balance = "2.0000000";
}

abbrev xlm : HorizonBalance
xlm = record {
  asset_type = "native";
  asset_code = none;
  asset_issuer = none;
  balance = "10.0000000";
}

abbrev account : HorizonAccount
account = record {
  account_id = "G0";
  sequence = 7;
  subentry_count = none;
  balances = usd ∷ xlm ∷ [];
  data_keys = "k" ∷ [];
  offers = [];
  open_offers = 0;
  pagination_incomplete = false;
}

abbrev steps_or_none : Option (List CleanupStep) → List CleanupStep
steps_or_none none = []
steps_or_none (some steps) = steps

abbrev steps : List CleanupStep
steps = steps_or_none (build_cleanup_steps sdk account "G9" "net")

abbrev plan : CleanupPlan
plan = record {
  account_id = "G0";
  destination = "G9";
  blockers = blockers_of account;
  estimated_transactions = 2;
  merge_ready = false;
}

build_cleanup_steps-IsSplit_example :
    (ops : List CleanupOp) × (collect_cleanup_ops account "G9" ≡ some ops)
    × IsSplit sdk "G0" "net" 7 ops steps
unfolding build_cleanup_steps collect_cleanup_ops cancel_offers empty_balances to_asset
build_cleanup_steps-IsSplit_example = build_cleanup_steps-IsSplit sdk account "G9" "net" steps refl

estimate_exact_example :
    (plan.estimated_transactions ≡ length steps + 1) × ((plan.merge_ready ≡ true) ↔ (steps ≡ []))
unfolding build_cleanup_steps collect_cleanup_ops cancel_offers empty_balances to_asset
    build_cleanup_plan calculate_spendable_balance calculate_required_fee cleanup_ops balance_ops
    stroops blockers_of to_string
estimate_exact_example = estimate_exact sdk account "G9" "net" steps plan refl refl refl

abbrev tracking : MultiStepPlanTracking
tracking = create_plan_tracking account "G9" steps 5

-- An account with more operations than one transaction holds, whose first step is confirmed.
abbrev keys : ℕ → List String
keys zero = []
keys (suc n) = "k" ∷ keys n

abbrev large : HorizonAccount
large = record account { data_keys = keys 99 }

abbrev large_steps : List CleanupStep
large_steps = steps_or_none (build_cleanup_steps sdk large "G9" "net")

abbrev confirmation : ℕ → Bool → StepConfirmation
confirmation n done = record { step_index = n; hash = "h"; confirmed = done; confirmed_at = none }

abbrev first_done : List StepConfirmation
first_done = confirmation 0 true ∷ confirmation 1 false ∷ []

resume_cleanup_plan_unchanged_example :
    resume_cleanup_plan sdk large "G9" "net"
      (record (create_plan_tracking large "G9" large_steps 5) { steps = first_done })
    ≡ resumed 1 large_steps (length large_steps)
unfolding build_cleanup_steps collect_cleanup_ops cancel_offers empty_balances to_asset
    unconfirmed_from confirmed_indices sort_by count_from build_from make_step stroops
resume_cleanup_plan_unchanged_example =
    resume_cleanup_plan_unchanged sdk large "G9" "net" large_steps 5 1 first_done refl refl
      (omega arith)

resume_cleanup_plan-Resumes_example :
    Resumes sdk account "G9" "net" (record tracking { steps = unconfirmed_from 0 steps }) 0 steps
unfolding build_cleanup_steps collect_cleanup_ops cancel_offers empty_balances to_asset
    unconfirmed_from confirmed_indices sort_by count_from build_from make_step stroops
resume_cleanup_plan-Resumes_example =
    resume_cleanup_plan-Resumes sdk account "G9" "net"
      (record tracking { steps = unconfirmed_from 0 steps }) 0 (length steps) steps
      (resume_cleanup_plan_unchanged sdk account "G9" "net" steps 5 0 (unconfirmed_from 0 steps)
        refl refl (omega arith))
