-- ===== src/WalletService/MergePlanner.antt =====
-- services/wallet-service/src/merge-planner.ts: what merging an account would move and leave behind.
-- A balance is read as a plain decimal.
pub mod Plan
mod Tests
use vellar_dapp.Prelude.{
  ◌==◌, if◌then◌else◌, length, zero, String, ◌<>◌, Bool, false, not, ◌||◌, Option, none, some, List,
  [], ◌∷◌, ◌++◌, str_eq, to_lower, is_positive,
}

pub record AccountBalanceInput : Type 0 where
  pub asset : String
  pub balance : String
  pub can_merge_automatically : Option Bool

pub data BlockerType : Type 0 where
  trustline_blocker balance_blocker : BlockerType

pub record MergePlanBlocker : Type 0 where
  pub blocker_type : BlockerType
  pub asset : String
  pub description : String
  pub action_required : String

pub data TrustlineAction : Type 0 where
  remove transfer : TrustlineAction

pub record TrustlineAffected : Type 0 where
  pub asset : String
  pub action : TrustlineAction
  pub balance : String

pub record AssetBalance : Type 0 where
  pub asset : String
  pub balance : String

-- What the loop collects.
pub record Collected : Type 0 where
  pub assets_moved : List AssetBalance
  pub trustlines_affected : List TrustlineAffected
  pub source_final : List AssetBalance
  pub destination_final : List AssetBalance
  pub blockers : List MergePlanBlocker

pub record MergePlan : Type 0 where
  pub source_contract_id : String
  pub destination_contract_id : String
  pub collected : Collected
  pub can_merge : Bool

abbrev pub is_native : AccountBalanceInput → Bool
is_native item = str_eq item.asset "native" || str_eq (to_lower item.asset) "xlm"

abbrev pub is_manual : AccountBalanceInput → Bool
is_manual item = elim item.can_merge_automatically [ none ↦ false | some b ↦ not b ]

abbrev pub of_item : AccountBalanceInput → String → AssetBalance
of_item item balance = record { asset = item.asset; balance = balance }

abbrev balance_blocker_of : AccountBalanceInput → MergePlanBlocker
balance_blocker_of item = record {
  blocker_type = balance_blocker;
  asset = item.asset;
  description = "Holds " <> (item.balance <> (" " <> item.asset));
  action_required =
      "Transfer or burn the " <> (item.asset <> " balance before removing its trustline");
}

abbrev trustline_blocker_of : AccountBalanceInput → MergePlanBlocker
trustline_blocker_of item = record {
  blocker_type = trustline_blocker;
  asset = item.asset;
  description = "Trustline to " <> (item.asset <> " requires manual action");
  action_required = "Remove the " <> (item.asset <> " trustline (requires zero balance)");
}

abbrev pub nothing_collected : Collected
nothing_collected = record {
  assets_moved = [];
  trustlines_affected = [];
  source_final = [];
  destination_final = [];
  blockers = [];
}

abbrev pub blockers_for : AccountBalanceInput → List MergePlanBlocker
blockers_for item =
    if is_positive item.balance
    then balance_blocker_of item ∷ trustline_blocker_of item ∷ []
    else trustline_blocker_of item ∷ []

-- One round of the loop.
abbrev native_item : AccountBalanceInput → Collected → Collected
native_item item c = record c {
  assets_moved =
      c.assets_moved ++ (if is_positive item.balance then of_item item item.balance ∷ [] else []);
  source_final = c.source_final ++ of_item item "0" ∷ [];
  destination_final = c.destination_final ++ of_item item item.balance ∷ [];
}

abbrev blocked_item : AccountBalanceInput → Collected → Collected
blocked_item item c = record c {
  trustlines_affected =
      c.trustlines_affected
      ++ (record { asset = item.asset; action = transfer; balance = item.balance }) ∷ [];
  source_final = c.source_final ++ of_item item item.balance ∷ [];
  blockers = c.blockers ++ blockers_for item;
}

abbrev removed_item : AccountBalanceInput → Collected → Collected
removed_item item c = record c {
  trustlines_affected =
      c.trustlines_affected ++ (record { asset = item.asset; action = remove; balance = "0" }) ∷ [];
  source_final = c.source_final ++ of_item item "0" ∷ [];
}

unfoldable pub plan_item : AccountBalanceInput → Collected → Collected
plan_item item c =
    if is_native item
    then native_item item c
    else if is_positive item.balance || is_manual item
    then blocked_item item c
    else removed_item item c

unfoldable pub plan_items : List AccountBalanceInput → Collected → Collected
unfolding plan_item
plan_items [] c = c
plan_items (item ∷ items) c = plan_items items (plan_item item c)

abbrev pub default_items : List AccountBalanceInput
default_items = (record { asset = "native"; balance = "100"; can_merge_automatically = none }) ∷ []

abbrev pub items_or_default : Option (List AccountBalanceInput) → List AccountBalanceInput
items_or_default none = default_items
items_or_default (some []) = default_items
items_or_default (some (i ∷ is)) = i ∷ is

unfoldable pub build_merge_plan : String → String → Option (List AccountBalanceInput) → MergePlan
unfolding plan_items
build_merge_plan source destination balances =
    let collected = plan_items (items_or_default balances) nothing_collected in
    record {
      source_contract_id = source;
      destination_contract_id = destination;
      collected = collected;
      can_merge = length collected.blockers == 0;
    }
