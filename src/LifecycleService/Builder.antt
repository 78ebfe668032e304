-- ===== src/LifecycleService/Builder.antt =====
-- services/lifecycle-service/src/builder.ts: the cleanup transactions. What the Stellar SDK computes
-- from a transaction (its envelope, its hash and the source's next sequence number) is a parameter;
-- an operation is the arguments the code gives the SDK. The date in `planId` and in the
-- confirmations is an argument. `Resume` follows a plan that is under way.
pub mod Chunks
pub mod Steps
pub mod Resume
mod Tests
use vellar_dapp.LifecycleService.Horizon.{
  HorizonBalance, HorizonOffer, HorizonAccount, is_native, Page, follow_pages, max_offer_pages,
  max_trustline_pages, fetch_all_balances, AccountPage, get_account,
}
use vellar_dapp.Prelude.{
  ltb, ◌==◌, if◌then◌else◌, length, take, drop, any, to_string, ℕ, zero, suc, ◌+◌, ◌/◌, String,
  ◌<>◌, Option, none, some, List, [], ◌∷◌, ◌++◌, map, str_eq, stroops,
}

abbrev pub ops_per_tx : ℕ
ops_per_tx = 100

pub data Asset : Type 0 where
  native : Asset
  issued : String → String → Asset

pub data Operation : Type 0 where
  manage_sell_offer : Asset → Asset → String → String → String → Operation
  payment : String → Asset → String → Operation
  change_trust : Asset → String → Operation
  manage_data : String → Operation
  account_merge : String → Operation

pub record CleanupOp : Type 0 where
  pub op : Operation
  pub action : String

pub record CleanupStep : Type 0 where
  pub title : String
  pub description : String
  pub xdr : String
  pub hash : String

-- What the SDK makes of the operations of one transaction, with the source account, its sequence
-- number and the network's passphrase.
pub record Sdk : Type 0 where
  pub to_xdr : String → ℕ → List Operation → String → String
  pub hash : String → ℕ → List Operation → String → String
  pub bumped : ℕ → ℕ

-- `!code || !issuer`; `none` is the error "Non-native asset is missing code or issuer".
abbrev pub nonempty : Option String → Option String
nonempty none = none
nonempty (some s) = if str_eq s "" then none else some s

unfoldable pub to_asset : Option String → Option String → Option Asset
to_asset code issuer = elim (nonempty code) [
  | none ↦ none
  | some c ↦ elim (nonempty issuer) [ none ↦ none | some i ↦ some (issued c i) ]
]

abbrev pub get_code : Asset → String
get_code native = "XLM"
get_code (issued code issuer) = code

unfoldable pub offer_asset : String → Option String → Option String → Option Asset
unfolding to_asset
offer_asset asset_type code issuer =
    if str_eq asset_type "native" then some native else to_asset code issuer

unfoldable pub cancel_offer : HorizonOffer → Option CleanupOp
unfolding offer_asset
cancel_offer o =
    elim (offer_asset o.selling_asset_type o.selling_asset_code o.selling_asset_issuer) [
      | none ↦ none
      | some selling ↦
          elim (offer_asset o.buying_asset_type o.buying_asset_code o.buying_asset_issuer) [
            | none ↦ none
            | some buying ↦ some (record {
              op = manage_sell_offer selling buying "0" o.price o.id;
              action = "cancel offer #" <> o.id;
            })
          ]
    ]

unfoldable pub cancel_offers : List HorizonOffer → Option (List CleanupOp)
unfolding cancel_offer
cancel_offers [] = some []
cancel_offers (o ∷ os) = elim (cancel_offer o) [
  | none ↦ none
  | some op ↦ elim (cancel_offers os) [ none ↦ none | some ops ↦ some (op ∷ ops) ]
]

abbrev pub pay_out : String → HorizonBalance → Asset → CleanupOp
pay_out destination b asset = record {
  op = payment destination asset b.balance;
  action = "send " <> (b.balance <> (" " <> (get_code asset <> " to the destination")));
}

abbrev pub remove_trustline : Asset → CleanupOp
remove_trustline asset = record {
  op = change_trust asset "0";
  action = "remove the " <> (get_code asset <> " trustline");
}

abbrev pub balance_cleanup : String → HorizonBalance → Asset → List CleanupOp
balance_cleanup destination b asset =
    if ltb 0 (stroops b.balance)
    then pay_out destination b asset ∷ remove_trustline asset ∷ []
    else remove_trustline asset ∷ []

unfoldable pub empty_balances : String → List HorizonBalance → Option (List CleanupOp)
unfolding to_asset
empty_balances destination [] = some []
empty_balances destination (b ∷ bs) =
    let rest = empty_balances destination bs in
    if is_native b then rest else elim (to_asset b.asset_code b.asset_issuer) [
      | none ↦ none
      | some asset ↦ elim rest [
        | none ↦ none
        | some ops ↦ some (balance_cleanup destination b asset ++ ops)
      ]
    ]

abbrev pub delete_data : String → CleanupOp
delete_data key = record { op = manage_data key; action = "delete data entry \"" <> (key <> "\"") }

unfoldable pub collect_cleanup_ops : HorizonAccount → String → Option (List CleanupOp)
unfolding cancel_offers empty_balances
collect_cleanup_ops account destination = elim (cancel_offers account.offers) [
  | none ↦ none
  | some offers ↦ elim (empty_balances destination account.balances) [
    | none ↦ none
    | some balances ↦ some (offers ++ (balances ++ map delete_data account.data_keys))
  ]
]

abbrev pub op_of : CleanupOp → Operation
op_of c = c.op

abbrev pub action_of : CleanupOp → String
action_of c = c.action

-- actions.join("; ")
join_actions : List String → String
join_actions [] = ""
join_actions (a ∷ []) = a
join_actions (a ∷ b ∷ rest) = a <> ("; " <> join_actions (b ∷ rest))

-- The titles and the transactions of the steps.
module _ (sdk : Sdk) (account_id : String) (passphrase : String) where
  unfoldable pub make_step : ℕ → ℕ → ℕ → List CleanupOp → CleanupStep
  unfolding join_actions
  make_step chunk_count part sequence chunk =
      let actions = join_actions (map action_of chunk) in
      let of_count = to_string part <> ("/" <> to_string chunk_count) in
      record {
        title =
            if chunk_count == 1
            then "Clean up the account"
            else "Clean up the account (" <> (of_count <> ")");
        description =
            (if chunk_count == 1
              then "One transaction that will: " <> (actions <> ".")
              else "Transaction "
                <> (to_string part
                    <> (" of "
                        <> (to_string chunk_count
                            <> (" — sign and submit in order. This one will: "
                                <> (actions <> "."))))))
            <> " Note: the destination must trust any asset being sent to it.";
        xdr = sdk.to_xdr account_id sequence (map op_of chunk) passphrase;
        hash = sdk.hash account_id sequence (map op_of chunk) passphrase;
      }

  -- The loop over the chunks, with the source's sequence number; the fuel is the number of operations.
  unfoldable pub build_from : ℕ → ℕ → ℕ → ℕ → List CleanupOp → List CleanupStep
  unfolding make_step
  build_from zero chunk_count part sequence ops = []
  build_from (suc fuel) chunk_count part sequence [] = []
  build_from (suc fuel) chunk_count part sequence (o ∷ ops) =
      make_step chunk_count part sequence (take ops_per_tx (o ∷ ops))
      ∷ build_from fuel chunk_count (part + 1) (sdk.bumped sequence) (drop ops_per_tx (o ∷ ops))

-- `none` is the error of `toAsset`.
unfoldable pub build_cleanup_steps :
    Sdk → HorizonAccount → String → String → Option (List CleanupStep)
unfolding collect_cleanup_ops build_from
build_cleanup_steps sdk account destination passphrase =
    elim (collect_cleanup_ops account destination) [
      | none ↦ none
      | some ops ↦ some (
          build_from sdk account.account_id passphrase (length ops) ((length ops + 99) / ops_per_tx)
            1 account.sequence ops)
    ]

unfoldable pub build_merge_step : Sdk → HorizonAccount → String → String → CleanupStep
build_merge_step sdk account destination passphrase = record {
  title = "Merge and close the account";
  description =
      "Closes "
      <> (account.account_id
          <> (" and sends its entire XLM balance to "
              <> (destination <> ". This cannot be undone.")));
  xdr = sdk.to_xdr account.account_id account.sequence (account_merge destination ∷ []) passphrase;
  hash = sdk.hash account.account_id account.sequence (account_merge destination ∷ []) passphrase;
}
