-- ===== src/LifecycleService/Horizon.antt =====
-- services/lifecycle-service/src/horizon.ts: the account that the planner and the builder read, and
-- the loops that collect the pages of trustlines and offers. What one fetch gives is an argument.
-- A balance is the text of Horizon; `stroops` is the number that `Number(...)` reads in it, times
-- 10^7, without the rounding of floating point.
pub mod Pages
mod Tests
use vellar_dapp.Prelude.{
  if◌then◌else◌, length, ℕ, zero, suc, ◌-◌, String, Bool, false, Option, none, some, List, [], ◌∷◌,
  ◌++◌, str_eq,
}

pub record HorizonBalance : Type 0 where
  pub asset_type : String
  pub asset_code : Option String
  pub asset_issuer : Option String
  pub balance : String

pub record HorizonOffer : Type 0 where
  pub id : String
  pub selling_asset_type : String
  pub selling_asset_code : Option String
  pub selling_asset_issuer : Option String
  pub buying_asset_type : String
  pub buying_asset_code : Option String
  pub buying_asset_issuer : Option String
  pub price : String

pub record HorizonAccount : Type 0 where
  pub account_id : String
  pub sequence : ℕ
  pub subentry_count : Option ℕ
  pub balances : List HorizonBalance
  pub data_keys : List String
  pub offers : List HorizonOffer
  pub open_offers : ℕ
  pub pagination_incomplete : Bool

abbrev pub is_native : HorizonBalance → Bool
is_native b = str_eq b.asset_type "native"

-- A page: its records and the link to the next.
pub record Page {ℓ} (A : Type ℓ) : Type ℓ where
  pub records : List A
  pub next : Option String

module _ {ℓ} {A : Type ℓ} (fetch_page : String → Option (Page A)) where
  -- The loop of `fetchAllOffers`, and of `fetchAllBalances` with a page less: at most `fuel` pages.
  -- `none` is an error of a fetch or of a malformed page.
  unfoldable pub follow_pages : ℕ → String → List A → Option (List A)
  follow_pages zero url items = some items
  follow_pages (suc fuel) url items = elim (fetch_page url) [
    | none ↦ none
    | some page ↦ elim page.records [
      | [] ↦ some items
      | r ∷ rs ↦ elim page.next [
        | none ↦ some (items ++ r ∷ rs)
        | some next ↦ follow_pages fuel next (items ++ r ∷ rs)
      ]
    ]
  ]

abbrev pub max_offer_pages : ℕ
max_offer_pages = 50

abbrev pub max_trustline_pages : ℕ
max_trustline_pages = 50

-- An empty link is falsy.
abbrev pub fetch_all_balances :
    (String → Option (Page HorizonBalance))
    → ℕ
    → List HorizonBalance
    → Option String
    → Option (List HorizonBalance)
fetch_all_balances fetch_page max_pages initial none = some initial
fetch_all_balances fetch_page max_pages initial (some next) =
    if str_eq next "" then some initial else follow_pages fetch_page (max_pages - 1) next initial

-- The account's own page.
pub record AccountPage : Type 0 where
  pub sequence : ℕ
  pub subentry_count : Option ℕ
  pub balances : List HorizonBalance
  pub data_keys : List String
  pub trustlines_link : Option String

-- With the account found; the first page of offers has a URL of its own.
unfoldable pub get_account :
    (String → Option (Page HorizonBalance))
    → (String → Option (Page HorizonOffer))
    → String
    → String
    → AccountPage
    → Option HorizonAccount
unfolding follow_pages
get_account balance_page offer_page account_id offers_url page =
    elim (fetch_all_balances balance_page max_trustline_pages page.balances page.trustlines_link) [
      | none ↦ none
      | some balances ↦ elim (follow_pages offer_page max_offer_pages offers_url []) [
        | none ↦ none
        | some offers ↦ some (record {
          account_id = account_id;
          sequence = page.sequence;
          subentry_count = page.subentry_count;
          balances = balances;
          data_keys = page.data_keys;
          offers = offers;
          open_offers = length offers;
          pagination_incomplete = false;
        })
      ]
    ]
