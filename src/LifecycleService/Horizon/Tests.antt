-- ===== src/LifecycleService/Horizon/Tests.antt =====
-- services/lifecycle-service/src/horizon.ts: pages read.
use vellar_dapp.LifecycleService.Horizon.{
  HorizonBalance, HorizonOffer, HorizonAccount, Page, AccountPage, get_account,
}
use vellar_dapp.LifecycleService.Horizon.Pages.{Serves, last, linked, get_account_lem}
use vellar_dapp.Prelude.{
  if◌then◌else◌, length, take, String, ◌≡◌, refl, false, Option, none, some, [], ◌∷◌, ◌++◌, str_eq,
  concat,
}

abbrev usd : HorizonBalance
usd = record {
  asset_type = "credit_alphanum4";
  asset_code = some "USD";
  asset_issuer = some "G1";
  balance = "2.0000000";
}

abbrev offer : String → HorizonOffer
offer id = record {
  id = id;
  selling_asset_type = "native";
  selling_asset_code = none;
  selling_asset_issuer = none;
  buying_asset_type = "credit_alphanum4";
  buying_asset_code = some "USD";
  buying_asset_issuer = some "G1";
  price = "1.5";
}

abbrev account_page : AccountPage
account_page = record {
  sequence = 7;
  subentry_count = some 3;
  balances = usd ∷ [];
  data_keys = "k" ∷ [];
  trustlines_link = none;
}

abbrev balance_page : String → Option (Page HorizonBalance)
balance_page url = none

abbrev offer_page : String → Option (Page HorizonOffer)
offer_page url =
    if str_eq url "first"
    then some (record { records = offer "1" ∷ []; next = some "second" })
    else if str_eq url "second"
    then some (record { records = offer "2" ∷ []; next = none })
    else none

abbrev offers_served : Serves offer_page "first" ((offer "1" ∷ []) ∷ (offer "2" ∷ []) ∷ [])
offers_served =
    linked "first" "second" (offer "1") [] ((offer "2" ∷ []) ∷ []) refl
      (last "second" (offer "2") [] refl)

get_account_lem_example :
    (account : HorizonAccount) × (get_account balance_page offer_page "G0" "first" account_page
      ≡ some account)
    × (account.balances ≡ account_page.balances ++ concat (take 49 []))
    × (account.offers ≡ concat (take 50 ((offer "1" ∷ []) ∷ (offer "2" ∷ []) ∷ [])))
    × (account.open_offers ≡ length account.offers)
    × (account.pagination_incomplete ≡ false)
get_account_lem_example =
    get_account_lem balance_page offer_page "G0" "first" account_page []
      ((offer "1" ∷ []) ∷ (offer "2" ∷ []) ∷ []) refl offers_served
