-- ===== src/LifecycleService/Horizon/Pages.antt =====
-- services/lifecycle-service/src/horizon.ts: the loops over the pages.
use vellar_dapp.LifecycleService.Horizon.{
  HorizonBalance, HorizonOffer, HorizonAccount, Page, follow_pages, max_trustline_pages,
  fetch_all_balances, AccountPage, get_account,
}
use vellar_dapp.Prelude.{
  length, take, ℕ, zero, suc, String, ◌≡◌, refl, sym, ap, ◌∙◌, false, Option, none, some, List, [],
  ◌∷◌, ◌++◌, append-nil, append_assoc, str_eq, concat,
}

module _ {ℓ} {A : Type ℓ} (fetch_page : String → Option (Page A)) where
  -- The pages with records that Horizon serves from a URL on: the last has no link to a next, or
  -- links to a page without records.
  pub data Serves : String → List (List A) → Type ℓ where
    ends :
        (url : String) (link : Option String)
        → fetch_page url ≡ some (record { records = []; next = link })
        → Serves url []
    last :
        (url : String) (r : A) (rs : List A)
        → fetch_page url ≡ some (record { records = r ∷ rs; next = none })
        → Serves url ((r ∷ rs) ∷ [])
    linked :
        (url next : String) (r : A) (rs : List A) (pages : List (List A))
        → fetch_page url ≡ some (record { records = r ∷ rs; next = some next })
        → Serves next pages
        → Serves url ((r ∷ rs) ∷ pages)

  concat-last : (fuel : ℕ) (xs : List A) → xs ++ concat (take fuel []) ≡ xs
  concat-last zero xs = append-nil xs
  concat-last (suc fuel) xs = append-nil xs

  -- The loop gives the records of the first `fuel` pages, in order.
  pub follow_pages_lem :
      (fuel : ℕ) (url : String) (items : List A) (pages : List (List A))
      → Serves url pages
      → follow_pages fetch_page fuel url items ≡ some (items ++ concat (take fuel pages))
  unfolding follow_pages
  follow_pages_lem zero url items pages s = ap some (sym (append-nil items))
  follow_pages_lem (suc fuel) url items [] (ends _ link e) =
      rw (e, follow_pages) (ap some (sym (append-nil items)))
  follow_pages_lem (suc fuel) url items ([] ∷ pages) s = elim s [ ]
  follow_pages_lem (suc fuel) url items ((r ∷ rs) ∷ []) (last _ _ _ e) =
      rw (e, follow_pages) (ap (λ xs. some (items ++ xs)) (sym (concat-last fuel (r ∷ rs))))
  follow_pages_lem (suc fuel) url items ((r ∷ rs) ∷ pages) (linked _ next _ _ _ e s) =
      rw (e, follow_pages)
        (follow_pages_lem fuel next (items ++ r ∷ rs) pages s
          ∙ ap some (append_assoc items (r ∷ rs) (concat (take fuel pages))))

abbrev pub NextLinkServes :
    (String → Option (Page HorizonBalance)) → Option String → List (List HorizonBalance) → Type 0
NextLinkServes fetch_page none pages = pages ≡ []
NextLinkServes fetch_page (some url) pages = (str_eq url "" ≡ false) × Serves fetch_page url pages

fetch_all_balances_lem :
    (fetch_page : String → Option (Page HorizonBalance)) (initial : List HorizonBalance)
    (link : Option String) (pages : List (List HorizonBalance))
    → NextLinkServes fetch_page link pages
    → fetch_all_balances fetch_page max_trustline_pages initial link
      ≡ some (initial ++ concat (take 49 pages))
fetch_all_balances_lem fetch_page initial none pages h = rw h (ap some (sym (append-nil initial)))
fetch_all_balances_lem fetch_page initial (some url) pages (nonempty, s) =
    rw nonempty (follow_pages_lem fetch_page 49 url initial pages s)

-- The account that is read has the balances of its own page and of the first 49 pages of trustlines,
-- and the offers of the first 50 pages, and counts these offers. It is never marked as incomplete,
-- not even where further pages were left out.
pub get_account_lem :
    (balance_page : String → Option (Page HorizonBalance))
    (offer_page : String → Option (Page HorizonOffer)) (account_id offers_url : String)
    (page : AccountPage) (balances : List (List HorizonBalance)) (offers : List (List HorizonOffer))
    → NextLinkServes balance_page page.trustlines_link balances
    → Serves offer_page offers_url offers
    → (account : HorizonAccount) × (get_account balance_page offer_page account_id offers_url page
        ≡ some account)
      × (account.balances ≡ page.balances ++ concat (take 49 balances))
      × (account.offers ≡ concat (take 50 offers))
      × (account.open_offers ≡ length account.offers)
      × (account.pagination_incomplete ≡ false)
unfolding get_account
get_account_lem balance_page offer_page account_id offers_url page balances offers b o =
    let read_balances =
      fetch_all_balances_lem balance_page page.balances page.trustlines_link balances b in
    let read_offers = follow_pages_lem offer_page 50 offers_url [] offers o in
    (
      record {
        account_id = account_id;
        sequence = page.sequence;
        subentry_count = page.subentry_count;
        balances = page.balances ++ concat (take 49 balances);
        data_keys = page.data_keys;
        offers = concat (take 50 offers);
        open_offers = length (concat (take 50 offers));
        pagination_incomplete = false;
      },
      rw (read_balances, read_offers, get_account) refl,
      refl,
      refl,
      refl,
      refl,
    )
