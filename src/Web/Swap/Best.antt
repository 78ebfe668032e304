-- ===== src/Web/Swap/Best.antt =====
-- apps/web/lib/swap/client.ts: the quote that is chosen.
use vellar_dapp.Web.Swap.{RegisteredAsset, SwapQuote}
use vellar_dapp.Web.Swap.Client.{
  Fault, candidate_paths, Search, better, resolve_all, quote_on, search_paths, best_quote,
}
use vellar_dapp.Prelude.{
  ltb, Bool-cases, Option-cases, is_some, All, ℕ, ◌≤◌, String, ◌≡◌, refl, ap, ◌∙◌, ◌⊎◌, inl, inr,
  true, Option, none, some, List, [], ◌∷◌, arith, Result, ok, err, Result-cases,
}

better-cases :
    (best : Option SwapQuote) (q : SwapQuote) → (better best q ≡ q) ⊎ (best ≡ some (better best q))
better-cases none q = inl refl
better-cases (some best) q = elim (Bool-cases (ltb best.expected_out q.expected_out)) [
  | inl new ↦ inl (rw new refl)
  | inr old ↦ inr (rw old refl)
]

module _ (get_amounts_out : ℕ → List String → Result Fault (List (Option ℕ)))
    (read_at : List String → ℕ) (sell buy : RegisteredAsset) (amount_in : ℕ) where
  abbrev on : List String → Result Fault SwapQuote
  on = quote_on get_amounts_out read_at sell buy amount_in

  abbrev search : List (List String) → Search → Search
  search = search_paths get_amounts_out read_at sell buy amount_in

  -- `best` is at least as good as what any of the routes quotes.
  abbrev pub IsBest : SwapQuote → List (List String) → Type 0
  IsBest best = All (λ path.
      (quote : SwapQuote)
      → quote_on get_amounts_out read_at sell buy amount_in path ≡ ok quote
      → quote.expected_out ≤ best.expected_out)

  -- `quote` was found on one of the routes.
  abbrev pub Found : SwapQuote → List (List String) → Type 0
  Found quote [] = ⊥
  Found quote (path ∷ paths) =
      (quote_on get_amounts_out read_at sell buy amount_in path ≡ ok quote) ⊎ Found quote paths

  -- The search after one route.
  abbrev next : List String → Search → Search
  next path s = elim (on path) [
    | ok quote ↦ record s { best = some (better s.best quote) }
    | err e ↦ record s { last_error = some e }
  ]

  -- The search keeps a best quote at least as good as the one it starts with.
  search-ge :
      (paths : List (List String)) (s : Search) (q : SwapQuote)
      → s.best ≡ some q
      → (q' : SwapQuote) × ((search paths s).best ≡ some q') × (q.expected_out ≤ q'.expected_out)
  unfolding search_paths
  search-ge [] s q h = (q, h, omega arith)
  search-ge (path ∷ paths) s q h = elim (Result-cases (on path)) [
    | inr (e, a) ↦ rw (search_paths, a) (search-ge paths (record s { last_error = some e }) q h)
    | inl (quote, a) ↦
        let (q', found, le) =
          search-ge paths (record s { best = some (better s.best quote) }) (better s.best quote)
            refl in
        rw (search_paths, a) (q', found, ground (arith, le, h))
  ]

  better-ge :
      (best : Option SwapQuote) (q : SwapQuote) → q.expected_out ≤ (better best q).expected_out
  better-ge none q = omega arith
  better-ge (some best) q = ground arith

  head-best :
      (path : List String) (paths : List (List String)) (s : Search) (q quote : SwapQuote)
      → (search paths (next path s)).best ≡ some q
      → on path ≡ ok quote
      → quote.expected_out ≤ q.expected_out
  head-best path paths s q quote h e =
      let (q', found, le) =
        search-ge paths (record s { best = some (better s.best quote) }) (better s.best quote)
          refl in
      let after : (search paths (record s { best = some (better s.best quote) })).best ≡ some q =
        rw (next, e) at h in
      ground (arith, found, after, le, better-ge s.best quote)

  search-IsBest :
      (paths : List (List String)) (s : Search) (q : SwapQuote)
      → (search paths s).best ≡ some q
      → IsBest q paths
  unfolding search_paths
  search-IsBest [] s q h = tt
  search-IsBest (path ∷ paths) s q h =
      (λ quote e. head-best path paths s q quote h e, search-IsBest paths (next path s) q h)

  search-Found :
      (paths : List (List String)) (s : Search) (q : SwapQuote)
      → (search paths s).best ≡ some q
      → (s.best ≡ some q) ⊎ Found q paths
  unfolding search_paths
  search-Found [] s q h = inl h
  search-Found (path ∷ paths) s q h = elim (search-Found paths (next path s) q h) [
    | inr later ↦ inr (inr later)
    | inl here ↦ elim (Result-cases (on path)) [
      | inr (e, a) ↦ inl (rw (next, a) at here)
      | inl (quote, a) ↦ elim (better-cases s.best quote) [
        | inl new ↦ inr (
            inl (
              a
              ∙ ap ok (
                  ground (
                    arith,
                    new,
                    let r : some (better s.best quote) ≡ some q = rw (next, a) at here in r,
                  ))))
        | inr old ↦ inl (old ∙ (rw (next, a) at here))
      ]
    ]
  ]

  -- The quote that is given was found on one of the candidate routes, all of whose assets are
  -- registered, and no candidate route quotes a larger output.
  pub best_quote-IsBest :
      (xlm : String) (resolve : String → Option RegisteredAsset) (q : SwapQuote)
      → best_quote get_amounts_out read_at sell buy amount_in xlm resolve ≡ ok q
      → Found q (candidate_paths sell buy xlm)
        × IsBest q (candidate_paths sell buy xlm)
        × (is_some (resolve_all resolve q.path) ≡ true)
  unfolding best_quote
  best_quote-IsBest xlm resolve q h =
      let paths = candidate_paths sell buy xlm in
      let start : Search = record { best = none; last_error = none } in
      elim (Option-cases (search paths start).best) [
        | inl a ↦ absurd (ground (arith, a, h))
        | inr (quote, a) ↦ elim (Option-cases (resolve_all resolve quote.path)) [
          | inl b ↦ absurd (ground (arith, a, b, h))
          | inr (route, b) ↦
              let same : quote ≡ q = ground (arith, a, b, h) in
              let chosen : (search paths start).best ≡ some q = a ∙ ap some same in
              (
                elim (search-Found paths start q chosen) [
                  | inl nothing ↦ absurd (cc)
                  | inr found ↦ found
                ],
                search-IsBest paths start q chosen,
                ground (arith, b, same),
              )
        ]
      ]
