-- ===== src/PolicyService/PolicyList/Tests.antt =====
-- Three policies in pages of two, of which two share their time.
use mathlib.Core.List.{Perm}
use vellar_dapp.PolicyService.Deployment.{PolicyStatus, generated, deployed}
use vellar_dapp.PolicyService.PolicyList.{
  less, Listed, older, insert_newest, newest_first, PolicyListFilter, matches, matching, split_last,
  encode_policy_cursor, decode_policy_cursor, list_page,
}
use vellar_dapp.PolicyService.PolicyList.Order.{IsFalling}
use vellar_dapp.PolicyService.PolicyList.Walk.{walk, walk_lem}
use vellar_dapp.Prelude.{
  filter, String, ◌≡◌, refl, ap, ◌≢◌, true, false, ◌&&◌, none, some, List, [], ◌∷◌, arith, str_eq,
  eq_iff,
}

abbrev as_is : String → String
as_is s = s

abbrev listed : String → String → PolicyStatus → Listed
listed t id status = record { created_at = t; id = id; status = status }

abbrev records : List Listed
records =
    listed "10:01" "b" generated ∷ listed "10:00" "a" deployed ∷ listed "10:01" "c" generated ∷ []

abbrev all_records : PolicyListFilter
all_records = record { only_status = none; created_after = none; created_before = none }

first_page :
    (list_page as_is as_is records all_records 2 none
      ≡ some (record {
        policies = listed "10:01" "c" generated ∷ listed "10:01" "b" generated ∷ [];
        has_more = true;
        next_cursor = some "10:01:b";
      }))
    × (list_page as_is as_is records all_records 2 (some "10:01:b")
        ≡ some (record {
          policies = listed "10:00" "a" deployed ∷ [];
          has_more = false;
          next_cursor = none;
        }))
    × (list_page as_is as_is records all_records 2 (some "cursor") ≡ none)
unfolding list_page matching newest_first insert_newest older less encode_policy_cursor
    decode_policy_cursor split_last
first_page = (refl, refl, refl)

apart : (p q : String × String) → str_eq p.0 q.0 && str_eq p.1 q.1 ≡ false → p ≢ q
apart p q h e =
    let first = (eq_iff p.0 q.0).1 (ap (λ r. r.0) e) in
    let second = (eq_iff p.1 q.1).1 (ap (λ r. r.1) e) in absurd (ground (arith, first, second, h))

walk_lem_example :
    (walk as_is as_is records all_records 2 4 none ≡ some (matching all_records records))
    × Perm (matching all_records records) (filter (matches all_records) records)
    × IsFalling (matching all_records records)
walk_lem_example =
    walk_lem as_is as_is records all_records 2 4 (λ s. refl)
      ((apart _ _ refl, (apart _ _ refl, tt)), ((apart _ _ refl, tt), (tt, tt)))
      ((refl, refl, refl), ((refl, refl, refl), ((refl, refl, refl), tt))) (omega arith)
      (omega arith)
