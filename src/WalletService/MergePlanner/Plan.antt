-- ===== src/WalletService/MergePlanner/Plan.antt =====
-- services/wallet-service/src/merge-planner.ts: when a merge is possible.
use vellar_dapp.WalletService.MergePlanner.{
  blockers_for, AccountBalanceInput, AssetBalance, Collected, is_native, is_manual, of_item,
  nothing_collected, plan_item, plan_items, items_or_default, build_merge_plan,
}
use vellar_dapp.Prelude.{
  if◌then◌else◌, Bool-cases, length, length-append, All, All-append, ℕ, ◌+◌, ◌≤◌, ◌<◌, String, ◌≡◌,
  refl, ap, ◌∙◌, ◌↔◌, ◌⊎◌, inl, inr, Bool, true, false, not, ◌||◌, Option, List, [], ◌∷◌, ◌++◌,
  arith, is_positive,
}

-- An item that leaves nothing behind: the native asset, or a trustline that is empty and not marked
-- as manual.
abbrev pub is_mergeable : AccountBalanceInput → Bool
is_mergeable item = is_native item || not (is_positive item.balance || is_manual item)

abbrev pub count_blocking : List AccountBalanceInput → ℕ
count_blocking [] = 0
count_blocking (i ∷ is) = (if is_mergeable i then 0 else 1) + count_blocking is

abbrev pub Emptied : AssetBalance → Type 0
Emptied b = b.balance ≡ "0"

plan_item-blockers :
    (item : AccountBalanceInput) (c : Collected)
    → (length (plan_item item c).source_final ≡ length c.source_final + 1)
      × (is_mergeable item ≡ true
          → ((plan_item item c).blockers ≡ c.blockers)
            × (All Emptied c.source_final → All Emptied (plan_item item c).source_final))
      × (is_mergeable item ≡ false → length c.blockers < length (plan_item item c).blockers)
unfolding plan_item
plan_item-blockers item c =
    let emptied : All Emptied c.source_final
        → All Emptied (c.source_final ++ of_item item "0" ∷ []) =
      λ h. All-append Emptied c.source_final (of_item item "0" ∷ []) h (refl, tt) in
    elim (Bool-cases (is_native item)) [
      | inl native ↦ rw native (
        length-append c.source_final (of_item item "0" ∷ []),
        λ e. (refl, emptied),
        λ e. absurd (cc),
      )
      | inr issued ↦ elim (Bool-cases (is_positive item.balance || is_manual item)) [
        | inl blocked ↦
            rw (issued, blocked)
              (
                length-append c.source_final (of_item item item.balance ∷ []),
                λ e. absurd (cc),
                λ e. ground (arith, length-append c.blockers (blockers_for item)),
              )
        | inr free ↦
            rw (issued, free)
              (
                length-append c.source_final (of_item item "0" ∷ []),
                λ e. (refl, emptied),
                λ e. absurd (cc),
              )
      ]
    ]

plan_items-blockers :
    (items : List AccountBalanceInput) (c : Collected)
    → (length (plan_items items c).source_final ≡ length c.source_final + length items)
      × (length c.blockers + count_blocking items ≤ length (plan_items items c).blockers)
      × (count_blocking items ≡ 0
          → ((plan_items items c).blockers ≡ c.blockers)
            × (All Emptied c.source_final → All Emptied (plan_items items c).source_final))
unfolding plan_items
plan_items-blockers [] c = (omega arith, omega arith, λ e. (refl, λ h. h))
plan_items-blockers (item ∷ items) c =
    let (count, free, blocked) = plan_item-blockers item c in
    let (counts, more, frees) = plan_items-blockers items (plan_item item c) in
    (
      omega arith,
      elim (Bool-cases (is_mergeable item)) [
        | inl m ↦ rw m (omega (arith, ap length (free m).0))
        | inr n ↦ rw n (omega (arith, blocked n))
      ],
      λ e. elim (Bool-cases (is_mergeable item)) [
        | inl m ↦
            let (same, emptied) = frees (ground (arith, m)) in
            (same ∙ (free m).0, λ h. emptied ((free m).1 h))
        | inr n ↦ absurd (ground arith)
      ],
    )

-- Every item is given a final balance at the source. The merge is possible exactly if no item is
-- blocking, that is, each is the native asset, or a trustline with no positive balance and not marked
-- as manual; and then every balance left at the source is "0".
pub build_merge_plan_lem :
    (source destination : String) (balances : Option (List AccountBalanceInput))
    → (length (build_merge_plan source destination balances).collected.source_final
        ≡ length (items_or_default balances))
      × (((build_merge_plan source destination balances).can_merge ≡ true)
          ↔ (count_blocking (items_or_default balances) ≡ 0))
      × (((build_merge_plan source destination balances).can_merge ≡ false)
          ⊎ All Emptied (build_merge_plan source destination balances).collected.source_final)
unfolding build_merge_plan
build_merge_plan_lem source destination balances =
    let (counts, more, frees) = plan_items-blockers (items_or_default balances) nothing_collected in
    let none_blocking : (build_merge_plan source destination balances).can_merge ≡ true
        → count_blocking (items_or_default balances) ≡ 0 =
      λ h. ground (arith, more) in
    (
      omega (arith, counts),
      (none_blocking, λ e. ground (arith, ap length (frees e).0)),
      elim (Bool-cases (build_merge_plan source destination balances).can_merge) [
        | inl yields ↦ inr ((frees (none_blocking yields)).1 tt)
        | inr refused ↦ inl refused
      ],
    )
