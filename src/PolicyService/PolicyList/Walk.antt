-- ===== src/PolicyService/PolicyList/Walk.antt =====
-- services/policy-service/src/server.ts: following the cursors from page to page.
use Prim.Native.Char.{Char, code}
use Prim.Native.String.append
use mathlib.Core.List.{Perm}
use vellar_dapp.PolicyService.PolicyList.{
  Listed, older, position, insert_newest, newest_first, PolicyListFilter, matches, matching,
  split_last, last?, PolicyPage, encode_policy_cursor, decode_policy_cursor, page_of, page_after,
  list_page,
}
use vellar_dapp.PolicyService.PolicyList.Order.{
  older_irrefl, older_asym, IsFalling, AreDistinct, All-newest_first, newest_first-IsFalling,
  newest_first-perm,
}
use vellar_dapp.Prelude.{
  ltb, ◌==◌, Bool-cases, length, take, drop, filter, take-append-drop, length-drop,
  length-filter-le, All, ℕ, zero, suc, ◌≤◌, ◌<◌, String, ◌<>◌, ◌≡◌, refl, sym, ap, ◌∙◌, subst, ◌≢◌,
  inl, inr, Bool, true, false, not, ◌&&◌, Option, none, some, List, [], ◌∷◌, ◌++◌, append_assoc,
  arith, str_eq,
}

abbrev no_colon : String → Bool
no_colon String.[] = true
no_colon (String.◌∷◌ c s) = not (code c == 58) && no_colon s

abbrev colon : Char
colon = ":"

split_last-none : (s : String) → no_colon s ≡ true → split_last s ≡ none
unfolding split_last
split_last-none String.[] h = refl
split_last-none (String.◌∷◌ c s) h = ground (arith, h, split_last-none s)

split_last_lem : (s t : String) → no_colon t ≡ true → split_last (s <> (":" <> t)) ≡ some (s, t)
unfolding split_last
split_last_lem String.[] t h =
    ap (λ u. split_last u)
      (append.nil (":" <> t) ∙ append.cons colon "" t ∙ ap (λ u. String.◌∷◌ colon u) (append.nil t))
    ∙ rw (split_last-none t h) refl
split_last_lem (String.◌∷◌ c s) t h =
    ap (λ u. split_last u) (append.cons c s (":" <> t)) ∙ rw (split_last, split_last_lem s t h) refl

filter_all :
    (c : Listed) (rest : List Listed)
    → All (λ s. older (position s) (position c) ≡ true) rest
    → filter (λ r. older (position r) (position c)) rest ≡ rest
filter_all c [] h = refl
filter_all c (s ∷ ss) h = rw (h.0, filter_all c ss h.1) refl

All-middle :
    (Q : Listed → Type 0) (front : List Listed) (c : Listed) (rest : List Listed)
    → All Q (front ++ c ∷ rest)
    → Q c
All-middle Q [] c rest h = h.0
All-middle Q (x ∷ xs) c rest h = All-middle Q xs c rest h.1

-- The list without what is not older than `c`, where `c` stands in it.
filter-older :
    (c : Listed) (front rest : List Listed)
    → IsFalling (front ++ c ∷ rest)
    → filter (λ r. older (position r) (position c)) (front ++ c ∷ rest) ≡ rest
filter-older c [] rest h =
    let itself = older_irrefl (position c) in rw itself (filter_all c rest h.0)
filter-older c (x ∷ xs) rest h =
    let newer = All-middle (λ s. older (position s) (position x) ≡ true) xs c rest h.0 in
    let other = older_asym (position c) (position x) newer in rw other (filter-older c xs rest h.1)

-- A list that is not empty ends in its last element.
snoc :
    (r : Listed) (rs : List Listed)
    → (front : List Listed) × (end : Listed) × (r ∷ rs ≡ front ++ end ∷ [])
      × (last? (r ∷ rs) ≡ some end)
snoc r [] = ([], r, refl, refl)
snoc r (s ∷ ss) =
    let more = snoc s ss in (r ∷ more.0, more.1, ap (λ l. r ∷ l) more.2, rw more.3 refl)

-- A time and an id that a cursor keeps apart.
abbrev pub IsPlain : Listed → Type 0
IsPlain r = (str_eq r.created_at "" ≡ false) × (str_eq r.id "" ≡ false) × (no_colon r.id ≡ true)

module _ (encode64 decode64 : String → String) where
  abbrev append_rest : List Listed → Option (List Listed) → Option (List Listed)
  append_rest policies none = none
  append_rest policies (some rest) = some (policies ++ rest)

  abbrev then_walk :
      List Listed → (String → Option (List Listed)) → Option String → Option (List Listed)
  then_walk policies next none = some policies
  then_walk policies next (some cursor) = append_rest policies (next cursor)

  abbrev walked : (String → Option (List Listed)) → Option PolicyPage → Option (List Listed)
  walked next none = none
  walked next (some page) = then_walk page.policies next page.next_cursor

  -- A client that follows the cursors and puts the pages together.
  unfoldable pub walk :
      List Listed → PolicyListFilter → ℕ → ℕ → Option String → Option (List Listed)
  walk records f limit zero cursor = none
  walk records f limit (suc fuel) cursor =
      walked (λ c. walk records f limit fuel (some c))
        (list_page encode64 decode64 records f limit cursor)

  module _ (codec : (s : String) → decode64 (encode64 s) ≡ s) where
    -- A cursor is read back as the position that it was made from.
    pub decode-encode :
        (r : Listed)
        → IsPlain r
        → decode_policy_cursor encode64 decode64
            (encode_policy_cursor encode64 decode64 (position r))
          ≡ some (position r)
    unfolding decode_policy_cursor encode_policy_cursor
    decode-encode r (created, named, plain) =
        rw
          (
            codec (r.created_at <> (":" <> r.id)),
            split_last_lem r.created_at r.id plain,
            created,
            named,
          )
          refl

    module _ (records : List Listed) (f : PolicyListFilter) (m : ℕ)
        (falling : IsFalling (matching f records)) (plain : All IsPlain (matching f records)) where
      next_page :
          (c : Listed) (front rest : List Listed)
          → front ++ c ∷ rest ≡ matching f records
          → list_page encode64 decode64 records f
              (suc m)
              (some (encode_policy_cursor encode64 decode64 (position c)))
            ≡ some (page_of encode64 decode64 rest (suc m))
      unfolding list_page
      next_page c front rest e =
          let here = All-middle IsPlain front c rest (subst (λ l. All IsPlain l) (sym e) plain) in
          let order : IsFalling (front ++ c ∷ rest) = subst (λ l. IsFalling l) (sym e) falling in
          let remaining : filter (λ r. older (position r) (position c)) (matching f records)
              ≡ rest =
            rw (← e) (filter-older c front rest order) in
          ap (λ p. page_after encode64 decode64 (matching f records) (suc m) p)
            (decode-encode c here)
          ∙ ap (λ l. some (page_of encode64 decode64 l (suc m))) remaining

      walk_from :
          (fuel : ℕ) (cursor : Option String) (done ys : List Listed)
          → done ++ ys ≡ matching f records
          → list_page encode64 decode64 records f (suc m) cursor
            ≡ some (page_of encode64 decode64 ys (suc m))
          → length ys < fuel
          → walk records f (suc m) fuel cursor ≡ some ys
      unfolding walk
      walk_from zero cursor done ys e page enough = absurd (omega (arith, enough))
      walk_from (suc fuel) cursor done [] e page enough =
          let short : ltb (suc m) 0 ≡ false = ground arith in
          ap (λ o. walked (λ c. walk records f (suc m) fuel (some c)) o) page ∙ rw short refl
      walk_from (suc fuel) cursor done (y ∷ ys) e page enough =
          ap (λ o. walked (λ c. walk records f (suc m) fuel (some c)) o) page
          ∙ elim (Bool-cases (ltb (suc m) (length (y ∷ ys)))) [
            | inr last_page ↦ rw last_page refl
            | inl more ↦
                let cut = snoc y (take m ys) in
                let rest = drop m ys in
                let joined : (y ∷ take m ys) ++ rest ≡ y ∷ ys =
                  ap (λ l. y ∷ l) (take-append-drop m ys) in
                let whole : (done ++ cut.0) ++ cut.1 ∷ rest ≡ matching f records =
                  append_assoc done cut.0 (cut.1 ∷ rest)
                  ∙ ap (λ l. done ++ l)
                      (sym (append_assoc cut.0 (cut.1 ∷ []) rest)
                        ∙ ap (λ l. l ++ rest) (sym cut.2)
                        ∙ joined)
                  ∙ e in
                let again =
                  walk_from fuel (some (encode_policy_cursor encode64 decode64 (position cut.1)))
                    ((done ++ cut.0) ++ cut.1 ∷ []) rest
                    (append_assoc (done ++ cut.0) (cut.1 ∷ []) rest ∙ whole)
                    (next_page cut.1 (done ++ cut.0) rest whole)
                    (omega (arith, enough, length-drop m ys)) in
                rw (more, cut.3, again) (ap some joined)
          ]

All-filter :
    (Q : Listed → Type 0) (p : Listed → Bool) (rs : List Listed) → All Q rs → All Q (filter p rs)
All-filter Q p [] h = tt
All-filter Q p (r ∷ rs) h = elim (Bool-cases (p r)) [
  | inl e ↦ rw e (h.0, All-filter Q p rs h.1)
  | inr e ↦ rw e (All-filter Q p rs h.1)
]

filter-AreDistinct :
    (p : Listed → Bool) (rs : List Listed) → AreDistinct rs → AreDistinct (filter p rs)
filter-AreDistinct p [] h = tt
filter-AreDistinct p (r ∷ rs) h = elim (Bool-cases (p r)) [
  | inl e ↦ rw e (All-filter (λ s. position r ≢ position s) p rs h.0, filter-AreDistinct p rs h.1)
  | inr e ↦ rw e (filter-AreDistinct p rs h.1)
]

length-insert : (r : Listed) (rs : List Listed) → length (insert_newest r rs) ≡ suc (length rs)
unfolding insert_newest
length-insert r [] = refl
length-insert r (s ∷ ss) = ground (arith, length-insert r ss)

length-newest_first : (rs : List Listed) → length (newest_first rs) ≡ length rs
unfolding newest_first
length-newest_first [] = refl
length-newest_first (r ∷ rs) = length-insert r (newest_first rs) ∙ ap suc (length-newest_first rs)

-- For any coding of cursors that is undone by its decoding, records whose times and ids are not empty,
-- the ids without a colon, and no two of one time and id, that do not change meanwhile, and a limit
-- of at least one: following the cursors from the first page ends, without a malformed cursor, within one page more than there are
-- records, and the pages put together are the records that match the filter, each once, strictly
-- from the newest to the oldest.
pub walk_lem :
    (encode64 decode64 : String → String) (records : List Listed) (f : PolicyListFilter)
    (limit fuel : ℕ)
    → ((s : String) → decode64 (encode64 s) ≡ s)
    → AreDistinct records
    → All IsPlain records
    → 1 ≤ limit
    → length records < fuel
    → (walk encode64 decode64 records f limit fuel none ≡ some (matching f records))
      × Perm (matching f records) (filter (matches f) records)
      × IsFalling (matching f records)
unfolding matching list_page
walk_lem encode64 decode64 records f zero fuel codec distinct plain positive enough =
    absurd (omega (arith, positive))
walk_lem encode64 decode64 records f (suc m) fuel codec distinct plain positive enough =
    let found = filter (matches f) records in
    let falling = newest_first-IsFalling found (filter-AreDistinct (matches f) records distinct) in
    let all_plain = All-newest_first IsPlain found (All-filter IsPlain (matches f) records plain) in
    (
      walk_from encode64 decode64 codec records f m falling all_plain fuel none []
          (newest_first found) refl refl
          (omega (arith, enough, length-newest_first found, length-filter-le (matches f) records)),
      newest_first-perm found,
      falling,
    )
