-- ===== src/PolicyService/PolicyList/Order.antt =====
-- services/policy-service/src/server.ts: the order of the list is strict and total, and sorting by
-- it gives a strictly falling list of the same policies.
use Prim.Native.Char.{code}
use mathlib.Core.List.{Perm}
use mathlib.Core.List.Perm
use text.Mathlib.TextEquality.{Char-path}
use vellar_dapp.PolicyService.PolicyList.{
  less, Listed, older, position, insert_newest, newest_first,
}
use vellar_dapp.Prelude.{
  Bool-cases, All, String, ◌≡◌, refl, sym, ap, ◌∙◌, subst, ◌≢◌, ◌⊎◌, inl, inr, true, false, List,
  [], ◌∷◌, arith, str_eq, eq_iff,
}

less_irrefl : (s : String) → less s s ≡ false
unfolding less
less_irrefl String.[] = refl
less_irrefl (String.◌∷◌ c s) = ground (arith, less_irrefl s)

less_trans : (s t u : String) → less s t ≡ true → less t u ≡ true → less s u ≡ true
unfolding less
less_trans String.[] String.[] u h k = absurd cc
less_trans String.[] (String.◌∷◌ d t) String.[] h k = absurd cc
less_trans String.[] (String.◌∷◌ d t) (String.◌∷◌ e u) h k = refl
less_trans (String.◌∷◌ c s) String.[] u h k = absurd cc
less_trans (String.◌∷◌ c s) (String.◌∷◌ d t) String.[] h k = absurd cc
less_trans (String.◌∷◌ c s) (String.◌∷◌ d t) (String.◌∷◌ e u) h k =
    ground (arith, h, k, less_trans s t u)

-- Of two different texts one is less.
less_total : (s t : String) → less s t ≡ false → less t s ≡ false → s ≡ t
unfolding less
less_total String.[] String.[] h k = refl
less_total String.[] (String.◌∷◌ d t) h k = absurd cc
less_total (String.◌∷◌ c s) String.[] h k = absurd cc
less_total (String.◌∷◌ c s) (String.◌∷◌ d t) h k =
    let same : code c ≡ code d = ground (arith, h, k) in
    let rest : s ≡ t = less_total s t (ground (arith, same, h)) (ground (arith, same, k)) in
    rw (Char-path c d same, rest) refl

pub older_irrefl : (a : String × String) → older a a ≡ false
unfolding older
older_irrefl a = ground (arith, less_irrefl a.0, less_irrefl a.1)

-- The first parts of `a` and `b` are the same, or they differ and decide.
older_cases :
    (a b : String × String)
    → older a b ≡ true
    → ((a.0 ≡ b.0) × (less a.1 b.1 ≡ true)) ⊎ (less a.0 b.0 ≡ true)
unfolding older
older_cases a b h = elim (Bool-cases (str_eq a.0 b.0)) [
  | inl e ↦ inl ((eq_iff a.0 b.0).0 e, ground (arith, e, h))
  | inr e ↦ inr (ground (arith, e, h))
]

older_first : (a b : String × String) → less a.0 b.0 ≡ true → older a b ≡ true
unfolding older
older_first a b h = elim (Bool-cases (str_eq a.0 b.0)) [
  | inl e ↦
      let no : less b.0 b.0 ≡ true = subst (λ s. less s b.0 ≡ true) ((eq_iff a.0 b.0).0 e) h in
      let never = less_irrefl b.0 in absurd (ground (arith, no, never))
  | inr e ↦ rw e h
]

older_second : (a b : String × String) → a.0 ≡ b.0 → less a.1 b.1 ≡ true → older a b ≡ true
unfolding older
older_second a b e h = rw ((eq_iff a.0 b.0).1 e) h

older_trans : (a b c : String × String) → older a b ≡ true → older b c ≡ true → older a c ≡ true
older_trans a b c h k = elim (older_cases a b h) [
  | inl (e, l) ↦ elim (older_cases b c k) [
    | inl (f, m) ↦ older_second a c (e ∙ f) (less_trans a.1 b.1 c.1 l m)
    | inr m ↦ older_first a c (subst (λ s. less s c.0 ≡ true) (sym e) m)
  ]
  | inr l ↦ elim (older_cases b c k) [
    | inl (f, m) ↦ older_first a c (subst (λ s. less a.0 s ≡ true) f l)
    | inr m ↦ older_first a c (less_trans a.0 b.0 c.0 l m)
  ]
]

pub older_asym : (a b : String × String) → older a b ≡ true → older b a ≡ false
older_asym a b h = elim (Bool-cases (older b a)) [
  | inl k ↦
      let around = older_trans a b a h k in
      let never = older_irrefl a in absurd (ground (arith, around, never))
  | inr k ↦ k
]

older_total : (a b : String × String) → a ≢ b → older a b ≡ false → older b a ≡ true
unfolding older
older_total a b ne h = elim (Bool-cases (str_eq a.0 b.0)) [
  | inl e ↦
      let first : a.0 ≡ b.0 = (eq_iff a.0 b.0).0 e in
      let second : less a.1 b.1 ≡ false = ground (arith, e, h) in
      elim (Bool-cases (less b.1 a.1)) [
        | inl l ↦ older_second b a (sym first) l
        | inr l ↦
            absurd
              (ne (ap (λ x. (x, a.1)) first ∙ ap (λ y. (b.0, y)) (less_total a.1 b.1 second l)))
      ]
  | inr e ↦
      let first : less a.0 b.0 ≡ false = ground (arith, e, h) in
      elim (Bool-cases (less b.0 a.0)) [
        | inl l ↦ older_first b a l
        | inr l ↦
            let same = (eq_iff a.0 b.0).1 (less_total a.0 b.0 first l) in
            absurd (ground (arith, same, e))
      ]
]

-- Strictly falling: each is newer than all that follow.
abbrev pub IsFalling : List Listed → Type 0
IsFalling [] = Unit
IsFalling (r ∷ rs) = All (λ s. older (position s) (position r) ≡ true) rs × IsFalling rs

-- No two stand at one position.
abbrev pub AreDistinct : List Listed → Type 0
AreDistinct [] = Unit
AreDistinct (r ∷ rs) = All (λ s. position r ≢ position s) rs × AreDistinct rs

All-older_trans :
    (r s : Listed) (rs : List Listed)
    → older (position s) (position r) ≡ true
    → All (λ t. older (position t) (position s) ≡ true) rs
    → All (λ t. older (position t) (position r) ≡ true) rs
All-older_trans r s [] h all = tt
All-older_trans r s (t ∷ ts) h all =
    (older_trans (position t) (position s) (position r) all.0 h, All-older_trans r s ts h all.1)

All-insert :
    (Q : Listed → Type 0) (r : Listed) (rs : List Listed)
    → Q r
    → All Q rs
    → All Q (insert_newest r rs)
unfolding insert_newest
All-insert Q r [] q h = (q, tt)
All-insert Q r (s ∷ ss) q h = elim (Bool-cases (older (position r) (position s))) [
  | inl e ↦ rw e (h.0, All-insert Q r ss q h.1)
  | inr e ↦ rw e (q, h)
]

insert_newest-IsFalling :
    (r : Listed) (rs : List Listed)
    → All (λ s. position r ≢ position s) rs
    → IsFalling rs
    → IsFalling (insert_newest r rs)
unfolding insert_newest
insert_newest-IsFalling r [] new h = (tt, tt)
insert_newest-IsFalling r (s ∷ ss) new h = elim (Bool-cases (older (position r) (position s))) [
  | inl e ↦ rw e (
    All-insert (λ t. older (position t) (position s) ≡ true) r ss e h.0,
    insert_newest-IsFalling r ss new.1 h.1,
  )
  | inr e ↦
      let newer = older_total (position r) (position s) new.0 e in
      rw e ((newer, All-older_trans r s ss newer h.0), h)
]

pub All-newest_first : (Q : Listed → Type 0) (rs : List Listed) → All Q rs → All Q (newest_first rs)
unfolding newest_first
All-newest_first Q [] h = tt
All-newest_first Q (r ∷ rs) h = All-insert Q r (newest_first rs) h.0 (All-newest_first Q rs h.1)

pub newest_first-IsFalling : (rs : List Listed) → AreDistinct rs → IsFalling (newest_first rs)
unfolding newest_first
newest_first-IsFalling [] h = tt
newest_first-IsFalling (r ∷ rs) h =
    insert_newest-IsFalling r (newest_first rs)
      (All-newest_first (λ s. position r ≢ position s) rs h.0) (newest_first-IsFalling rs h.1)

insert_newest-perm : (r : Listed) (rs : List Listed) → Perm (insert_newest r rs) (r ∷ rs)
unfolding insert_newest
insert_newest-perm r [] = Perm.refl _
insert_newest-perm r (s ∷ ss) = elim (Bool-cases (older (position r) (position s))) [
  | inl e ↦ rw e (Perm.trans (Perm.cons s (insert_newest-perm r ss)) (Perm.swap r s ss))
  | inr e ↦ rw e (Perm.refl _)
]

pub newest_first-perm : (rs : List Listed) → Perm (newest_first rs) rs
unfolding newest_first
newest_first-perm [] = Perm.refl _
newest_first-perm (r ∷ rs) =
    Perm.trans (insert_newest-perm r (newest_first rs)) (Perm.cons r (newest_first-perm rs))
