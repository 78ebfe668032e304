-- ===== src/Prelude/Sort.antt =====
-- `[...xs].sort((a, b) => key(a) - key(b))`: a stable sort by a number.
use Prim.Native.Nat.{ℕ, ◌≤◌}
use mathlib.Core.Path.{◌≡◌, refl}
use mathlib.Core.Logic.{inl, inr}
use mathlib.Core.List.{List, [], ◌∷◌, Perm}
use mathlib.Core.List.Perm
use native.Mathlib.Omega.{arith}
use vellar_dapp.Prelude.Tests.{if◌then◌else◌, leb, Bool-cases}
use vellar_dapp.Prelude.Lists.{All}

module _ {ℓ} {A : Type ℓ} (key : A → ℕ) where
  unfoldable pub insert_by : A → List A → List A
  insert_by x [] = x ∷ []
  insert_by x (y ∷ ys) = if leb (key x) (key y) then x ∷ y ∷ ys else y ∷ insert_by x ys

  unfoldable pub sort_by : List A → List A
  unfolding insert_by
  sort_by [] = []
  sort_by (x ∷ xs) = insert_by x (sort_by xs)

  insert_by-perm : (x : A) (ys : List A) → Perm (insert_by x ys) (x ∷ ys)
  unfolding insert_by
  insert_by-perm x [] = Perm.refl _
  insert_by-perm x (y ∷ ys) = elim (Bool-cases (leb (key x) (key y))) [
    | inl first ↦ rw first (Perm.refl _)
    | inr later ↦ rw later (Perm.trans (Perm.cons y (insert_by-perm x ys)) (Perm.swap x y ys))
  ]

  pub sort_by-perm : (xs : List A) → Perm (sort_by xs) xs
  unfolding sort_by
  sort_by-perm [] = Perm.refl _
  sort_by-perm (x ∷ xs) = Perm.trans (insert_by-perm x (sort_by xs)) (Perm.cons x (sort_by-perm xs))

  -- Nothing in the list has a smaller key than the head of `ys`.
  abbrev pub HeadLeast : List A → List A → Type 0
  HeadLeast [] xs = Unit
  HeadLeast (y ∷ ys) xs = All (λ x. key y ≤ key x) xs

  All-le_of_le :
      (a b : A) (xs : List A)
      → key a ≤ key b
      → All (λ x. key b ≤ key x) xs
      → All (λ x. key a ≤ key x) xs
  All-le_of_le a b [] le h = tt
  All-le_of_le a b (x ∷ xs) le h = (omega arith, All-le_of_le a b xs le h.1)

  insert_by-HeadLeast :
      (x : A) (ys xs : List A)
      → HeadLeast ys xs
      → (ys ≡ [] → xs ≡ [])
      → HeadLeast (insert_by x ys) (x ∷ xs)
  unfolding insert_by
  insert_by-HeadLeast x [] xs h e = rw (e refl) (omega arith, tt)
  insert_by-HeadLeast x (y ∷ ys) xs h e = elim (Bool-cases (leb (key x) (key y))) [
    | inl first ↦ rw first (omega arith, All-le_of_le x y xs (ground arith) h)
    | inr later ↦ rw later (ground arith, h)
  ]

  sort_by-nil : (xs : List A) → sort_by xs ≡ [] → xs ≡ []
  unfolding sort_by
  sort_by-nil [] h = refl
  sort_by-nil (x ∷ xs) h = absurd (insert_by-ne-nil x (sort_by xs) h)
    where
      insert_by-ne-nil : (x : A) (ys : List A) → ¬ (insert_by x ys ≡ [])
      insert_by-ne-nil x [] e = cc
      insert_by-ne-nil x (y ∷ ys) e = ground arith

  pub sort_by-HeadLeast : (xs : List A) → HeadLeast (sort_by xs) xs
  unfolding sort_by
  sort_by-HeadLeast [] = tt
  sort_by-HeadLeast (x ∷ xs) =
      insert_by-HeadLeast x (sort_by xs) xs (sort_by-HeadLeast xs) (sort_by-nil xs)
