-- ===== src/JsMap.antt =====
-- JavaScript's `Map` with text keys: entries in the order of insertion; setting a key that is
-- there keeps its place.
use mathlib.Core.List.{Memᴰ}
use vellar_dapp.Prelude.{
  if◌then◌else◌, Bool-cases, All, String, ◌≡◌, refl, sym, subst, inl, inr, Option, none, some, List,
  [], ◌∷◌, ◌++◌, arith, str_eq, eq_iff, some_inj,
}

abbrev pub JsMap {ℓ} : Type ℓ → Type ℓ
JsMap V = List (String × V)

module _ {ℓ} {V : Type ℓ} where
  -- m.get(k)
  unfoldable pub get : String → JsMap V → Option V
  get k [] = none
  get k ((j, v) ∷ m) = if str_eq j k then some v else get k m

  -- m.set(k, v)
  unfoldable pub set : String → V → JsMap V → JsMap V
  set k v [] = (k, v) ∷ []
  set k v ((j, w) ∷ m) = if str_eq j k then (k, v) ∷ m else (j, w) ∷ set k v m

  -- m.delete(k)
  unfoldable pub delete : String → JsMap V → JsMap V
  delete k [] = []
  delete k ((j, w) ∷ m) = let rest = delete k m in if str_eq j k then rest else (j, w) ∷ rest

  -- [...m.values()]
  unfoldable pub values : JsMap V → List V
  values [] = []
  values ((j, w) ∷ m) = w ∷ values m

  pub get-set :
      (k j : String) (v : V) (m : JsMap V)
      → get j (set k v m) ≡ (if str_eq k j then some v else get j m)
  unfolding get set
  get-set k j v [] = refl
  get-set k j v ((i, w) ∷ m) = ground (arith, eq_iff k j, eq_iff i k, eq_iff i j, get-set k j v m)

  pub get-set_self : (k : String) (v : V) (m : JsMap V) → get k (set k v m) ≡ some v
  get-set_self k v m = ground (arith, get-set k k v m, eq_iff k k)

  pub get-delete :
      (k j : String) (m : JsMap V) → get j (delete k m) ≡ (if str_eq k j then none else get j m)
  unfolding get delete
  get-delete k j [] = ground arith
  get-delete k j ((i, w) ∷ m) = ground (arith, eq_iff k j, eq_iff i k, eq_iff i j, get-delete k j m)

  -- A new key goes to the end.
  pub set-eq-append :
      (k : String) (v : V) (m : JsMap V) → get k m ≡ none → set k v m ≡ m ++ (k, v) ∷ []
  unfolding get set
  set-eq-append k v [] h = refl
  set-eq-append k v ((i, w) ∷ m) h = ground (arith, set-eq-append k v m)

-- No key stands twice.
module _ {ℓ} {V : Type ℓ} where
  unfoldable pub Distinct : JsMap V → Type ℓ
  Distinct [] = Unit
  Distinct ((k, v) ∷ m) = (get k m ≡ none) × Distinct m

  pub set-Distinct : (k : String) (v : V) (m : JsMap V) → Distinct m → Distinct (set k v m)
  unfolding Distinct set get
  set-Distinct k v [] d = (refl, tt)
  set-Distinct k v ((j, w) ∷ m) (new, d) = elim (Bool-cases (str_eq j k)) [
    | inl same ↦ rw same (ground (arith, eq_iff j k), d)
    | inr other ↦
        rw other (ground (arith, eq_iff j k, eq_iff k j, get-set k j v m), set-Distinct k v m d)
  ]

  -- Every entry of `entries` is what `m` holds under its key.
  abbrev pub AllFound : JsMap V → JsMap V → Type ℓ
  AllFound m = All (λ (e : String × V). get e.0 m ≡ some e.1)

  AllFound-cons :
      (k : String) (v : V) (m entries : JsMap V)
      → get k m ≡ none
      → AllFound m entries
      → AllFound ((k, v) ∷ m) entries
  unfolding get
  AllFound-cons k v m [] new h = tt
  AllFound-cons k v m ((j, w) ∷ entries) new (found, h) =
      (ground (arith, eq_iff k j), AllFound-cons k v m entries new h)

  pub AllFound-self : (m : JsMap V) → Distinct m → AllFound m m
  unfolding Distinct get
  AllFound-self [] d = tt
  AllFound-self ((k, v) ∷ m) (new, d) =
      (ground (arith, eq_iff k k), AllFound-cons k v m m new (AllFound-self m d))

  -- What holds of every entry.

  pub get-Mem : (k : String) (v : V) (m : JsMap V) → get k m ≡ some v → Memᴰ v (values m)
  unfolding get values
  get-Mem k v [] found = absurd cc
  get-Mem k v ((j, w) ∷ m) found = elim (Bool-cases (str_eq j k)) [
    | inl e ↦ Memᴰ.head (sym (some_inj (rw (sym found, e))))
    | inr e ↦ Memᴰ.tail (get-Mem k v m (sym (rw (sym found, e))))
  ]

module _ {ℓ κ} {V : Type ℓ} where
  pub All-set :
      (Q : String × V → Type κ) (k : String) (v : V) (m : JsMap V)
      → All Q m
      → Q (k, v)
      → All Q (set k v m)
  unfolding set
  All-set Q k v [] h q = (q, tt)
  All-set Q k v ((j, w) ∷ m) h q = elim (Bool-cases (str_eq j k)) [
    | inl e ↦ rw e (q, h.1)
    | inr e ↦ rw e (h.0, All-set Q k v m h.1 q)
  ]

  pub All-get :
      (Q : String × V → Type κ) (k : String) (v : V) (m : JsMap V)
      → All Q m
      → get k m ≡ some v
      → Q (k, v)
  unfolding get
  All-get Q k v [] h found = absurd cc
  All-get Q k v ((j, w) ∷ m) h found = elim (Bool-cases (str_eq j k)) [
    | inl e ↦
        let value : w ≡ v = some_inj (rw (sym found, e)) in
        subst (λ s. Q (s, v)) ((eq_iff j k).0 e) (subst (λ u. Q (j, u)) value h.0)
    | inr e ↦ All-get Q k v m h.1 (sym (rw (sym found, e)))
  ]
