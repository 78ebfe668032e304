-- ===== src/WorkerService/WasmCompare/Meta.antt =====
-- services/worker-service/src/wasm-compare.ts: the entries of a meta section are a partition of it.
use vellar_dapp.WorkerService.WasmCompare.{
  Bytes, Text, MetaEntry, get_uint32, padded, read_string, read_entry, read_entries,
  parse_meta_entries, raw_bytes,
}
use vellar_dapp.Prelude.{
  Option-cases, length, take, drop, length-drop, ℕ, zero, suc, ◌+◌, ◌-◌, ◌≡◌, refl, sym, ap, ◌∙◌,
  inl, inr, some, List, [], ◌∷◌, ◌++◌, arith,
}

abbrev pub IsSuffix : Bytes → Bytes → Type 0
IsSuffix rest bytes = (k : ℕ) × (rest ≡ drop k bytes)

drop-nil : (k : ℕ) → drop {A = ℕ} k [] ≡ []
drop-nil zero = refl
drop-nil (suc k) = refl

drop-drop : (j k : ℕ) (xs : Bytes) → drop j (drop k xs) ≡ drop (k + j) xs
drop-drop j zero xs = ap (λ n. drop n xs) (omega arith)
drop-drop j (suc k) [] = drop-nil j ∙ sym (drop-nil (suc k + j))
drop-drop j (suc k) (x ∷ xs) =
    drop-drop j k xs
    ∙ ap (λ n. drop n (x ∷ xs)) (let e : suc (k + j) ≡ suc k + j = omega arith in e)

IsSuffix-trans : (a b c : Bytes) → IsSuffix a b → IsSuffix b c → IsSuffix a c
IsSuffix-trans a b c (j, e) (k, f) = (k + j, e ∙ (rw f (drop-drop j k c)))

take-append-drop_rest :
    (k : ℕ) (xs : Bytes) → take (length xs - length (drop k xs)) xs ++ drop k xs ≡ xs
take-append-drop_rest zero xs = rw (let e : length xs - length xs ≡ 0 = omega arith in e) refl
take-append-drop_rest (suc k) [] = refl
take-append-drop_rest (suc k) (x ∷ xs) =
    rw
      (let e : suc (length xs) - length (drop k xs) ≡ suc (length xs - length (drop k xs)) =
          omega (arith, length-drop k xs) in
        e)
      (ap (λ ys. x ∷ ys) (take-append-drop_rest k xs))

pub get_uint32-IsSuffix :
    (bytes : Bytes) (v : ℕ) (rest : Bytes) → get_uint32 bytes ≡ some (v, rest) → IsSuffix rest bytes
get_uint32-IsSuffix [] v rest h = cc
get_uint32-IsSuffix (a ∷ []) v rest h = cc
get_uint32-IsSuffix (a ∷ b ∷ []) v rest h = cc
get_uint32-IsSuffix (a ∷ b ∷ c ∷ []) v rest h = cc
get_uint32-IsSuffix (a ∷ b ∷ c ∷ d ∷ r) v rest h = (4, cc)

pub read_string-IsSuffix :
    (bytes : Bytes) (s : Text) (rest : Bytes)
    → read_string bytes ≡ some (s, rest)
    → IsSuffix rest bytes
unfolding read_string
read_string-IsSuffix bytes s rest h = elim (Option-cases (get_uint32 bytes)) [
  | inl e ↦ absurd (ground (arith, e, h))
  | inr ((len, r), e) ↦
      IsSuffix-trans rest r bytes (padded len, ground (arith, e, h))
        (get_uint32-IsSuffix bytes len r e)
]

pub read_entry-parts :
    (bytes : Bytes) (e : MetaEntry) (rest : Bytes)
    → read_entry bytes ≡ some (e, rest)
    → e.raw ++ rest ≡ bytes
unfolding read_entry
read_entry-parts bytes e rest h = elim (Option-cases (get_uint32 bytes)) [
  | inl a ↦ absurd (ground (arith, a, h))
  | inr ((version, r1), a) ↦ elim (Option-cases (read_string r1)) [
    | inl b ↦ absurd (ground (arith, a, b, h))
    | inr ((key, r2), b) ↦ elim (Option-cases (read_string r2)) [
      | inl c ↦ absurd (ground (arith, a, b, c, h))
      | inr ((val, r3), c) ↦
          let (k, tail) =
            IsSuffix-trans r3 r1 bytes
              (IsSuffix-trans r3 r2 r1 (read_string-IsSuffix r2 val r3 c)
                (read_string-IsSuffix r1 key r2 b))
              (get_uint32-IsSuffix bytes version r1 a) in
          ground (arith, a, b, c, h, tail, take-append-drop_rest k bytes)
    ]
  ]
]

raw_bytes-read_entries :
    (fuel : ℕ) (content : Bytes) (entries : List MetaEntry)
    → read_entries fuel content ≡ some entries
    → raw_bytes entries ≡ content
unfolding read_entries
raw_bytes-read_entries fuel [] entries h = ground (arith, h)
raw_bytes-read_entries zero (b ∷ bytes) entries h = cc
raw_bytes-read_entries (suc fuel) (b ∷ bytes) entries h =
    elim (Option-cases (read_entry (b ∷ bytes))) [
      | inl e ↦ absurd (ground (arith, e, h))
      | inr ((entry, rest), e) ↦ elim (Option-cases (read_entries fuel rest)) [
        | inl f ↦ absurd (ground (arith, e, f, h))
        | inr (more, f) ↦ ground (
          arith,
          e,
          f,
          h,
          raw_bytes-read_entries fuel rest more f,
          read_entry-parts (b ∷ bytes) entry rest e,
        )
      ]
    ]

-- The entries of a section that is parsed are a partition of it: their bytes, put together in
-- order, are the section.
pub parse_meta_entries_partition :
    (content : Bytes) (entries : List MetaEntry)
    → parse_meta_entries content ≡ some entries
    → raw_bytes entries ≡ content
unfolding parse_meta_entries
parse_meta_entries_partition content entries =
    raw_bytes-read_entries (length content) content entries
