-- ===== src/WorkerService/WasmCompare/Fuel.antt =====
-- services/worker-service/src/wasm-compare.ts: the loops end before their fuel does.
use vellar_dapp.WorkerService.WasmCompare.{
  Bytes, Text, WasmParseError, Parse, parsed, failed, WasmSection, read_leb, read_u32_leb,
  read_section, read_sections, MetaEntry, get_uint32, read_string, read_entry, read_entries,
  parse_meta_entries,
}
use vellar_dapp.WorkerService.WasmCompare.Meta.{read_string-IsSuffix}
use vellar_dapp.Prelude.{
  Option-cases, length, drop, length-drop, ℕ, zero, suc, ◌+◌, ◌*◌, ◌%◌, ◌≤◌, ◌<◌, ◌≡◌, refl, ◌⊎◌,
  inl, inr, some, [], ◌∷◌, arith,
}

read_leb-shorter :
    (rounds scale result : ℕ) (bytes : Bytes) (v : ℕ) (next : Bytes)
    → read_leb rounds scale result bytes ≡ parsed (v, next)
    → length next < length bytes
unfolding read_leb
read_leb-shorter zero scale result bytes v next h = absurd (cc)
read_leb-shorter (suc rounds) scale result [] v next h = absurd (cc)
read_leb-shorter (suc rounds) scale result (b ∷ bytes) v next h =
    ground (arith, read_leb-shorter rounds (scale * 128) (result + b % 128 * scale) bytes v next)

drop_shorter : (n : ℕ) (bytes : Bytes) → length (drop n bytes) ≤ length bytes
drop_shorter n bytes = omega (arith, length-drop n bytes)

Parse-cases {ℓ} :
    {A : Type ℓ} (p : Parse A)
    → ((a : A) × (p ≡ parsed a)) ⊎ ((why : WasmParseError) × (p ≡ failed why))
Parse-cases (parsed a) = inl (a, refl)
Parse-cases (failed why) = inr (why, refl)

read_section-shorter :
    (id : ℕ) (bytes : Bytes) (s : WasmSection) (rest : Bytes)
    → read_section id bytes ≡ parsed (s, rest)
    → length rest < length bytes
unfolding read_section
read_section-shorter id bytes s rest h = elim (Parse-cases (read_u32_leb bytes)) [
  | inl ((size, start), e) ↦
      ground (arith, e, h, drop_shorter size start, read_leb-shorter 5 1 0 bytes size start e)
  | inr (why, e) ↦ absurd (ground (arith, e, h))
]

read_sections_agree :
    (f g : ℕ) (bytes : Bytes)
    → length bytes ≤ f
    → length bytes ≤ g
    → read_sections f bytes ≡ read_sections g bytes
unfolding read_sections
read_sections_agree f g [] hf hg = refl
read_sections_agree zero g (id ∷ bytes) hf hg = absurd (omega arith)
read_sections_agree (suc f) zero (id ∷ bytes) hf hg = absurd (omega arith)
read_sections_agree (suc f) (suc g) (id ∷ bytes) hf hg =
    elim (Parse-cases (read_section id bytes)) [
      | inl ((s, rest), e) ↦
          let shorter = read_section-shorter id bytes s rest e in
          rw (read_sections, e, read_sections_agree f g rest (omega arith) (omega arith)) refl
      | inr (why, e) ↦ rw (read_sections, e) refl
    ]

read_string-shorter :
    (bytes : Bytes) (s : Text) (rest : Bytes)
    → read_string bytes ≡ some (s, rest)
    → length rest ≤ length bytes
read_string-shorter bytes s rest h =
    let (k, tail) = read_string-IsSuffix bytes s rest h in rw tail (drop_shorter k bytes)

get_uint32-shorter :
    (bytes : Bytes) (v : ℕ) (rest : Bytes)
    → get_uint32 bytes ≡ some (v, rest)
    → length rest < length bytes
get_uint32-shorter [] v rest h = absurd (cc)
get_uint32-shorter (a ∷ []) v rest h = absurd (cc)
get_uint32-shorter (a ∷ b ∷ []) v rest h = absurd (cc)
get_uint32-shorter (a ∷ b ∷ c ∷ []) v rest h = absurd (cc)
get_uint32-shorter (a ∷ b ∷ c ∷ d ∷ r) v rest h = ground (arith, h)

read_entry-shorter :
    (bytes : Bytes) (e : MetaEntry) (rest : Bytes)
    → read_entry bytes ≡ some (e, rest)
    → length rest < length bytes
unfolding read_entry
read_entry-shorter bytes e rest h = elim (Option-cases (get_uint32 bytes)) [
  | inl a ↦ absurd (ground (arith, a, h))
  | inr ((version, r1), a) ↦ elim (Option-cases (read_string r1)) [
    | inl b ↦ absurd (ground (arith, a, b, h))
    | inr ((key, r2), b) ↦ elim (Option-cases (read_string r2)) [
      | inl c ↦ absurd (ground (arith, a, b, c, h))
      | inr ((val, r3), c) ↦ ground (
        arith,
        a,
        b,
        c,
        h,
        get_uint32-shorter bytes version r1 a,
        read_string-shorter r1 key r2 b,
        read_string-shorter r2 val r3 c,
      )
    ]
  ]
]

read_entries_agree :
    (f g : ℕ) (bytes : Bytes)
    → length bytes ≤ f
    → length bytes ≤ g
    → read_entries f bytes ≡ read_entries g bytes
unfolding read_entries
read_entries_agree f g [] hf hg = refl
read_entries_agree zero g (b ∷ bytes) hf hg = absurd (omega arith)
read_entries_agree (suc f) zero (b ∷ bytes) hf hg = absurd (omega arith)
read_entries_agree (suc f) (suc g) (b ∷ bytes) hf hg =
    elim (Option-cases (read_entry (b ∷ bytes))) [
      | inr ((e, rest), found) ↦
          let shorter = read_entry-shorter (b ∷ bytes) e rest found in
          rw (read_entries, found, read_entries_agree f g rest (omega arith) (omega arith)) refl
      | inl missing ↦ rw (read_entries, missing) refl
    ]

-- Both loops have fuel enough: with any fuel that is at least the number of bytes, each gives what
-- it gives with the number of bytes as its fuel.
pub loops_have_fuel :
    (fuel : ℕ) (bytes : Bytes)
    → length bytes ≤ fuel
    → (read_sections fuel bytes ≡ read_sections (length bytes) bytes)
      × (read_entries fuel bytes ≡ parse_meta_entries bytes)
unfolding parse_meta_entries
loops_have_fuel fuel bytes h = (
  read_sections_agree fuel (length bytes) bytes h (omega arith),
  read_entries_agree fuel (length bytes) bytes h (omega arith),
)
