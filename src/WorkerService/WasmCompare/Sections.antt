-- ===== src/WorkerService/WasmCompare/Sections.antt =====
-- services/worker-service/src/wasm-compare.ts: parsing what an encoder wrote.
use native.Mathlib.Nat.{div-add-mod}
use vellar_dapp.WorkerService.WasmCompare.Utf8.{decode}
use vellar_dapp.WorkerService.WasmCompare.{
  Bytes, Text, parsed, WasmSection, read_leb, read_u32_leb, custom_section, read_section,
  read_sections, header, parse_wasm_sections,
}
use vellar_dapp.WorkerService.WasmCompare.Verdict.{bytes_equal_self}
use vellar_dapp.Prelude.{
  ltb, ◌==◌, if◌then◌else◌, Bool-cases, length, take, drop, length-append, All, ℕ, zero, suc, ◌+◌,
  ◌-◌, ◌*◌, ◌/◌, ◌%◌, ◌^◌, ◌≤◌, ◌<◌, ◌≡◌, refl, ap, ◌∙◌, ◌≢◌, inl, inr, false, none, some, List, [],
  ◌∷◌, ◌++◌, map, append_assoc, arith,
}

-- The shortest LEB128 form of a number below 128 ^ (k + 1).
unfoldable pub leb : ℕ → ℕ → Bytes
leb zero n = n ∷ []
leb (suc k) n = let rest = leb k (n / 128) in if ltb n 128 then n ∷ [] else (n % 128 + 128) ∷ rest

low_group : (n : ℕ) → (n % 128 + 128) % 128 ≡ n % 128
low_group n = omega arith

groups :
    (n scale result : ℕ) → result + n % 128 * scale + n / 128 * (scale * 128) ≡ result + n * scale
groups n scale result = grind (arith, ap (λ (t : ℕ). t * scale) (div-add-mod n 128))

read_leb-leb :
    (k n scale result : ℕ) (next : Bytes)
    → n < 16 * 128 ^ k
    → read_leb (suc k) scale result (leb k n ++ next) ≡ parsed (result + n * scale, next)
unfolding read_leb leb
read_leb-leb zero n scale result next h = rw (let e : n % 128 ≡ n = omega arith in e) (ground arith)
read_leb-leb (suc k) n scale result next h = elim (Bool-cases (ltb n 128)) [
  | inl small ↦ rw (small, let e : n % 128 ≡ n = ground arith in e) (ground (arith, small))
  | inr large ↦
      rw (large, let e : ltb (n % 128 + 128) 128 ≡ false = ground arith in e)
        (ap (λ g. read_leb (suc k) (scale * 128) (result + g * scale) (leb k (n / 128) ++ next))
            (low_group n)
          ∙ read_leb-leb k (n / 128) (scale * 128) (result + n % 128 * scale) next (ground arith)
          ∙ ap (λ v. parsed (v, next)) (groups n scale result))
]

abbrev pub u32_leb : ℕ → Bytes
u32_leb n = leb 4 n

pub read_u32_leb_lem :
    (n : ℕ) (next : Bytes) → n < 4294967296 → read_u32_leb (u32_leb n ++ next) ≡ parsed (n, next)
read_u32_leb_lem n next h =
    read_leb-leb 4 n 1 0 next (omega arith) ∙ ap (λ v. parsed (v, next)) (omega arith)

take-append {ℓ} : {A : Type ℓ} (xs ys : List A) → take (length xs) (xs ++ ys) ≡ xs
take-append [] ys = refl
take-append (x ∷ xs) ys = ap (λ zs. x ∷ zs) (take-append xs ys)

drop-append {ℓ} : {A : Type ℓ} (xs ys : List A) → drop (length xs) (xs ++ ys) ≡ ys
drop-append [] ys = refl
drop-append (x ∷ xs) ys = drop-append xs ys

-- A section as an encoder has it: a custom section's name by its bytes and by its text.
pub data Source : Type 0 where
  standard : ℕ → Bytes → Source
  custom : Bytes → Text → Bytes → Source

abbrev pub section_of : Source → WasmSection
section_of (standard id content) = record { id = id; name = none; content = content }
section_of (custom name_bytes name content) = record { id = 0; name = some name; content = content }

abbrev pub body_of : Source → Bytes
body_of (standard id content) = content
body_of (custom name_bytes name content) = u32_leb (length name_bytes) ++ (name_bytes ++ content)

abbrev pub id_of : Source → ℕ
id_of (standard id content) = id
id_of (custom name_bytes name content) = 0

abbrev pub encode_section : Source → Bytes
encode_section s = id_of s ∷ (u32_leb (length (body_of s)) ++ body_of s)

abbrev pub encode_sections : List Source → Bytes
encode_sections [] = []
encode_sections (s ∷ ss) = encode_section s ++ encode_sections ss

abbrev pub encode_module : List Source → Bytes
encode_module ss = header ++ encode_sections ss

abbrev Named : Source → Type 0
Named (standard id content) = id ≢ 0
Named (custom name_bytes name content) = decode name_bytes ≡ some name

-- The body's length fits in 32 bits, a standard section has not the custom one's id, and a name is
-- its bytes decoded.
abbrev pub IsEncodable : Source → Type 0
IsEncodable s = (length (body_of s) < 4294967296) × Named s

custom_section_lem :
    (size before : ℕ) (start name_bytes content rest : Bytes) (name : Text)
    → read_u32_leb start ≡ parsed (length name_bytes, name_bytes ++ (content ++ rest))
    → decode name_bytes ≡ some name
    → length start ≡ before + length (name_bytes ++ (content ++ rest))
    → size ≡ before + length name_bytes + length content
    → custom_section size start ≡ parsed (section_of (custom name_bytes name content))
unfolding custom_section
custom_section_lem size before start name_bytes content rest name read named at_start sized =
    rw
      (
        custom_section,
        read,
        let e : ltb size
                  (length start - length (name_bytes ++ (content ++ rest)) + length name_bytes)
                ≡ false =
              ground arith in
            e,
        take-append name_bytes (content ++ rest),
        named,
        drop-append name_bytes (content ++ rest),
        let e : size - (length start - length (name_bytes ++ (content ++ rest)) + length name_bytes)
                ≡ length content =
              omega arith in
            e,
        take-append content rest,
      )
      refl

read_section_lem :
    (s : Source) (rest : Bytes)
    → IsEncodable s
    → read_section (id_of s) ((u32_leb (length (body_of s)) ++ body_of s) ++ rest)
      ≡ parsed (section_of s, rest)
unfolding read_section
read_section_lem (standard id content) rest (fits, named) =
    rw
      (
        read_section,
        append_assoc (u32_leb (length content)) content rest,
        read_u32_leb_lem (length content) (content ++ rest) fits,
        let e : ltb (length (content ++ rest)) (length content) ≡ false =
              ground (arith, length-append content rest) in
            e,
        let e : (id == 0) ≡ false = ground arith in e,
        take-append content rest,
        drop-append content rest,
      )
      refl
read_section_lem (custom name_bytes name content) rest (fits, named) =
    let prefix : Bytes = u32_leb (length name_bytes) in
    let body : Bytes = prefix ++ (name_bytes ++ content) in
    let split : body ++ rest ≡ prefix ++ (name_bytes ++ (content ++ rest)) =
      append_assoc prefix (name_bytes ++ content) rest
      ∙ ap (λ zs. prefix ++ zs) (append_assoc name_bytes content rest) in
    let long : length body ≡ length prefix + length name_bytes + length content =
      omega
        (arith, length-append prefix (name_bytes ++ content), length-append name_bytes content) in
    rw
      (
        read_section,
        append_assoc (u32_leb (length body)) body rest,
        read_u32_leb_lem (length body) (body ++ rest) fits,
        let e : ltb (length (body ++ rest)) (length body) ≡ false =
              ground (arith, length-append body rest) in
            e,
        custom_section_lem (length body) (length prefix) (body ++ rest) name_bytes content rest name
            (ap read_u32_leb split
              ∙ read_u32_leb_lem (length name_bytes) (name_bytes ++ (content ++ rest))
                  (omega arith))
            named (ap length split ∙ length-append prefix (name_bytes ++ (content ++ rest))) long,
        drop-append body rest,
      )
      refl

read_sections_lem :
    (fuel : ℕ) (ss : List Source)
    → length (encode_sections ss) ≤ fuel
    → All IsEncodable ss
    → read_sections fuel (encode_sections ss) ≡ parsed (map section_of ss)
unfolding read_sections
read_sections_lem fuel [] le h = refl
read_sections_lem zero (s ∷ ss) le h = absurd (omega arith)
read_sections_lem (suc fuel) (s ∷ ss) le (one, more) =
    rw
      (
        read_sections,
        read_section_lem s (encode_sections ss) one,
        read_sections_lem fuel ss
            (omega (
              arith,
              length-append (u32_leb (length (body_of s)) ++ body_of s) (encode_sections ss),
            ))
            more,
      )
      refl

-- Parsing the encoding of a module gives the sections that were encoded, in order.
pub parse_wasm_sections-encode_module :
    (ss : List Source)
    → All IsEncodable ss
    → parse_wasm_sections (encode_module ss) ≡ parsed (map section_of ss)
unfolding parse_wasm_sections
parse_wasm_sections-encode_module ss h =
    rw (bytes_equal_self header) (read_sections_lem (length (encode_module ss)) ss (omega arith) h)
