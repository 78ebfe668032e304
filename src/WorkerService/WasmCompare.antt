-- ===== src/WorkerService/WasmCompare.antt =====
-- services/worker-service/src/wasm-compare.ts: comparing a rebuilt contract with the deployed one. A
-- `Uint8Array` is the list of its bytes, an offset into it the list of the bytes from there on, and
-- a decoded text the list of its code points. The messages of the errors are left out, but which
-- check failed is kept.
pub mod Utf8
pub mod Compare
pub mod Meta
pub mod Sections
pub mod Verdict
pub mod Stamps
pub mod Fuel
mod Tests
use vellar_dapp.WorkerService.WasmCompare.Utf8.{code_points, decode}
use vellar_dapp.Prelude.{
  ltb, ◌==◌, if◌then◌else◌, length, take, drop, filter, any, ℕ, zero, suc, ◌+◌, ◌-◌, ◌*◌, ◌%◌, Bool,
  true, false, not, ◌&&◌, Option, none, some, List, [], ◌∷◌, ◌++◌, codes,
}

abbrev pub Bytes : Type 0
Bytes = List ℕ

-- A text by its code points.
abbrev pub Text : Type 0
Text = List ℕ

-- The comparison of two lists of bytes, or of code points.
unfoldable pub bytes_equal : List ℕ → List ℕ → Bool
bytes_equal [] [] = true
bytes_equal [] (b ∷ bs) = false
bytes_equal (a ∷ as') [] = false
bytes_equal (a ∷ as') (b ∷ bs) = a == b && bytes_equal as' bs

-- What a step throws, and the reason of a mismatch.
pub data WasmParseError : Type 0 where
  not_wasm truncated overflows too_long overruns name_overruns bad_name : WasmParseError

pub data Parse {ℓ} (A : Type ℓ) : Type ℓ where
  parsed : A → Parse A
  failed : WasmParseError → Parse A

pub record WasmSection : Type 0 where
  pub id : ℕ
  pub name : Option Text
  pub content : Bytes

-- readU32Leb: `rounds` are left of five, and `scale` is 2 to the power of `shift`. The groups do not
-- overlap, so `|=` is the sum.
unfoldable pub read_leb : ℕ → ℕ → ℕ → Bytes → Parse (ℕ × Bytes)
read_leb zero scale result bytes = failed too_long
read_leb (suc rounds) scale result [] = failed truncated
read_leb (suc rounds) scale result (byte ∷ next) =
    let more = read_leb rounds (scale * 128) (result + byte % 128 * scale) next in
    if ltb byte 0x80
    then if rounds == 0 && ltb 0x0f byte
      then failed overflows
      else parsed (result + byte % 128 * scale, next)
    else more

abbrev pub read_u32_leb : Bytes → Parse (ℕ × Bytes)
read_u32_leb bytes = read_leb 5 1 0 bytes

-- The custom section of `size` bytes at `start`; a name that is read past its end overruns it.
unfoldable pub custom_section : ℕ → Bytes → Parse WasmSection
custom_section size start = elim (read_u32_leb start) [
  | failed why ↦ failed why
  | parsed (name_len, next) ↦
      let name_end = length start - length next + name_len in
      if ltb size name_end then failed name_overruns else elim (decode (take name_len next)) [
        | none ↦ failed bad_name
        | some name ↦ parsed (record {
          id = 0;
          name = some name;
          content = take (size - name_end) (drop name_len next);
        })
      ]
]

-- One round of the loop of parseWasmSections: a section, and what follows it.
unfoldable pub read_section : ℕ → Bytes → Parse (WasmSection × Bytes)
read_section id bytes = elim (read_u32_leb bytes) [
  | failed why ↦ failed why
  | parsed (size, start) ↦
      if ltb (length start) size
      then failed overruns
      else if id == 0
      then elim (custom_section size start) [
        | failed why ↦ failed why
        | parsed section ↦ parsed (section, drop size start)
      ]
      else parsed (record { id = id; name = none; content = take size start }, drop size start)
]

-- The loop; each round takes two bytes at least.
unfoldable pub read_sections : ℕ → Bytes → Parse (List WasmSection)
read_sections fuel [] = parsed []
read_sections zero (id ∷ bytes) = failed truncated
read_sections (suc fuel) (id ∷ bytes) = elim (read_section id bytes) [
  | failed why ↦ failed why
  | parsed (section, rest) ↦ elim (read_sections fuel rest) [
    | failed why ↦ failed why
    | parsed sections ↦ parsed (section ∷ sections)
  ]
]

abbrev pub header : Bytes
header = 0x00 ∷ 0x61 ∷ 0x73 ∷ 0x6d ∷ 0x01 ∷ 0x00 ∷ 0x00 ∷ 0x00 ∷ []

unfoldable pub parse_wasm_sections : Bytes → Parse (List WasmSection)
parse_wasm_sections bytes =
    if bytes_equal (take 8 bytes) header
    then read_sections (length bytes) (drop 8 bytes)
    else failed not_wasm

pub record MetaEntry : Type 0 where
  pub key : Text
  pub val : Text
  -- The exact bytes of the entry.
  pub raw : Bytes

abbrev pub get_uint32 : Bytes → Option (ℕ × Bytes)
get_uint32 (a ∷ b ∷ c ∷ d ∷ rest) = some (a * 16777216 + b * 65536 + c * 256 + d, rest)
get_uint32 _ = none

abbrev pub all_zero : Bytes → Bool
all_zero [] = true
all_zero (b ∷ bs) = b == 0 && all_zero bs

abbrev pub padded : ℕ → ℕ
padded len = len + (4 - len % 4) % 4

unfoldable pub read_string : Bytes → Option (Text × Bytes)
read_string bytes = elim (get_uint32 bytes) [
  | none ↦ none
  | some (len, rest) ↦
      if ltb (length rest) (padded len)
      then none
      else if all_zero (take (padded len - len) (drop len rest))
      then elim (decode (take len rest)) [ none ↦ none | some s ↦ some (s, drop (padded len) rest) ]
      else none
]

-- One round of the loop of parseMetaEntries.
unfoldable pub read_entry : Bytes → Option (MetaEntry × Bytes)
unfolding read_string
read_entry bytes = elim (get_uint32 bytes) [
  | none ↦ none
  | some (version, r1) ↦
      if version == 0
      then elim (read_string r1) [
        | none ↦ none
        | some (key, r2) ↦ elim (read_string r2) [
          | none ↦ none
          | some (val, r3) ↦
              some
                (record { key = key; val = val; raw = take (length bytes - length r3) bytes }, r3)
        ]
      ]
      else none
]

-- The loop; each round takes twelve bytes at least.
unfoldable pub read_entries : ℕ → Bytes → Option (List MetaEntry)
unfolding read_entry
read_entries fuel [] = some []
read_entries zero (b ∷ bytes) = none
read_entries (suc fuel) (b ∷ bytes) = elim (read_entry (b ∷ bytes)) [
  | none ↦ none
  | some (entry, rest) ↦ elim (read_entries fuel rest) [
    | none ↦ none
    | some entries ↦ some (entry ∷ entries)
  ]
]

unfoldable pub parse_meta_entries : Bytes → Option (List MetaEntry)
unfolding read_entries
parse_meta_entries content = read_entries (length content) content

abbrev pub contract_meta_section : Text
contract_meta_section = codes "contractmetav0"

-- TOOLCHAIN_META_KEYS, in the order of the sorted keys.
abbrev pub toolchain_meta_keys : List Text
toolchain_meta_keys = codes "rssdkver" ∷ codes "rsver" ∷ []

abbrev pub is_toolchain_key : Text → Bool
is_toolchain_key key = any (bytes_equal key) toolchain_meta_keys

abbrev pub same_name : Option Text → Option Text → Bool
same_name none none = true
same_name (some a) (some b) = bytes_equal a b
same_name _ _ = false

abbrev pub is_meta_section : WasmSection → Bool
is_meta_section s = s.id == 0 && same_name s.name (some contract_meta_section)

abbrev pub kept_entries : List MetaEntry → List MetaEntry
kept_entries = filter (λ (e : MetaEntry). not (is_toolchain_key e.key))

abbrev pub raw_bytes : List MetaEntry → Bytes
raw_bytes [] = []
raw_bytes (e ∷ es) = e.raw ++ raw_bytes es

abbrev pub meta_section : Bytes → WasmSection
meta_section content = record { id = 0; name = some contract_meta_section; content = content }

-- What a contractmetav0 section becomes.
unfoldable pub normalized_meta : WasmSection → List WasmSection
unfolding parse_meta_entries bytes_equal
normalized_meta section = elim (parse_meta_entries section.content) [
  | none ↦ section ∷ []
  | some entries ↦ elim (kept_entries entries) [
    | [] ↦ []
    | e ∷ es ↦ meta_section (raw_bytes (e ∷ es)) ∷ []
  ]
]

unfoldable pub normalized_view : List WasmSection → List WasmSection
unfolding normalized_meta
normalized_view [] = []
normalized_view (s ∷ sections) =
    (if is_meta_section s then normalized_meta s else s ∷ []) ++ normalized_view sections
