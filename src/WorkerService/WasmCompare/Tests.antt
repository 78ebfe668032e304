-- ===== src/WorkerService/WasmCompare/Tests.antt =====
-- services/worker-service/src/wasm-compare.ts: two builds of a small contract.
use vellar_dapp.WorkerService.WasmCompare.Utf8.{code_points, decode}
use vellar_dapp.WorkerService.WasmCompare.{
  Bytes, bytes_equal, parsed, WasmSection, read_leb, custom_section, read_section, read_sections,
  parse_wasm_sections, MetaEntry, read_string, read_entry, read_entries, parse_meta_entries,
  kept_entries, normalized_meta, normalized_view,
}
use vellar_dapp.WorkerService.WasmCompare.Compare.{
  toolchain_entries, last_value, differing_toolchain_keys, toolchain_metadata, first_difference,
  compare_views, compare_parsed, compare_wasm,
}
use vellar_dapp.WorkerService.WasmCompare.Verdict.{Tolerated, compare_wasm_sound}
use vellar_dapp.WorkerService.WasmCompare.Sections.{
  leb, Source, standard, custom, section_of, encode_module, IsEncodable,
  parse_wasm_sections-encode_module,
}
use vellar_dapp.WorkerService.WasmCompare.Stamps.{NoMeta, IsMeta, compare_wasm_rustc}
use vellar_dapp.Prelude.{ℕ, ◌≡◌, refl, some, List, [], ◌∷◌, ◌++◌, map, arith, codes}

-- An entry of one-letter value: version, key "rsver" with its padding, value.
abbrev rsver_entry : ℕ → Bytes
rsver_entry c =
    0 ∷ 0 ∷ 0 ∷ 0 ∷ 0 ∷ 0 ∷ 0 ∷ 5 ∷ 0x72 ∷ 0x73 ∷ 0x76 ∷ 0x65 ∷ 0x72 ∷ 0 ∷ 0 ∷ 0 ∷ 0 ∷ 0 ∷ 0 ∷ 1 ∷ c
    ∷ 0 ∷ 0 ∷ 0 ∷ []

abbrev entry_of : ℕ → MetaEntry
entry_of c = record { key = codes "rsver"; val = c ∷ []; raw = rsver_entry c }

abbrev meta_source : ℕ → Source
meta_source c = custom (codes "contractmetav0") (codes "contractmetav0") (rsver_entry c)

abbrev code_source : Source
code_source = standard 10 (0x60 ∷ 0x61 ∷ [])

abbrev built_with : ℕ → Bytes
built_with c = encode_module (code_source ∷ meta_source c ∷ [])

entries_of_seven : parse_meta_entries (rsver_entry 0x37) ≡ some (entry_of 0x37 ∷ [])
unfolding parse_meta_entries read_entries read_entry read_string decode code_points
entries_of_seven = refl

entries_of_eight : parse_meta_entries (rsver_entry 0x38) ≡ some (entry_of 0x38 ∷ [])
unfolding parse_meta_entries read_entries read_entry read_string decode code_points
entries_of_eight = refl

meta_source-IsEncodable : IsEncodable (meta_source 0x37) × IsEncodable (meta_source 0x38)
unfolding leb decode code_points
meta_source-IsEncodable = ((omega arith, refl), (omega arith, refl))

code_source-IsEncodable : IsEncodable code_source
code_source-IsEncodable = (omega arith, omega arith)

meta_source-IsMeta :
    IsMeta (section_of (meta_source 0x37)) (entry_of 0x37 ∷ [])
    × IsMeta (section_of (meta_source 0x38)) (entry_of 0x38 ∷ [])
unfolding bytes_equal
meta_source-IsMeta = (
  record { meta = refl; entries_of = entries_of_seven },
  record { meta = refl; entries_of = entries_of_eight },
)

code_source-NoMeta : NoMeta (map section_of (code_source ∷ []))
unfolding bytes_equal
code_source-NoMeta = (refl, tt)

same_kept : kept_entries (entry_of 0x37 ∷ []) ≡ kept_entries (entry_of 0x38 ∷ [])
unfolding bytes_equal
same_kept = refl

no_sdk :
    last_value (codes "rssdkver") (entry_of 0x37 ∷ [])
    ≡ last_value (codes "rssdkver") (entry_of 0x38 ∷ [])
unfolding last_value bytes_equal
no_sdk = refl

other_compiler : ¬ (
    last_value (codes "rsver") (entry_of 0x37 ∷ [])
    ≡ last_value (codes "rsver") (entry_of 0x38 ∷ []))
unfolding last_value bytes_equal
other_compiler e = ground arith

parse_wasm_sections-encode_module_example :
    parse_wasm_sections (encode_module (code_source ∷ meta_source 0x37 ∷ []))
    ≡ parsed (map section_of (code_source ∷ meta_source 0x37 ∷ []))
parse_wasm_sections-encode_module_example =
    parse_wasm_sections-encode_module (code_source ∷ meta_source 0x37 ∷ [])
      (code_source-IsEncodable, (meta_source-IsEncodable.0, tt))

compare_wasm_rustc_example :
    compare_wasm (built_with 0x37) (built_with 0x38) ≡ toolchain_metadata (codes "rsver" ∷ [])
compare_wasm_rustc_example =
    compare_wasm_rustc (code_source ∷ []) [] (meta_source 0x37) (meta_source 0x38)
      (entry_of 0x37 ∷ []) (entry_of 0x38 ∷ [])
      (code_source-IsEncodable, (meta_source-IsEncodable.0, tt))
      (code_source-IsEncodable, (meta_source-IsEncodable.1, tt)) code_source-NoMeta tt
      meta_source-IsMeta.0 meta_source-IsMeta.1 same_kept no_sdk other_compiler

only_rustc :
    compare_wasm (built_with 0x37) (built_with 0x38) ≡ toolchain_metadata (codes "rsver" ∷ [])
unfolding compare_wasm compare_parsed compare_views differing_toolchain_keys toolchain_entries
    last_value first_difference normalized_view normalized_meta parse_wasm_sections read_sections
    read_section custom_section read_leb parse_meta_entries read_entries read_entry read_string
    decode code_points bytes_equal leb
only_rustc = refl

compare_wasm_sound_example :
    (a b : List WasmSection) × (parse_wasm_sections (built_with 0x37) ≡ parsed a)
    × (parse_wasm_sections (built_with 0x38) ≡ parsed b)
    × Tolerated a b (codes "rsver" ∷ [])
compare_wasm_sound_example =
    compare_wasm_sound (built_with 0x37) (built_with 0x38) (codes "rsver" ∷ []) only_rustc

-- A byte order mark before a section's name is dropped by the decoder, so two names that differ in
-- their bytes are found the same.
abbrev named_with : Bytes → ℕ → Bytes
named_with mark c =
    encode_module (custom (mark ++ codes "note") (codes "note") (1 ∷ []) ∷ meta_source c ∷ [])

marks_ignored :
    compare_wasm (named_with [] 0x37) (named_with (0xef ∷ 0xbb ∷ 0xbf ∷ []) 0x38)
    ≡ toolchain_metadata (codes "rsver" ∷ [])
unfolding compare_wasm compare_parsed compare_views differing_toolchain_keys toolchain_entries
    last_value first_difference normalized_view normalized_meta parse_wasm_sections read_sections
    read_section custom_section read_leb parse_meta_entries read_entries read_entry read_string
    decode code_points bytes_equal leb
marks_ignored = refl
