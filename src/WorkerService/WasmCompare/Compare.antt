-- ===== src/WorkerService/WasmCompare/Compare.antt =====
-- services/worker-service/src/wasm-compare.ts: the verdict.
use vellar_dapp.WorkerService.WasmCompare.{
  Bytes, Text, bytes_equal, WasmParseError, Parse, parsed, failed, WasmSection, parse_wasm_sections,
  MetaEntry, parse_meta_entries, toolchain_meta_keys, is_toolchain_key, same_name, is_meta_section,
  normalized_view,
}
use vellar_dapp.Prelude.{
  ◌==◌, if◌then◌else◌, get_or, length, filter, ℕ, Bool, not, ◌&&◌, Option, none, some, List, [],
  ◌∷◌, ◌++◌,
}

-- The entries that `collect` visits, in order.
unfoldable pub toolchain_entries : List WasmSection → List MetaEntry
unfolding parse_meta_entries bytes_equal
toolchain_entries [] = []
toolchain_entries (s ∷ sections) =
    let rest = toolchain_entries sections in
    if is_meta_section s
    then filter (λ (e : MetaEntry). is_toolchain_key e.key)
        (get_or (parse_meta_entries s.content) [])
      ++ rest
    else rest

-- `map.get(key)` when `map.set(e.key, e.val)` was done for each entry: the last value stays.
unfoldable pub last_value : Text → List MetaEntry → Option Text
unfolding bytes_equal
last_value key [] = none
last_value key (e ∷ es) = elim (last_value key es) [
  | some val ↦ some val
  | none ↦ if bytes_equal e.key key then some e.val else none
]

abbrev pub stamp_of : Text → List WasmSection → Option Text
stamp_of key sections = last_value key (toolchain_entries sections)

unfoldable pub differing_toolchain_keys : List WasmSection → List WasmSection → List Text
unfolding toolchain_entries last_value bytes_equal
differing_toolchain_keys a b =
    filter (λ (key : Text). not (same_name (stamp_of key a) (stamp_of key b))) toolchain_meta_keys

pub data Reason : Type 0 where
  unparseable : WasmParseError → Reason
  layout_differs outside_stamps : Reason
  section_differs : ℕ → Option Text → Reason

pub data WasmComparison : Type 0 where
  exact : WasmComparison
  toolchain_metadata : List Text → WasmComparison
  mismatch : Reason → WasmComparison

abbrev pub same_section : WasmSection → WasmSection → Bool
same_section sa sb =
    sa.id == sb.id && same_name sa.name sb.name && bytes_equal sa.content sb.content

-- The first pair of sections that differ, in two lists of one length.
unfoldable pub first_difference : List WasmSection → List WasmSection → Option WasmSection
unfolding bytes_equal
first_difference [] vb = none
first_difference (sa ∷ va) [] = none
first_difference (sa ∷ va) (sb ∷ vb) =
    let rest = first_difference va vb in if same_section sa sb then rest else some sa

unfoldable pub compare_views :
    List WasmSection → List WasmSection → List WasmSection → List WasmSection → WasmComparison
compare_views va vb a b =
    if length va == length vb
    then elim (first_difference va vb) [
      | some s ↦ mismatch (section_differs s.id s.name)
      | none ↦ elim (differing_toolchain_keys a b) [
        | [] ↦ mismatch outside_stamps
        | key ∷ keys ↦ toolchain_metadata (key ∷ keys)
      ]
    ]
    else mismatch layout_differs

-- An unparseable module is a mismatch.
unfoldable pub compare_parsed : Parse (List WasmSection) → Parse (List WasmSection) → WasmComparison
compare_parsed (failed why) deployed = mismatch (unparseable why)
compare_parsed (parsed a) (failed why) = mismatch (unparseable why)
compare_parsed (parsed a) (parsed b) = compare_views (normalized_view a) (normalized_view b) a b

unfoldable pub compare_wasm : Bytes → Bytes → WasmComparison
compare_wasm rebuilt deployed =
    if bytes_equal rebuilt deployed
    then exact
    else compare_parsed (parse_wasm_sections rebuilt) (parse_wasm_sections deployed)
