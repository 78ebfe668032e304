-- ===== src/WorkerService/WasmCompare/Stamps.antt =====
-- services/worker-service/src/wasm-compare.ts: two builds that differ in a toolchain stamp.
use mathlib.Core.List.{map-append}
use vellar_dapp.WorkerService.WasmCompare.{
  Text, bytes_equal, parsed, WasmSection, parse_wasm_sections, MetaEntry, parse_meta_entries,
  is_toolchain_key, same_name, is_meta_section, kept_entries, raw_bytes, meta_section,
  normalized_meta, normalized_view,
}
use vellar_dapp.WorkerService.WasmCompare.Compare.{
  toolchain_entries, last_value, stamp_of, differing_toolchain_keys, toolchain_metadata,
  same_section, first_difference, compare_views, compare_parsed, compare_wasm,
}
use vellar_dapp.WorkerService.WasmCompare.Verdict.{
  bytes_equal_sound, bytes_equal_self, same_name_sound, same_name_self,
}
use vellar_dapp.WorkerService.WasmCompare.Sections.{
  Source, section_of, encode_module, IsEncodable, parse_wasm_sections-encode_module,
}
use vellar_dapp.Prelude.{
  ◌==◌, Bool-cases, length, filter, All, ◌≡◌, refl, sym, ap, ◌∙◌, ◌≢◌, inl, inr, true, false,
  Option, none, some, List, [], ◌∷◌, ◌++◌, map, append-nil, arith, codes,
}

abbrev pub NoMeta : List WasmSection → Type 0
NoMeta = All (λ (s : WasmSection). is_meta_section s ≡ false)

-- A contractmetav0 section with its entries.
pub record IsMeta (s : WasmSection) (entries : List MetaEntry) : Type 0 where
  pub meta : is_meta_section s ≡ true
  pub entries_of : parse_meta_entries s.content ≡ some entries

abbrev view_of_entries : List MetaEntry → List WasmSection
view_of_entries kept = elim kept [ [] ↦ [] | e ∷ es ↦ meta_section (raw_bytes (e ∷ es)) ∷ [] ]

normalized_meta-entries :
    (s : WasmSection) (entries : List MetaEntry)
    → IsMeta s entries
    → normalized_meta s ≡ view_of_entries (kept_entries entries)
unfolding normalized_meta
normalized_meta-entries s entries m = rw (normalized_meta, m.entries_of) refl

normalized_view-NoMeta :
    (p q : List WasmSection) → NoMeta p → normalized_view (p ++ q) ≡ p ++ normalized_view q
unfolding normalized_view
normalized_view-NoMeta [] q h = refl
normalized_view-NoMeta (s ∷ p) q (other, h) =
    rw (normalized_view, other) (ap (λ more. s ∷ more) (normalized_view-NoMeta p q h))

normalized_view-same :
    (p q : List WasmSection) (s1 s2 : WasmSection) (es1 es2 : List MetaEntry)
    → NoMeta p
    → IsMeta s1 es1
    → IsMeta s2 es2
    → kept_entries es1 ≡ kept_entries es2
    → normalized_view (p ++ s1 ∷ q) ≡ normalized_view (p ++ s2 ∷ q)
unfolding normalized_view
normalized_view-same p q s1 s2 es1 es2 hp m1 m2 kept =
    rw
      (
        normalized_view-NoMeta p (s1 ∷ q) hp,
        normalized_view-NoMeta p (s2 ∷ q) hp,
        m1.meta,
        m2.meta,
        normalized_meta-entries s1 es1 m1,
        normalized_meta-entries s2 es2 m2,
        kept,
      )
      refl

toolchain_entries-NoMeta :
    (p q : List WasmSection) → NoMeta p → toolchain_entries (p ++ q) ≡ toolchain_entries q
unfolding toolchain_entries
toolchain_entries-NoMeta [] q h = refl
toolchain_entries-NoMeta (s ∷ p) q (other, h) =
    rw (toolchain_entries, other) (toolchain_entries-NoMeta p q h)

true-ne-false : true ≢ false
true-ne-false e = cc

toolchain_entries-none : (q : List WasmSection) → NoMeta q → toolchain_entries q ≡ []
unfolding toolchain_entries
toolchain_entries-none [] h = refl
toolchain_entries-none (s ∷ q) (other, h) =
    rw (toolchain_entries, other) (toolchain_entries-none q h)

last_value-filter :
    (key : Text) (entries : List MetaEntry)
    → is_toolchain_key key ≡ true
    → last_value key (filter (λ (e : MetaEntry). is_toolchain_key e.key) entries)
      ≡ last_value key entries
unfolding last_value
last_value-filter key [] h = refl
last_value-filter key (e ∷ es) h = elim (Bool-cases (is_toolchain_key e.key)) [
  | inl stamp ↦ rw (stamp, last_value, last_value-filter key es h) refl
  | inr other ↦
      let differs : bytes_equal e.key key ≡ false = elim (Bool-cases (bytes_equal e.key key)) [
        | inl same ↦ absurd (
            true-ne-false
              (sym h ∙ ap is_toolchain_key (sym (bytes_equal_sound e.key key same)) ∙ other))
        | inr differs ↦ differs
      ] in
      rw (other, last_value-filter key es h) (ground (arith, differs))
]

stamp_of-Meta :
    (key : Text) (p q : List WasmSection) (s : WasmSection) (entries : List MetaEntry)
    → is_toolchain_key key ≡ true
    → NoMeta p
    → NoMeta q
    → IsMeta s entries
    → stamp_of key (p ++ s ∷ q) ≡ last_value key entries
unfolding toolchain_entries
stamp_of-Meta key p q s entries k hp hq m =
    rw
      (
        toolchain_entries-NoMeta p (s ∷ q) hp,
        toolchain_entries,
        m.meta,
        m.entries_of,
        toolchain_entries-none q hq,
        append-nil (filter (λ (e : MetaEntry). is_toolchain_key e.key) entries),
      )
      (last_value-filter key entries k)

is_key_sdk : is_toolchain_key (codes "rssdkver") ≡ true
unfolding bytes_equal
is_key_sdk = refl

is_key_rustc : is_toolchain_key (codes "rsver") ≡ true
unfolding bytes_equal
is_key_rustc = refl

first_difference_self : (view : List WasmSection) → first_difference view view ≡ none
unfolding first_difference
first_difference_self [] = refl
first_difference_self (s ∷ view) =
    rw
      (
        first_difference,
        let e : same_section s s ≡ true =
              ground (arith, same_name_self s.name, bytes_equal_self s.content) in
            e,
      )
      (first_difference_self view)

same_name_ne : (a b : Option Text) → ¬ (a ≡ b) → same_name a b ≡ false
same_name_ne a b ne = elim (Bool-cases (same_name a b)) [
  | inl same ↦ absurd (ne (same_name_sound a b same))
  | inr differs ↦ differs
]

-- The two modules: the same sections around a contractmetav0 section each.
module _ (p q : List WasmSection) (s1 s2 : WasmSection) (es1 es2 : List MetaEntry) (hp : NoMeta p)
    (hq : NoMeta q) (m1 : IsMeta s1 es1) (m2 : IsMeta s2 es2)
    (kept : kept_entries es1 ≡ kept_entries es2)
    (same_sdk : last_value (codes "rssdkver") es1 ≡ last_value (codes "rssdkver") es2)
    (other_rustc : ¬ (last_value (codes "rsver") es1 ≡ last_value (codes "rsver") es2)) where
  rsver_differs : differing_toolchain_keys (p ++ s1 ∷ q) (p ++ s2 ∷ q) ≡ codes "rsver" ∷ []
  unfolding differing_toolchain_keys
  rsver_differs =
      rw
        (
          stamp_of-Meta (codes "rssdkver") p q s1 es1 is_key_sdk hp hq m1,
          stamp_of-Meta (codes "rssdkver") p q s2 es2 is_key_sdk hp hq m2,
          stamp_of-Meta (codes "rsver") p q s1 es1 is_key_rustc hp hq m1,
          stamp_of-Meta (codes "rsver") p q s2 es2 is_key_rustc hp hq m2,
          same_sdk,
          same_name_self (last_value (codes "rssdkver") es2),
          same_name_ne (last_value (codes "rsver") es1) (last_value (codes "rsver") es2)
              other_rustc,
        )
        refl

  compare_views-rsver :
      compare_views
        (normalized_view (p ++ s1 ∷ q))
        (normalized_view (p ++ s2 ∷ q))
        (p ++ s1 ∷ q)
        (p ++ s2 ∷ q)
      ≡ toolchain_metadata (codes "rsver" ∷ [])
  unfolding compare_views
  compare_views-rsver =
      rw
        (
          normalized_view-same p q s1 s2 es1 es2 hp m1 m2 kept,
          compare_views,
          let e : (length (normalized_view (p ++ s2 ∷ q)) == length (normalized_view (p ++ s2 ∷ q)))
                  ≡ true =
                ground arith in
              e,
          first_difference_self (normalized_view (p ++ s2 ∷ q)),
          rsver_differs,
        )
        refl

  sections-ne : p ++ s1 ∷ q ≢ p ++ s2 ∷ q
  sections-ne e = other_rustc (
      sym (stamp_of-Meta (codes "rsver") p q s1 es1 is_key_rustc hp hq m1)
      ∙ ap (stamp_of (codes "rsver")) e
      ∙ stamp_of-Meta (codes "rsver") p q s2 es2 is_key_rustc hp hq m2)

-- Two modules that are encoded from the same sections but for one contractmetav0 section each,
-- where no other section has that name, whose entries are the same but for the toolchain stamps,
-- with the same last stamp of the SDK and different ones of the compiler, are found to differ in the
-- compiler's stamp only.
pub compare_wasm_rustc :
    (ps qs : List Source) (x1 x2 : Source) (es1 es2 : List MetaEntry)
    → All IsEncodable (ps ++ x1 ∷ qs)
    → All IsEncodable (ps ++ x2 ∷ qs)
    → NoMeta (map section_of ps)
    → NoMeta (map section_of qs)
    → IsMeta (section_of x1) es1
    → IsMeta (section_of x2) es2
    → kept_entries es1 ≡ kept_entries es2
    → last_value (codes "rssdkver") es1 ≡ last_value (codes "rssdkver") es2
    → ¬ (last_value (codes "rsver") es1 ≡ last_value (codes "rsver") es2)
    → compare_wasm (encode_module (ps ++ x1 ∷ qs)) (encode_module (ps ++ x2 ∷ qs))
      ≡ toolchain_metadata (codes "rsver" ∷ [])
unfolding compare_wasm compare_parsed
compare_wasm_rustc ps qs x1 x2 es1 es2 enc1 enc2 hp hq m1 m2 kept sdk rustc =
    let first : parse_wasm_sections (encode_module (ps ++ x1 ∷ qs))
        ≡ parsed (map section_of ps ++ section_of x1 ∷ map section_of qs) =
      parse_wasm_sections-encode_module (ps ++ x1 ∷ qs) enc1
      ∙ ap parsed (map-append section_of ps (x1 ∷ qs)) in
    let second : parse_wasm_sections (encode_module (ps ++ x2 ∷ qs))
        ≡ parsed (map section_of ps ++ section_of x2 ∷ map section_of qs) =
      parse_wasm_sections-encode_module (ps ++ x2 ∷ qs) enc2
      ∙ ap parsed (map-append section_of ps (x2 ∷ qs)) in
    let ne =
      sections-ne (map section_of ps) (map section_of qs) (section_of x1) (section_of x2) es1 es2 hp
        hq m1 m2 kept sdk rustc in
    elim (Bool-cases
      (bytes_equal (encode_module (ps ++ x1 ∷ qs)) (encode_module (ps ++ x2 ∷ qs)))) [
        | inl same ↦ absurd (
            ne (
              cc (
                first,
                second,
                ap parse_wasm_sections (
                    bytes_equal_sound (encode_module (ps ++ x1 ∷ qs))
                      (encode_module (ps ++ x2 ∷ qs)) same),
              )))
        | inr differs ↦
            rw (compare_wasm, differs, first, second)
              (compare_views-rsver (map section_of ps) (map section_of qs) (section_of x1)
                (section_of x2) es1 es2 hp hq m1 m2 kept sdk rustc)
      ]
