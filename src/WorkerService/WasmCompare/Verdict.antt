-- ===== src/WorkerService/WasmCompare/Verdict.antt =====
-- services/worker-service/src/wasm-compare.ts: what a verdict says of the two modules.
use vellar_dapp.WorkerService.WasmCompare.{
  Bytes, Text, bytes_equal, Parse, parsed, failed, WasmSection, parse_wasm_sections, MetaEntry,
  parse_meta_entries, toolchain_meta_keys, same_name, is_meta_section, kept_entries, raw_bytes,
  meta_section, normalized_meta, normalized_view,
}
use vellar_dapp.WorkerService.WasmCompare.Compare.{
  stamp_of, differing_toolchain_keys, exact, toolchain_metadata, same_section, first_difference,
  compare_views, compare_parsed, compare_wasm,
}
use vellar_dapp.Prelude.{
  Bool-cases, length, filter, All, ℕ, ◌≡◌, refl, sym, ap, ◌∙◌, ◌≢◌, ◌↔◌, inl, inr, true, not,
  Option, none, some, List, [], ◌∷◌, ◌++◌, arith,
}

-- Two lists are found equal exactly if they are.
pub bytes_equal_sound : (a b : List ℕ) → bytes_equal a b ≡ true → a ≡ b
unfolding bytes_equal
bytes_equal_sound [] [] h = refl
bytes_equal_sound [] (y ∷ b) h = cc
bytes_equal_sound (x ∷ a) [] h = cc
bytes_equal_sound (x ∷ a) (y ∷ b) h = ground (arith, bytes_equal_sound a b)

pub bytes_equal_self : (a : List ℕ) → bytes_equal a a ≡ true
unfolding bytes_equal
bytes_equal_self [] = refl
bytes_equal_self (x ∷ a) = ground (arith, bytes_equal_self a)

pub same_name_sound : (a b : Option Text) → same_name a b ≡ true → a ≡ b
same_name_sound none none h = refl
same_name_sound none (some b) h = cc
same_name_sound (some a) none h = cc
same_name_sound (some a) (some b) h = ap some (bytes_equal_sound a b h)

pub same_name_self : (a : Option Text) → same_name a a ≡ true
same_name_self none = refl
same_name_self (some a) = bytes_equal_self a

same_section_sound : (sa sb : WasmSection) → same_section sa sb ≡ true → sa ≡ sb
same_section_sound sa sb h =
    ground (arith, same_name_sound sa.name sb.name, bytes_equal_sound sa.content sb.content)

first_difference-none :
    (va vb : List WasmSection) → length va ≡ length vb → first_difference va vb ≡ none → va ≡ vb
unfolding first_difference
first_difference-none [] [] l h = refl
first_difference-none [] (sb ∷ vb) l h = absurd (omega arith)
first_difference-none (sa ∷ va) [] l h = absurd (omega arith)
first_difference-none (sa ∷ va) (sb ∷ vb) l h = elim (Bool-cases (same_section sa sb)) [
  | inl same ↦
      let tails = first_difference-none va vb (omega arith) (rw same at h) in
      rw (same_section_sound sa sb same, tails) refl
  | inr differs ↦ absurd (ground (arith, differs, h))
]

-- The sections other than contractmetav0.
abbrev pub strict_sections : List WasmSection → List WasmSection
strict_sections = filter (λ (s : WasmSection). not (is_meta_section s))

strict_sections-append :
    (a b : List WasmSection) → strict_sections (a ++ b) ≡ strict_sections a ++ strict_sections b
strict_sections-append [] b = refl
strict_sections-append (s ∷ a) b = ground (arith, strict_sections-append a b)

strict-normalized_meta :
    (s : WasmSection) → is_meta_section s ≡ true → strict_sections (normalized_meta s) ≡ []
unfolding normalized_meta
strict-normalized_meta s meta = go (parse_meta_entries s.content)
  where
    kept :
        (es : List MetaEntry)
        → strict_sections
            (elim es [ [] ↦ [] | e ∷ more ↦ meta_section (raw_bytes (e ∷ more)) ∷ [] ])
          ≡ []
    kept [] = refl
    kept (e ∷ es) = refl

    go :
        (found : Option (List MetaEntry))
        → strict_sections (elim found [
          | none ↦ s ∷ []
          | some entries ↦ elim (kept_entries entries) [
            | [] ↦ []
            | e ∷ es ↦ meta_section (raw_bytes (e ∷ es)) ∷ []
          ]
        ])
          ≡ []
    go none = rw meta refl
    go (some entries) = kept (kept_entries entries)

strict-normalized_view :
    (sections : List WasmSection)
    → strict_sections (normalized_view sections) ≡ strict_sections sections
unfolding normalized_view
strict-normalized_view [] = refl
strict-normalized_view (s ∷ sections) = elim (Bool-cases (is_meta_section s)) [
  | inl meta ↦
      rw
        (
          meta,
          strict_sections-append (normalized_meta s) (normalized_view sections),
          strict-normalized_meta s meta,
        )
        (strict-normalized_view sections)
  | inr other ↦ ground (arith, other, strict-normalized_view sections)
]

-- A toolchain stamp that both modules have, with the same value, or neither.
abbrev pub SameStamp : List WasmSection → List WasmSection → Text → Type 0
SameStamp a b key = stamp_of key a ≡ stamp_of key b

filter-differs :
    (a b : List WasmSection) (keys : List Text)
    → All
        (λ key. ¬ SameStamp a b key)
        (filter (λ (key : Text). not (same_name (stamp_of key a) (stamp_of key b))) keys)
filter-differs a b [] = tt
filter-differs a b (key ∷ keys) = elim (Bool-cases (same_name (stamp_of key a) (stamp_of key b))) [
  | inl same ↦ rw same (filter-differs a b keys)
  | inr differs ↦
      rw differs
        (λ e. ground (arith, differs, e, same_name_self (stamp_of key b)), filter-differs a b keys)
]

-- What the verdict on two different modules says of their sections, which are in `a` and `b`.
pub record Tolerated (a b : List WasmSection) (keys : List Text) : Type 0 where
  pub same_strict : strict_sections a ≡ strict_sections b
  pub same_views : normalized_view a ≡ normalized_view b
  pub some_key : keys ≢ []
  pub stamps : All (λ key. ¬ SameStamp a b key) keys

compare_views-Tolerated :
    (a b : List WasmSection) (keys : List Text)
    → compare_views (normalized_view a) (normalized_view b) a b ≡ toolchain_metadata keys
    → Tolerated a b keys
unfolding compare_views differing_toolchain_keys
compare_views-Tolerated a b keys h =
    let views : normalized_view a ≡ normalized_view b =
      first_difference-none (normalized_view a) (normalized_view b) (ground (arith, h))
        (ground (arith, h)) in
    let found : keys ≡ differing_toolchain_keys a b = ground (arith, h) in
    record {
      same_strict =
          sym (strict-normalized_view a) ∙ ap strict_sections views ∙ strict-normalized_view b;
      same_views = views;
      some_key = λ e. ground (arith, h, e);
      stamps = rw found (filter-differs a b toolchain_meta_keys);
    }

compare_parsed-Tolerated :
    (pa pb : Parse (List WasmSection)) (keys : List Text)
    → compare_parsed pa pb ≡ toolchain_metadata keys
    → (a b : List WasmSection) × (pa ≡ parsed a) × (pb ≡ parsed b) × Tolerated a b keys
unfolding compare_parsed
compare_parsed-Tolerated (failed why) pb keys h = absurd (cc)
compare_parsed-Tolerated (parsed a) (failed why) keys h = absurd (cc)
compare_parsed-Tolerated (parsed a) (parsed b) keys h =
    (a, b, refl, refl, compare_views-Tolerated a b keys h)

-- When two modules are found to differ in toolchain metadata only, both are parsed; their sections
-- other than contractmetav0 are the same bytes under the same ids and decoded names, in order; so
-- are all their sections once the toolchain stamps are taken out; and at least one stamp is named,
-- each of which has two different values, or stands in one module only.
pub compare_wasm_sound :
    (rebuilt deployed : Bytes) (keys : List Text)
    → compare_wasm rebuilt deployed ≡ toolchain_metadata keys
    → (a b : List WasmSection) × (parse_wasm_sections rebuilt ≡ parsed a)
      × (parse_wasm_sections deployed ≡ parsed b)
      × Tolerated a b keys
unfolding compare_wasm
compare_wasm_sound rebuilt deployed keys h = elim (Bool-cases (bytes_equal rebuilt deployed)) [
  | inl same ↦ absurd (ground (arith, same, h))
  | inr differs ↦
      compare_parsed-Tolerated (parse_wasm_sections rebuilt) (parse_wasm_sections deployed) keys
        (rw differs at h)
]

compare_views-ne-exact : (va vb a b : List WasmSection) → compare_views va vb a b ≢ exact
unfolding compare_views
compare_views-ne-exact va vb a b h = ground (arith, h)

compare_parsed-ne-exact : (pa pb : Parse (List WasmSection)) → compare_parsed pa pb ≢ exact
unfolding compare_parsed
compare_parsed-ne-exact (failed why) pb h = cc
compare_parsed-ne-exact (parsed a) (failed why) h = cc
compare_parsed-ne-exact (parsed a) (parsed b) h = compare_views-ne-exact _ _ a b h

-- The verdict is "exact" exactly on equal bytes.
pub compare_wasm-exact :
    (rebuilt deployed : Bytes) → (compare_wasm rebuilt deployed ≡ exact) ↔ (rebuilt ≡ deployed)
unfolding compare_wasm
compare_wasm-exact rebuilt deployed = (
  λ h. elim (Bool-cases (bytes_equal rebuilt deployed)) [
    | inl same ↦ bytes_equal_sound rebuilt deployed same
    | inr differs ↦ absurd (compare_parsed-ne-exact _ _ (rw differs at h))
  ],
  λ e. rw (e, bytes_equal_self deployed) refl,
)
