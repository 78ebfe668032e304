-- ===== src/PolicyService/Templates/Registry.antt =====
-- The registry of templates of services/policy-service/src/templates.ts.
use vellar_dapp.PolicyService.Templates.{
  PolicyTemplate, templates, find_template, latest_template, get_template,
}
use vellar_dapp.Prelude.{
  ◌==◌, Bool-cases, Option-cases, get_or, All, ℕ, String, ◌≡◌, refl, sym, ◌∙◌, subst, inl, inr,
  true, ◌&&◌, Option, none, some, List, [], ◌∷◌, arith, str_eq, eq_iff, and-eq-true, some_inj,
}

-- Every template has the version 1, so the latest one of a type is the one of that version.
find_one :
    (t : String) (v : ℕ) (ts : List PolicyTemplate) (tpl : PolicyTemplate)
    → All (λ u. u.schema_version ≡ 1) ts
    → find_template t v ts ≡ some tpl
    → (v ≡ 1) × (tpl.schema_version ≡ 1) × (tpl.template_type ≡ t)
find_one t v [] tpl ones eq = absurd cc
find_one t v (u ∷ us) tpl ones eq =
    elim (Bool-cases (str_eq u.template_type t && u.schema_version == v)) [
      | inl h ↦
          let same : u ≡ tpl = some_inj (rw (sym eq, h)) in
          let both = and-eq-true (str_eq u.template_type t) (u.schema_version == v) h in
          let version = both.1 in
          let one = ones.0 in
          (
            ground (arith, version, one),
            subst (λ w. w.schema_version ≡ 1) same one,
            subst (λ w. w.template_type ≡ t) same ((eq_iff u.template_type t).0 both.0),
          )
      | inr h ↦ find_one t v us tpl ones.1 (sym (rw (sym eq, h)))
    ]

latest-find :
    (t : String) (ts : List PolicyTemplate)
    → All (λ u. u.schema_version ≡ 1) ts
    → latest_template t ts ≡ find_template t 1 ts
latest-find t [] ones = refl
latest-find t (u ∷ us) ones = elim (Bool-cases (str_eq u.template_type t)) [
  | inl h ↦ elim (Option-cases (latest_template t us)) [
    | inl e ↦ rw (h, e, ones.0)
    | inr (w, e) ↦
        let one = (find_one t 1 us w ones.1 (sym (latest-find t us ones.1) ∙ e)).1 in
        rw (h, e, ones.0, one)
  ]
  | inr h ↦ rw (h, latest-find t us ones.1)
]

abbrev all_one : All (λ u. u.schema_version ≡ 1) templates
all_one = (refl, (refl, (refl, (refl, (refl, (refl, (refl, tt)))))))

-- Whichever version a definition asks for, its template is the one of version 1.
pub get_template-one :
    (t : String) (v : Option ℕ) (tpl : PolicyTemplate)
    → get_template t v ≡ some tpl
    → (get_or v 1 ≡ 1)
      × (get_template t (some 1) ≡ some tpl)
      × (tpl.schema_version ≡ 1)
      × (tpl.template_type ≡ t)
unfolding get_template
get_template-one t none tpl eq =
    let found = sym (latest-find t templates all_one) ∙ eq in
    let one = find_one t 1 templates tpl all_one found in (refl, found, one.1, one.2)
get_template-one t (some v) tpl eq =
    let one = find_one t v templates tpl all_one eq in
    (one.0, subst (λ n. find_template t n templates ≡ some tpl) one.0 eq, one.1, one.2)

named {ℓ} : (P : String → Type ℓ) (t name : String) → P name → str_eq name t ≡ true → P t
named P t name p h = subst P ((eq_iff name t).0 h) p

-- A property of texts that holds of the seven types and of the texts that name no template.
pub by_type {ℓ} :
    (P : String → Type ℓ)
    → (t : String) → P "single_owner"
    → P "multisig_threshold"
    → P "spending_limit"
    → P "token_spending_limit"
    → P "contract_allowlist"
    → P "verified_only"
    → P "timelock"
    → (get_template t (some 1) ≡ none → P t)
    → P t
unfolding get_template
by_type P t p1 p2 p3 p4 p5 p6 p7 unknown = elim (Bool-cases (str_eq "single_owner" t)) [
  | inl h ↦ named P t "single_owner" p1 h
  | inr h1 ↦ elim (Bool-cases (str_eq "multisig_threshold" t)) [
    | inl h ↦ named P t "multisig_threshold" p2 h
    | inr h2 ↦ elim (Bool-cases (str_eq "spending_limit" t)) [
      | inl h ↦ named P t "spending_limit" p3 h
      | inr h3 ↦ elim (Bool-cases (str_eq "token_spending_limit" t)) [
        | inl h ↦ named P t "token_spending_limit" p4 h
        | inr h4 ↦ elim (Bool-cases (str_eq "contract_allowlist" t)) [
          | inl h ↦ named P t "contract_allowlist" p5 h
          | inr h5 ↦ elim (Bool-cases (str_eq "verified_only" t)) [
            | inl h ↦ named P t "verified_only" p6 h
            | inr h6 ↦ elim (Bool-cases (str_eq "timelock" t)) [
              | inl h ↦ named P t "timelock" p7 h
              | inr h7 ↦ unknown (rw (h1, h2, h3, h4, h5, h6, h7))
            ]
          ]
        ]
      ]
    ]
  ]
]
