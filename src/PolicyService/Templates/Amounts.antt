-- ===== src/PolicyService/Templates/Amounts.antt =====
-- What a valid definition's amounts, rules and publishers come to.
use vellar_dapp.PolicyService.Templates.{
  SpendingLimits, TokenAmount, SafetyRules, xlm_to_stroops, SafetyRulesConstructor, rules_of,
  cap_of, id_of_publisher,
}
use vellar_dapp.PolicyService.Templates.Schema.{
  every, optional, required, max_rule_entries, decimal_form, positive_xlm_amount,
  spending_limits_schema, caps_schema, tokens_schema, safety_rules_schema, publisher_schema,
}
use vellar_dapp.Prelude.{
  leb, if◌then◌else◌, Bool-cases, Option-cases, get_or, is_some, length, dedupe_from, suc, ◌≤◌,
  String, ◌≡◌, refl, ap, ◌∙◌, subst, inl, inr, Bool, true, false, ◌||◌, Option, none, some, List,
  [], ◌∷◌, arith, str_eq, eq_iff, and-eq-true, ok, ◌>>=◌, map_result, trim, utf16_length, codes,
}

-- A cap that the schema of spending limits accepts.
abbrev pub IsCap : Option SpendingLimits → String → Type 0
IsCap limits cap = (cap_of limits ≡ some cap) × (str_eq cap "" ≡ false) × (1 ≤ xlm_to_stroops cap)

positive-IsCap :
    (cap : String)
    → positive_xlm_amount cap ≡ true
    → (str_eq cap "" ≡ false) × (1 ≤ xlm_to_stroops cap)
unfolding positive_xlm_amount
positive-IsCap cap h =
    let parts = and-eq-true (decimal_form (codes cap)) (leb 1 (xlm_to_stroops cap)) h in
    (
      elim (Bool-cases (str_eq cap "")) [
        | inl e ↦
            let nothing : cap ≡ "" = (eq_iff cap "").0 e in
            let no : false ≡ true = subst (λ s. decimal_form (codes s) ≡ true) nothing parts.0 in
            absurd cc
        | inr e ↦ e
      ],
      let enough = parts.1 in ground (arith, enough),
    )

caps :
    (daily per_tx : Option String)
    → optional positive_xlm_amount daily ≡ true
    → optional positive_xlm_amount per_tx ≡ true
    → (is_some daily || is_some per_tx) ≡ true
    → (cap : String) × IsCap (some (record { daily_xlm = daily; per_tx_xlm = per_tx })) cap
caps (some daily) per_tx h k l = (daily, let p = positive-IsCap daily h in (refl, p.0, p.1))
caps none (some per_tx) h k l = (per_tx, let p = positive-IsCap per_tx k in (refl, p.0, p.1))
caps none none h k l = absurd cc

pub cap_of-IsCap :
    (limits : Option SpendingLimits)
    → required spending_limits_schema limits ≡ true
    → (cap : String) × IsCap limits cap
unfolding spending_limits_schema
cap_of-IsCap none h = absurd cc
cap_of-IsCap (some limits) h =
    let a = and-eq-true (optional positive_xlm_amount limits.daily_xlm) _ h in
    let b = and-eq-true (optional positive_xlm_amount limits.per_tx_xlm) _ a.1 in
    let c = and-eq-true (is_some limits.daily_xlm || is_some limits.per_tx_xlm) _ b.1 in
    caps limits.daily_xlm limits.per_tx_xlm a.0 b.0 c.0

-- The bounds of the contract's tables.
abbrev pub WithinTables : Option SafetyRulesConstructor → Type 0
WithinTables none = Unit
WithinTables (some rules) =
    (length rules.max_single_transfer ≤ max_rule_entries)
    × ((tokens : List String)
        → rules.allowed_tokens ≡ some tokens
        → (1 ≤ length tokens) × (length tokens ≤ max_rule_entries))

caps_within :
    (caps : Option (List TokenAmount))
    → optional caps_schema caps ≡ true
    → length (get_or caps []) ≤ max_rule_entries
caps_within none h = omega arith
caps_within (some caps) h =
    let a = (and-eq-true (leb (length caps) max_rule_entries) _ h).0 in ground (arith, a)

tokens_within :
    (tokens : List String)
    → tokens_schema tokens ≡ true
    → (1 ≤ length tokens) × (length tokens ≤ max_rule_entries)
tokens_within tokens h =
    let a = and-eq-true (leb 1 (length tokens)) _ h in
    let b = (and-eq-true (leb (length tokens) max_rule_entries) _ a.1).0 in
    let c = a.0 in (ground (arith, c), ground (arith, b))

unless :
    (b : Bool) (rules : SafetyRulesConstructor)
    → WithinTables (some rules)
    → WithinTables (if b then none else some rules)
unless true rules w = tt
unless false rules w = w

pub rules_of-WithinTables :
    (rules : Option SafetyRules)
    → optional safety_rules_schema rules ≡ true
    → WithinTables (rules_of rules)
unfolding safety_rules_schema
rules_of-WithinTables none h = tt
rules_of-WithinTables (some rules) h =
    let a = and-eq-true (optional caps_schema rules.max_single_transfer) _ h in
    unless _ _ (
      caps_within rules.max_single_transfer a.0,
      λ tokens e. tokens_within tokens (subst (λ o. optional tokens_schema o ≡ true) e a.1),
    )

module _ (publisher_id_for : String → Option String)
    (trims : (s : String) → publisher_id_for (trim s) ≡ publisher_id_for s) where
  pub publishers-ok :
      (ps : List String)
      → every (publisher_schema publisher_id_for) ps ≡ true
      → (ids : List String) × (map_result (id_of_publisher publisher_id_for) ps ≡ ok ids)
        × (length ids ≡ length ps)
  publishers-ok [] h = ([], refl, refl)
  publishers-ok (p ∷ ps) h =
      let a = and-eq-true (publisher_schema publisher_id_for p) _ h in
      let b = and-eq-true (leb 1 (utf16_length (trim p))) _ a.0 in
      let c = and-eq-true (leb (utf16_length (trim p)) 200) _ b.1 in
      let rest = publishers-ok ps a.1 in
      elim (Option-cases (publisher_id_for p)) [
        | inl e ↦
            let no : is_some (publisher_id_for (trim p)) ≡ false = rw (trims p, e) in
            absurd (let yes = c.1 in ground (arith, yes, no))
        | inr (id, e) ↦
            let first : id_of_publisher publisher_id_for p ≡ ok id = rw (id_of_publisher, e) in
            (
              id ∷ rest.0,
              ap (λ m. do i ← m; is ← map_result (id_of_publisher publisher_id_for) ps; ok (i ∷ is))
                    first
                  ∙ ap (λ m. do is ← m; ok (id ∷ is)) rest.1,
              ap suc rest.2,
            )
      ]

pub length-dedupe_from : (seen xs : List String) → length (dedupe_from seen xs) ≤ length xs
length-dedupe_from seen [] = omega arith
length-dedupe_from seen (x ∷ xs) =
    ground (arith, length-dedupe_from seen xs, length-dedupe_from (x ∷ seen) xs)
