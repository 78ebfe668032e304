-- ===== src/PolicyService/Templates/Schema.antt =====
-- The schemas of services/policy-service/src/templates.ts as tests of a typed definition, and
-- `validateDefinition`. A field that a strict schema does not know must be absent. Texts of
-- issues are left out.
use vellar_dapp.PolicyService.Templates.{
  SpendingLimits, TokenAmount, SafetyRules, TokenBudget, ProvenanceMode, strict, trusted_publishers,
  Provenance, PolicyDefinition, xlm_to_stroops, or_else, PolicyTemplate, get_template,
}
use vellar_dapp.Prelude.{
  leb, ◌==◌, if◌then◌else◌, is_some, length, dedupe_from, ℕ, String, Bool, true, false, not, ◌&&◌,
  ◌||◌, Option, none, some, List, [], ◌∷◌, map, str_eq, trim, is_digits, to_number, utf16_length,
  codes,
}

abbrev pub every {ℓ} : {A : Type ℓ} → (A → Bool) → List A → Bool
every p [] = true
every p (x ∷ xs) = p x && every p xs

-- An absent field, or one that passes.
abbrev pub optional {ℓ} : {A : Type ℓ} → (A → Bool) → Option A → Bool
optional p none = true
optional p (some a) = p a

abbrev pub absent {ℓ} : {A : Type ℓ} → Option A → Bool
absent o = not (is_some o)

abbrev pub required {ℓ} : {A : Type ℓ} → (A → Bool) → Option A → Bool
required p none = false
required p (some a) = p a

abbrev pub unique_items : List String → Bool
unique_items xs = length (dedupe_from [] xs) == length xs

-- [A-Z2-7]
abbrev base32_code : ℕ → Bool
base32_code c = (leb 65 c && leb c 90) || (leb 50 c && leb c 55)

abbrev is_account_code : ℕ → Bool
is_account_code c = c == 71 || c == 67

abbrev is_contract_code : ℕ → Bool
is_contract_code c = c == 67

-- A first letter and 55 more.
abbrev address_form : (ℕ → Bool) → List ℕ → Bool
address_form first [] = false
address_form first (c ∷ cs) = first c && (length cs == 55 && every base32_code cs)

unfoldable pub is_address : String → Bool
is_address s = address_form is_account_code (codes s)

unfoldable pub is_contract_address : String → Bool
is_contract_address s = address_form is_contract_code (codes s)

abbrev max_i128 : ℕ
max_i128 = 170141183460469231731687303715884105727

abbrev pub max_window_seconds : ℕ
max_window_seconds = 31536000

abbrev pub max_rule_entries : ℕ
max_rule_entries = 8

abbrev pub max_trusted_publishers : ℕ
max_trusted_publishers = 16

unfoldable pub base_units : String → Bool
base_units v = is_digits v && (leb 1 (to_number v) && leb (to_number v) max_i128)

abbrev pub window_seconds : ℕ → Bool
window_seconds n = leb 1 n && leb n max_window_seconds

abbrev digit_code : ℕ → Bool
digit_code c = leb 48 c && leb c 57

-- The fraction of a decimal, after its dot: one to seven digits.
abbrev fraction_form : List ℕ → Bool
fraction_form cs = leb 1 (length cs) && (leb (length cs) 7 && every digit_code cs)

-- The rest of a decimal, after its first digit.
abbrev decimal_rest : List ℕ → Bool
decimal_rest [] = true
decimal_rest (c ∷ cs) =
    let rest = decimal_rest cs in if c == 46 then fraction_form cs else digit_code c && rest

-- /^\d+(\.\d{1,7})?$/
abbrev pub decimal_form : List ℕ → Bool
decimal_form [] = false
decimal_form (c ∷ cs) = digit_code c && decimal_rest cs

unfoldable pub positive_xlm_amount : String → Bool
positive_xlm_amount v = decimal_form (codes v) && leb 1 (xlm_to_stroops v)

abbrev within_daily : SpendingLimits → Bool
within_daily limits = elim limits.daily_xlm [
  | none ↦ true
  | some daily ↦
      optional (λ per_tx. leb (xlm_to_stroops per_tx) (xlm_to_stroops daily)) limits.per_tx_xlm
]

unfoldable pub spending_limits_schema : SpendingLimits → Bool
spending_limits_schema v =
    optional positive_xlm_amount v.daily_xlm
    && (optional positive_xlm_amount v.per_tx_xlm
        && ((is_some v.daily_xlm || is_some v.per_tx_xlm) && within_daily v))

abbrev cap_schema : TokenAmount → Bool
cap_schema cap = is_contract_address cap.token && base_units cap.amount_base_units

abbrev pub caps_schema : List TokenAmount → Bool
caps_schema caps =
    leb (length caps) max_rule_entries
    && (every cap_schema caps && unique_items (map (λ cap. cap.token) caps))

abbrev pub tokens_schema : List String → Bool
tokens_schema tokens =
    leb 1 (length tokens)
    && (leb (length tokens) max_rule_entries
        && (every is_contract_address tokens && unique_items tokens))

unfoldable pub safety_rules_schema : SafetyRules → Bool
safety_rules_schema rules =
    optional caps_schema rules.max_single_transfer && optional tokens_schema rules.allowed_tokens

unfoldable pub token_budget_schema : TokenBudget → Bool
token_budget_schema budget =
    is_contract_address budget.token
    && (base_units budget.amount_base_units && optional window_seconds budget.window_seconds)

abbrev pub owners_schema : List String → Bool
owners_schema owners = leb 1 (length owners) && (every is_address owners && unique_items owners)

-- The fields that every template knows.
abbrev pub base_schema : PolicyDefinition → Bool
base_schema d =
    str_eq d.version "1" && (optional (λ v. leb 1 v) d.schema_version && owners_schema d.owners)

abbrev pub no_fields : PolicyDefinition → Bool
no_fields d =
    absent d.threshold
    && (absent d.spending_limits
        && (absent d.allowlisted_contracts
            && (absent d.timelocks
                && (absent d.safety_rules && (absent d.token_budget && absent d.provenance)))))

module _ (publisher_id_for : String → Option String) where
  abbrev pub publisher_schema : String → Bool
  publisher_schema v =
      leb 1 (utf16_length (trim v))
      && (leb (utf16_length (trim v)) 200 && is_some (publisher_id_for (trim v)))

  abbrev pub publishers_schema : ProvenanceMode → Option (List String) → Bool
  publishers_schema strict publishers = absent publishers
  publishers_schema trusted_publishers publishers =
      required
        (λ ps.
          leb 1 (length ps)
          && (leb (length ps) max_trusted_publishers && every publisher_schema ps))
        publishers

  unfoldable pub provenance_schema : Provenance → Bool
  provenance_schema p = publishers_schema p.mode p.publishers

  -- What each template's schema asks beside the common fields. It is strict: without the fields it
  -- knows, none is left.
  abbrev pub own_schema : String → PolicyDefinition → Bool
  own_schema type d =
      if str_eq type "single_owner"
      then length d.owners == 1 && no_fields d
      else if str_eq type "multisig_threshold"
      then required (λ n. leb 2 n && leb n (length d.owners)) d.threshold
        && (leb 2 (length d.owners) && no_fields (record d { threshold = none }))
      else if str_eq type "spending_limit"
      then required spending_limits_schema d.spending_limits
        && (optional safety_rules_schema d.safety_rules
            && no_fields (record d { spending_limits = none; safety_rules = none }))
      else if str_eq type "token_spending_limit"
      then required token_budget_schema d.token_budget
        && no_fields (record d { token_budget = none })
      else if str_eq type "contract_allowlist"
      then required (λ cs. leb 1 (length cs) && (every is_contract_address cs && unique_items cs))
          d.allowlisted_contracts
        && no_fields (record d { allowlisted_contracts = none })
      else if str_eq type "verified_only"
      then optional provenance_schema d.provenance && no_fields (record d { provenance = none })
      else if str_eq type "timelock"
      then required (λ delay. required window_seconds delay) d.timelocks
        && no_fields (record d { timelocks = none })
      else false

  unfoldable pub template_schema : String → PolicyDefinition → Bool
  template_schema type d = base_schema d && own_schema type d

  -- safeParse with the schema of the template found
  abbrev pub accepted : PolicyDefinition → Option PolicyTemplate → Bool
  accepted d none = false
  accepted d (some template) = template_schema template.template_type d

  unfoldable pub validate_definition : PolicyDefinition → Option ℕ → Bool
  unfolding get_template template_schema
  validate_definition d override =
      if str_eq d.policy_type ""
      then false
      else accepted d (get_template d.policy_type (or_else override d.schema_version))

  unfoldable pub validate_deployed_policy : PolicyDefinition → Option ℕ → Bool
  unfolding validate_definition
  validate_deployed_policy d recorded = validate_definition d (or_else recorded d.schema_version)
