-- ===== src/PolicyService/Templates/Generated.antt =====
-- What services/policy-service/src/templates.ts generates from a definition that it validates.
use vellar_dapp.ServiceKit.Publisher.{publisher_id_for, publisher_id_for-trim}
use vellar_dapp.PolicyService.Templates.{
  TokenBudget, ProvenanceMode, strict, trusted_publishers, Provenance, PolicyDefinition,
  xlm_to_stroops, ConstructorArgs, spending, token_spending, verified_recipient, Enforcement,
  policy_contract, signer_limits, no_enforcement, custom_contract_pending, GenerateError,
  default_window_seconds, attestation_registry_id, spending_policy_wasm_hash,
  verified_recipient_wasm_hash, token_spending_policy_wasm_hash, rules_of, derive_safety_rules,
  spending_args, derive_spending_constructor, derive_token_spending_constructor, verified_args,
  derive_verified_recipient_constructor, enforce, GeneratedPolicy, PolicyTemplate, get_template,
  generated_as, generate_from, generate_policy,
}
use vellar_dapp.PolicyService.Templates.Schema.{
  every, optional, required, is_contract_address, max_trusted_publishers, base_units,
  window_seconds, spending_limits_schema, safety_rules_schema, token_budget_schema, base_schema,
  publisher_schema, publishers_schema, provenance_schema, own_schema, template_schema, accepted,
  validate_definition, validate_deployed_policy,
}
use vellar_dapp.PolicyService.Templates.Amounts.{
  IsCap, cap_of-IsCap, WithinTables, rules_of-WithinTables, publishers-ok, length-dedupe_from,
}
use vellar_dapp.PolicyService.Templates.Registry.{get_template-one, by_type}
use vellar_dapp.Prelude.{
  leb, if◌then◌else◌, Bool-cases, Option-cases, get_or, length, dedupe_from, ℕ, ◌≤◌, String, ◌≡◌,
  refl, sym, ap, ◌∙◌, subst, ◌⊎◌, inl, inr, Bool, true, false, Option, none, some, List, [], ◌∷◌,
  arith, str_eq, eq_iff, and-eq-true, Result, ok, ◌>>=◌, trim,
}

abbrev pub mode_in : Option Provenance → ProvenanceMode
mode_in none = strict
mode_in (some p) = p.mode

abbrev pub mode_of : PolicyDefinition → ProvenanceMode
mode_of d = mode_in d.provenance

abbrev pub AreTrusted : ProvenanceMode → List String → Type 0
AreTrusted strict ids = ids ≡ []
AreTrusted trusted_publishers ids = (1 ≤ length ids) × (length ids ≤ max_trusted_publishers)

-- The contract's code and the arguments of its constructor, by the policy's type and what its
-- definition gives, within the bounds that the contract sets.
abbrev pub AreArguments : PolicyDefinition → String → ConstructorArgs → Type 0
AreArguments d wasm_hash (spending limit window rules) =
    (d.policy_type ≡ "spending_limit")
    × (wasm_hash ≡ spending_policy_wasm_hash)
    × ((cap : String) × IsCap d.spending_limits cap × (limit ≡ xlm_to_stroops cap))
    × (window ≡ default_window_seconds)
    × (rules ≡ rules_of d.safety_rules)
    × WithinTables rules
AreArguments d wasm_hash (token_spending token amount window) =
    (d.policy_type ≡ "token_spending_limit")
    × (wasm_hash ≡ token_spending_policy_wasm_hash)
    × ((budget : TokenBudget) × (d.token_budget ≡ some budget)
        × (token ≡ budget.token)
        × (amount ≡ budget.amount_base_units)
        × (window ≡ get_or budget.window_seconds default_window_seconds))
    × (is_contract_address token ≡ true)
    × (base_units amount ≡ true)
    × (window_seconds window ≡ true)
AreArguments d wasm_hash (verified_recipient registry mode ids) =
    (d.policy_type ≡ "verified_only")
    × (wasm_hash ≡ verified_recipient_wasm_hash)
    × (registry ≡ attestation_registry_id)
    × (mode ≡ mode_of d)
    × AreTrusted mode ids

-- A contract has its arguments; the other policies have none, and are of other types.
abbrev pub IsEnforced : PolicyDefinition → Enforcement → Type 0
IsEnforced d (policy_contract wasm_hash (some args)) = AreArguments d wasm_hash args
IsEnforced d (policy_contract wasm_hash none) = ⊥
IsEnforced d signer_limits =
    (d.policy_type ≡ "multisig_threshold") ⊎ (d.policy_type ≡ "contract_allowlist")
IsEnforced d no_enforcement = d.policy_type ≡ "single_owner"
IsEnforced d custom_contract_pending = d.policy_type ≡ "timelock"

dedupe_nonempty : (xs : List String) → 1 ≤ length xs → 1 ≤ length (dedupe_from [] xs)
dedupe_nonempty [] h = omega (arith, h)
dedupe_nonempty (x ∷ xs) h = omega arith

unless_empty : (b r : Bool) → (if b then false else r) ≡ true → r ≡ true
unless_empty true r h = absurd cc
unless_empty false r h = h

given_window :
    (o : Option ℕ)
    → optional window_seconds o ≡ true
    → window_seconds (get_or o default_window_seconds) ≡ true
given_window none h = refl
given_window (some n) h = h

module _ (pid : String → Option String) (trims : (s : String) → pid (trim s) ≡ pid s) where
  abbrev Enforces : PolicyDefinition → Option PolicyTemplate → Type 0
  Enforces d none = Unit
  Enforces d (some tpl) =
      (e : Enforcement) × (enforce pid d tpl.enforcement ≡ ok e) × IsEnforced d e

  abbrev EnforcesType : String → Type 0
  EnforcesType t =
      (d : PolicyDefinition)
      → d.policy_type ≡ t
      → own_schema pid t d ≡ true
      → Enforces d (get_template t (some 1))

  abbrev Derives : PolicyDefinition → String → Result GenerateError ConstructorArgs → Type 0
  Derives d wasm_hash r = (args : ConstructorArgs) × (r ≡ ok args) × AreArguments d wasm_hash args

  derive_spending :
      (d : PolicyDefinition)
      → d.policy_type ≡ "spending_limit"
      → own_schema pid "spending_limit" d ≡ true
      → Derives d spending_policy_wasm_hash (derive_spending_constructor d)
  unfolding derive_spending_constructor derive_safety_rules
  derive_spending d type h =
      let a = and-eq-true (required spending_limits_schema d.spending_limits) _ h in
      let b = and-eq-true (optional safety_rules_schema d.safety_rules) _ a.1 in
      let cap = cap_of-IsCap d.spending_limits a.0 in
      let isCap = cap.1 in
      (
        spending (xlm_to_stroops cap.0) default_window_seconds (rules_of d.safety_rules),
        ap (λ o. spending_args (rules_of d.safety_rules) o) isCap.0 ∙ rw isCap.1,
        (type, refl, (cap.0, isCap, refl), refl, refl, rules_of-WithinTables d.safety_rules b.0),
      )

  derive_budget :
      (budget : TokenBudget)
      → token_budget_schema budget ≡ true
      → (is_contract_address budget.token ≡ true)
        × (base_units budget.amount_base_units ≡ true)
        × (window_seconds (get_or budget.window_seconds default_window_seconds) ≡ true)
  unfolding token_budget_schema
  derive_budget budget h =
      let a = and-eq-true (is_contract_address budget.token) _ h in
      let b = and-eq-true (base_units budget.amount_base_units) _ a.1 in
      (a.0, b.0, given_window budget.window_seconds b.1)

  derive_token :
      (d : PolicyDefinition)
      → d.policy_type ≡ "token_spending_limit"
      → own_schema pid "token_spending_limit" d ≡ true
      → Derives d token_spending_policy_wasm_hash (derive_token_spending_constructor d)
  unfolding derive_token_spending_constructor
  derive_token d type h =
      let a = (and-eq-true (required token_budget_schema d.token_budget) _ h).0 in
      elim (Option-cases d.token_budget) [
        | inl e ↦
            let no : false ≡ true = subst (λ o. required token_budget_schema o ≡ true) e a in
            absurd cc
        | inr (budget, e) ↦
            let held = subst (λ o. required token_budget_schema o ≡ true) e a in
            let bounds = derive_budget budget held in
            (
              token_spending budget.token budget.amount_base_units
                  (get_or budget.window_seconds default_window_seconds),
              rw e,
              (type, refl, (budget, e, refl, refl, refl), bounds.0, bounds.1, bounds.2),
            )
      ]

  abbrev args_of : Provenance → Result GenerateError ConstructorArgs
  args_of p = verified_args pid p.mode p.publishers

  abbrev Recipients : ProvenanceMode → Result GenerateError ConstructorArgs → Type 0
  Recipients mode r =
      (ids : List String) × (r ≡ ok (verified_recipient attestation_registry_id mode ids))
      × AreTrusted mode ids

  trusted_args :
      (ps : List String)
      → 1 ≤ length ps
      → length ps ≤ max_trusted_publishers
      → every (publisher_schema pid) ps ≡ true
      → Recipients trusted_publishers (verified_args pid trusted_publishers (some ps))
  trusted_args ps least most h =
      let r = publishers-ok pid trims ps h in
      (
        dedupe_from [] r.0,
        rw r.1,
        (
          let same = r.2 in dedupe_nonempty r.0 (omega arith),
          let le = length-dedupe_from [] r.0 in let same = r.2 in omega arith,
        ),
      )

  verified_args_lem :
      (mode : ProvenanceMode) (ps : Option (List String))
      → publishers_schema pid mode ps ≡ true
      → Recipients mode (verified_args pid mode ps)
  verified_args_lem strict ps h = ([], refl, refl)
  verified_args_lem trusted_publishers none h = absurd cc
  verified_args_lem trusted_publishers (some ps) h =
      let a = and-eq-true (leb 1 (length ps)) _ h in
      let b = and-eq-true (leb (length ps) max_trusted_publishers) _ a.1 in
      let least = a.0 in
      let most = b.0 in trusted_args ps (ground (arith, least)) (ground (arith, most)) b.1

  derive_verified :
      (d : PolicyDefinition)
      → d.policy_type ≡ "verified_only"
      → own_schema pid "verified_only" d ≡ true
      → Derives d verified_recipient_wasm_hash (derive_verified_recipient_constructor pid d)
  unfolding derive_verified_recipient_constructor provenance_schema
  derive_verified d type h =
      let a = (and-eq-true (optional (provenance_schema pid) d.provenance) _ h).0 in
      elim (Option-cases d.provenance) [
        | inl e ↦ (
          verified_recipient attestation_registry_id strict [],
          rw e,
          (type, refl, refl, ap mode_in (sym e), refl),
        )
        | inr (p, e) ↦
            let r =
              verified_args_lem p.mode p.publishers
                (subst (λ o. optional (provenance_schema pid) o ≡ true) e a) in
            (
              verified_recipient attestation_registry_id p.mode r.0,
              ap (λ o. args_of (get_or o (record { mode = strict; publishers = none }))) e ∙ r.1,
              (type, refl, refl, ap mode_in (sym e), r.2),
            )
      ]

  spending_enforces : EnforcesType "spending_limit"
  unfolding get_template enforce
  spending_enforces d t h =
      let r = derive_spending d t h in
      (policy_contract spending_policy_wasm_hash (some r.0), simp (t, r.1), r.2)

  token_enforces : EnforcesType "token_spending_limit"
  unfolding get_template enforce
  token_enforces d t h =
      let r = derive_token d t h in
      (policy_contract token_spending_policy_wasm_hash (some r.0), simp (t, r.1), r.2)

  verified_enforces : EnforcesType "verified_only"
  unfolding get_template enforce
  verified_enforces d t h =
      let r = derive_verified d t h in
      (policy_contract verified_recipient_wasm_hash (some r.0), simp (t, r.1), r.2)

  enforces : (t : String) → EnforcesType t
  unfolding get_template enforce
  enforces t =
      by_type EnforcesType t (λ d t h. (no_enforcement, refl, t))
        (λ d t h. (signer_limits, refl, inl t)) spending_enforces token_enforces
        (λ d t h. (signer_limits, refl, inr t)) verified_enforces
        (λ d t h. (custom_contract_pending, refl, t))
        (λ e d t h. subst (λ o. Enforces d o) (sym e) tt)

  admitted :
      (d : PolicyDefinition) (tpl : PolicyTemplate)
      → get_template d.policy_type (some 1) ≡ some tpl
      → own_schema pid d.policy_type d ≡ true
      → Enforces d (some tpl)
  admitted d tpl eq h = subst (λ o. Enforces d o) eq (enforces d.policy_type d refl h)

  accepted_template :
      (d : PolicyDefinition) (o : Option PolicyTemplate)
      → accepted pid d o ≡ true
      → (tpl : PolicyTemplate) × (o ≡ some tpl) × (template_schema pid tpl.template_type d ≡ true)
  accepted_template d none h = absurd cc
  accepted_template d (some tpl) h = (tpl, refl, h)

  -- The template of a valid definition, and its schema.
  valid_template :
      (d : PolicyDefinition)
      → validate_definition pid d none ≡ true
      → (tpl : PolicyTemplate) × (get_template d.policy_type d.schema_version ≡ some tpl)
        × (template_schema pid tpl.template_type d ≡ true)
  unfolding validate_definition
  valid_template d h =
      accepted_template d (get_template d.policy_type d.schema_version)
        (unless_empty (str_eq d.policy_type "") _ h)

  -- The schema asks the same of a definition with its version written out.
  versioned_schema :
      (type : String) (d : PolicyDefinition)
      → template_schema pid type d ≡ true
      → template_schema pid type (record d { schema_version = some 1 }) ≡ true
  unfolding template_schema
  versioned_schema type d h =
      let a = and-eq-true (base_schema d) (own_schema pid type d) h in
      let b = and-eq-true (str_eq d.version "1") _ a.0 in
      let c = and-eq-true (optional (λ v. leb 1 v) d.schema_version) _ b.1 in rw (b.0, c.1, a.1)

  own_of_schema :
      (type : String) (d : PolicyDefinition)
      → template_schema pid type d ≡ true
      → own_schema pid type d ≡ true
  unfolding template_schema
  own_of_schema type d h = (and-eq-true (base_schema d) (own_schema pid type d) h).1

  -- A type that is empty has no template.
  named_type :
      (t : String) (tpl : PolicyTemplate) → get_template t (some 1) ≡ some tpl → str_eq t "" ≡ false
  unfolding get_template
  named_type t tpl eq = elim (Bool-cases (str_eq t "")) [
    | inl e ↦
        let none_found : none ≡ some tpl =
          subst (λ s. get_template s (some 1) ≡ some tpl) ((eq_iff t "").0 e) eq in
        absurd cc
    | inr e ↦ e
  ]

  deployed_valid :
      (d : PolicyDefinition) (tpl : PolicyTemplate)
      → get_template d.policy_type (some 1) ≡ some tpl
      → template_schema pid tpl.template_type d ≡ true
      → validate_deployed_policy pid (record d { schema_version = some 1 }) (some 1) ≡ true
  unfolding validate_deployed_policy validate_definition
  deployed_valid d tpl eq h =
      let again = versioned_schema tpl.template_type d h in
      rw (named_type d.policy_type tpl eq, eq, again)

  module _ (policy_hash : PolicyDefinition → String) where
    generates :
        (d : PolicyDefinition) (mainnet : Bool)
        → validate_definition pid d none ≡ true
        → (g : GeneratedPolicy) × (generate_policy pid policy_hash d mainnet ≡ ok g)
          × IsEnforced d g.enforcement
          × (g.definition ≡ record d { schema_version = some 1 })
          × (validate_deployed_policy pid g.definition (some g.schema_version) ≡ true)
    unfolding generate_policy
    generates d mainnet h =
        let v = valid_template d h in
        let tpl = v.0 in
        let one = get_template-one d.policy_type d.schema_version tpl v.1 in
        let own =
          subst (λ t. own_schema pid t d ≡ true) one.3 (own_of_schema tpl.template_type d v.2) in
        let e = admitted d tpl one.1 own in
        let asked : get_template d.policy_type (some (get_or d.schema_version 1)) ≡ some tpl =
          ap (λ n. get_template d.policy_type (some n)) one.0 ∙ one.1 in
        (
          generated_as pid policy_hash d mainnet tpl e.0,
          ap (λ o. generate_from pid policy_hash d mainnet o) asked
              ∙ ap (λ r. do en ← r; ok (generated_as pid policy_hash d mainnet tpl en)) e.1,
          e.2,
          ap (λ n. record d { schema_version = some n }) one.2,
          subst
              (λ n.
                validate_deployed_policy pid (record d { schema_version = some n }) (some n) ≡ true)
              (sym one.2) (deployed_valid d tpl one.1 v.2),
        )

module _ (parse_url : String → Option (String × String)) (publisher_id_hex : String → String) where
  abbrev pub publisher_ids : String → Option String
  publisher_ids = publisher_id_for parse_url publisher_id_hex

  -- For any URL parser and hash: a definition that `validate_definition` accepts is generated without
  -- an error. The generated policy is the definition with version 1, and it is valid again when it is
  -- checked as a deployed policy. Its enforcement is that of its type, and a contract gets its own
  -- code and arguments. Of type "spending_limit" it is the spending contract with the stroops of the
  -- daily cap, or of the cap per transfer where there is no daily one, at least one, a day's window
  -- and the definition's rule tables, within the contract's bounds; of type "token_spending_limit"
  -- the token contract with the token, amount and window of the definition's budget, of which the
  -- schema accepts each; of type "verified_only" the recipient contract with the pinned registry,
  -- the definition's mode and, in the mode of trusted publishers, between one and sixteen ids. No
  -- other type is enforced by a contract yet.
  pub generate_policy_lem :
      (policy_hash : PolicyDefinition → String) (d : PolicyDefinition) (mainnet : Bool)
      → validate_definition publisher_ids d none ≡ true
      → (g : GeneratedPolicy) × (generate_policy publisher_ids policy_hash d mainnet ≡ ok g)
        × IsEnforced d g.enforcement
        × (g.definition ≡ record d { schema_version = some 1 })
        × (validate_deployed_policy publisher_ids g.definition (some g.schema_version) ≡ true)
  generate_policy_lem policy_hash d mainnet h =
      generates publisher_ids (publisher_id_for-trim parse_url publisher_id_hex) policy_hash d
        mainnet h
