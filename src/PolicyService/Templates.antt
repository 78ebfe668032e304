-- ===== src/PolicyService/Templates.antt =====
-- services/policy-service/src/templates.ts, with the definition of @vellar/types: from a
-- policy's definition to the arguments of its contract. The ids of publishers and the hash of a
-- definition, which rest on SHA-256, are arguments. Titles and descriptions of templates and the
-- messages of errors are left out.
pub mod Registry
pub mod Schema
pub mod Amounts
pub mod Generated
mod Tests
use vellar_dapp.Prelude.{
  ltb, ◌==◌, if◌then◌else◌, get_or, is_some, length, take, dedupe_from, ℕ, ◌+◌, ◌-◌, ◌*◌, String,
  Bool, not, ◌&&◌, Option, none, some, List, [], ◌∷◌, ◌++◌, str_eq, Result, ok, err, ◌>>=◌, ◌>>◌,
  map_result, codes,
}

pub record SpendingLimits : Type 0 where
  pub daily_xlm : Option String
  pub per_tx_xlm : Option String

pub record TokenAmount : Type 0 where
  pub token : String
  pub amount_base_units : String

pub record SafetyRules : Type 0 where
  pub max_single_transfer : Option (List TokenAmount)
  pub allowed_tokens : Option (List String)

pub record TokenBudget : Type 0 where
  pub token : String
  pub amount_base_units : String
  pub window_seconds : Option ℕ

pub data ProvenanceMode : Type 0 where
  strict trusted_publishers : ProvenanceMode

pub record Provenance : Type 0 where
  pub mode : ProvenanceMode
  pub publishers : Option (List String)

-- `type` is `policy_type`; `timelocks` holds its delay.
pub record PolicyDefinition : Type 0 where
  pub version : String
  pub schema_version : Option ℕ
  pub policy_type : String
  pub owners : List String
  pub threshold : Option ℕ
  pub spending_limits : Option SpendingLimits
  pub allowlisted_contracts : Option (List String)
  pub timelocks : Option (Option ℕ)
  pub safety_rules : Option SafetyRules
  pub token_budget : Option TokenBudget
  pub provenance : Option Provenance

-- What follows the first `.` and precedes the second.
abbrev before_dot : List ℕ → List ℕ
before_dot [] = []
before_dot (c ∷ cs) = if c == 46 then [] else c ∷ before_dot cs

abbrev after_dot : List ℕ → List ℕ
after_dot [] = []
after_dot (c ∷ cs) = let rest = after_dot cs in if c == 46 then before_dot cs else rest

-- BigInt(text), for digits
abbrev pub digits_value : ℕ → List ℕ → ℕ
digits_value n [] = n
digits_value n (c ∷ cs) = digits_value (n * 10 + (c - 48)) cs

abbrev pub seven_zeros : List ℕ
seven_zeros = codes "0000000"

abbrev pub stroops_per_xlm : ℕ
stroops_per_xlm = 10000000

unfoldable pub stroops_of_codes : List ℕ → ℕ
stroops_of_codes cs =
    digits_value 0 (before_dot cs) * stroops_per_xlm
    + digits_value 0 (take 7 (after_dot cs ++ seven_zeros))

unfoldable pub xlm_to_stroops : String → ℕ
unfolding stroops_of_codes
xlm_to_stroops xlm = stroops_of_codes (codes xlm)

pub record SafetyRulesConstructor : Type 0 where
  pub max_single_transfer : List TokenAmount
  pub allowed_tokens : Option (List String)

pub data ConstructorArgs : Type 0 where
  spending : ℕ → ℕ → Option SafetyRulesConstructor → ConstructorArgs
  token_spending : String → String → ℕ → ConstructorArgs
  verified_recipient : String → ProvenanceMode → List String → ConstructorArgs

pub data Enforcement : Type 0 where
  policy_contract : String → Option ConstructorArgs → Enforcement
  signer_limits no_enforcement custom_contract_pending : Enforcement

pub data GenerateError : Type 0 where
  unknown_policy_type no_limit no_token_budget unattributable_publisher : GenerateError

abbrev pub default_window_seconds : ℕ
default_window_seconds = 86400

abbrev pub attestation_registry_id : String
attestation_registry_id = "CDYLXSYEE7CSPM3JTU52TODQWVUMDUZVFIDPEAVGDCBO7Q4YFKYHHR4W"

abbrev pub spending_policy_wasm_hash : String
spending_policy_wasm_hash = "c42ab9b52c977a3ba29ca3e848dda499e91180e0c01de86a7e21e241989fcbdf"

abbrev pub verified_recipient_wasm_hash : String
verified_recipient_wasm_hash = "ef07b922670bab0f2c15c48bc96a3af0d858250c785536dde3e49d6ead690def"

abbrev pub token_spending_policy_wasm_hash : String
token_spending_policy_wasm_hash = "7756ebbd6423a225692a529ca1294bc74e40bc7265184265dcd9bfc2e6a09c5e"

-- `x ?? y` of two fields that may be absent.
abbrev pub or_else {ℓ} : {A : Type ℓ} → Option A → Option A → Option A
or_else none y = y
or_else (some a) y = some a

abbrev pub rules_of : Option SafetyRules → Option SafetyRulesConstructor
rules_of none = none
rules_of (some rules) =
    let caps = get_or rules.max_single_transfer [] in
    if length caps == 0 && not (is_some rules.allowed_tokens)
    then none
    else some (record { max_single_transfer = caps; allowed_tokens = rules.allowed_tokens })

unfoldable pub derive_safety_rules : PolicyDefinition → Option SafetyRulesConstructor
derive_safety_rules definition = rules_of definition.safety_rules

-- An absent cap and an empty text are both refused.
abbrev pub cap_of : Option SpendingLimits → Option String
cap_of none = none
cap_of (some limits) = or_else limits.daily_xlm limits.per_tx_xlm

abbrev pub spending_args :
    Option SafetyRulesConstructor → Option String → Result GenerateError ConstructorArgs
spending_args rules none = err no_limit
spending_args rules (some cap) =
    if str_eq cap ""
    then err no_limit
    else ok (spending (xlm_to_stroops cap) default_window_seconds rules)

unfoldable pub derive_spending_constructor : PolicyDefinition → Result GenerateError ConstructorArgs
unfolding xlm_to_stroops derive_safety_rules
derive_spending_constructor definition =
    spending_args (derive_safety_rules definition) (cap_of definition.spending_limits)

unfoldable pub derive_token_spending_constructor :
    PolicyDefinition → Result GenerateError ConstructorArgs
derive_token_spending_constructor definition = elim definition.token_budget [
  | none ↦ err no_token_budget
  | some budget ↦ ok (
      token_spending budget.token budget.amount_base_units
        (get_or budget.window_seconds default_window_seconds))
]

module _ (publisher_id_for : String → Option String) where
  abbrev pub id_of_publisher : String → Result GenerateError String
  id_of_publisher p = elim (publisher_id_for p) [
    | none ↦ err unattributable_publisher
    | some id ↦ ok id
  ]

  abbrev pub verified_args :
      ProvenanceMode → Option (List String) → Result GenerateError ConstructorArgs
  verified_args strict publishers = ok (verified_recipient attestation_registry_id strict [])
  verified_args trusted_publishers publishers = do
    ids ← map_result id_of_publisher (get_or publishers [])
    ok (verified_recipient attestation_registry_id trusted_publishers (dedupe_from [] ids))

  unfoldable pub derive_verified_recipient_constructor :
      PolicyDefinition → Result GenerateError ConstructorArgs
  derive_verified_recipient_constructor definition =
      let provenance = get_or definition.provenance (record { mode = strict; publishers = none }) in
      verified_args provenance.mode provenance.publishers

  -- What generatePolicy bakes into a contract's enforcement, by the policy's type.
  unfoldable pub enforce : PolicyDefinition → Enforcement → Result GenerateError Enforcement
  unfolding derive_spending_constructor derive_token_spending_constructor
      derive_verified_recipient_constructor
  enforce definition (policy_contract wasm_hash args) =
      let with_args = λ (a : ConstructorArgs). policy_contract wasm_hash (some a) in
      if str_eq definition.policy_type "spending_limit"
      then (do a ← derive_spending_constructor definition; ok (with_args a))
      else if str_eq definition.policy_type "token_spending_limit"
      then (do a ← derive_token_spending_constructor definition; ok (with_args a))
      else if str_eq definition.policy_type "verified_only"
      then (do a ← derive_verified_recipient_constructor definition; ok (with_args a))
      else ok (policy_contract wasm_hash args)
  enforce definition enforcement = ok enforcement

pub record GeneratedPolicy : Type 0 where
  pub definition : PolicyDefinition
  pub policy_hash : String
  pub schema_version : ℕ
  pub template : String
  pub enforcement : Enforcement
  pub mainnet : Bool

-- A template's type, version and enforcement; its schema is in `Schema`.
pub record PolicyTemplate : Type 0 where
  pub template_type : String
  pub schema_version : ℕ
  pub enforcement : Enforcement

abbrev template_of : String → Enforcement → PolicyTemplate
template_of t e = record { template_type = t; schema_version = 1; enforcement = e }

abbrev pub templates : List PolicyTemplate
templates =
    template_of "single_owner" no_enforcement
    ∷ template_of "multisig_threshold" signer_limits
    ∷ template_of "spending_limit" (policy_contract spending_policy_wasm_hash none)
    ∷ template_of "token_spending_limit" (policy_contract token_spending_policy_wasm_hash none)
    ∷ template_of "contract_allowlist" signer_limits
    ∷ template_of "verified_only" (policy_contract verified_recipient_wasm_hash none)
    ∷ template_of "timelock" custom_contract_pending
    ∷ []

abbrev pub find_template : String → ℕ → List PolicyTemplate → Option PolicyTemplate
find_template type version [] = none
find_template type version (t ∷ ts) =
    if str_eq t.template_type type && t.schema_version == version
    then some t
    else find_template type version ts

-- The first of the latest version: the head of the sort by falling versions.
abbrev pub latest_template : String → List PolicyTemplate → Option PolicyTemplate
latest_template type [] = none
latest_template type (t ∷ ts) =
    let rest = latest_template type ts in
    if str_eq t.template_type type
    then elim rest [
      | none ↦ some t
      | some u ↦ if ltb t.schema_version u.schema_version then some u else some t
    ]
    else rest

unfoldable pub get_template : String → Option ℕ → Option PolicyTemplate
get_template type none = latest_template type templates
get_template type (some version) = find_template type version templates

module _ (publisher_id_for : String → Option String) (policy_hash : PolicyDefinition → String) where
  abbrev pub generated_as : PolicyDefinition → Bool → PolicyTemplate → Enforcement → GeneratedPolicy
  generated_as definition mainnet template enforcement =
      let versioned = record definition { schema_version = some template.schema_version } in
      record {
        definition = versioned;
        policy_hash = policy_hash versioned;
        schema_version = template.schema_version;
        template = template.template_type;
        enforcement = enforcement;
        mainnet = mainnet;
      }

  abbrev pub generate_from :
      PolicyDefinition → Bool → Option PolicyTemplate → Result GenerateError GeneratedPolicy
  generate_from definition mainnet none = err unknown_policy_type
  generate_from definition mainnet (some template) = do
    enforcement ← enforce publisher_id_for definition template.enforcement
    ok (generated_as definition mainnet template enforcement)

  unfoldable pub generate_policy : PolicyDefinition → Bool → Result GenerateError GeneratedPolicy
  generate_policy definition mainnet =
      generate_from definition mainnet
        (get_template definition.policy_type (some (get_or definition.schema_version 1)))
