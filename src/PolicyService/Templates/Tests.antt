-- ===== src/PolicyService/Templates/Tests.antt =====
-- Definitions for each kind of policy, and what is generated for them.
use vellar_dapp.ServiceKit.Publisher.{canonical_publisher, publisher_id_for}
use vellar_dapp.PolicyService.Templates.{
  trusted_publishers, PolicyDefinition, stroops_of_codes, xlm_to_stroops, verified_recipient,
  policy_contract, attestation_registry_id, derive_verified_recipient_constructor, enforce,
  GeneratedPolicy, get_template, generate_policy,
}
use vellar_dapp.PolicyService.Templates.Schema.{
  is_address, is_contract_address, base_units, positive_xlm_amount, spending_limits_schema,
  safety_rules_schema, provenance_schema, template_schema, validate_definition,
  validate_deployed_policy,
}
use vellar_dapp.PolicyService.Templates.Generated.{IsEnforced, publisher_ids, generate_policy_lem}
use vellar_dapp.Prelude.{
  if◌then◌else◌, ◌^◌, String, ◌<>◌, ◌≡◌, refl, Bool, true, false, Option, none, some, [], ◌∷◌,
  str_eq, to_lower, ok, trim, is_digits, to_number, utf16_length,
}

abbrev owner : String
owner = "GAAAAAAAAAAAAAAAAAAAAAAAAAAAAAAAAAAAAAAAAAAAAAAAAAAAAAAA"

abbrev token : String
token = "CAAAAAAAAAAAAAAAAAAAAAAAAAAAAAAAAAAAAAAAAAAAAAAAAAAAAAAA"

abbrev bare : String → PolicyDefinition
bare type = record {
  version = "1";
  schema_version = none;
  policy_type = type;
  owners = owner ∷ [];
  threshold = none;
  spending_limits = none;
  allowlisted_contracts = none;
  timelocks = none;
  safety_rules = none;
  token_budget = none;
  provenance = none;
}

abbrev limited : Option String → Option String → PolicyDefinition
limited daily per_tx = record (bare "spending_limit") {
  spending_limits = some (record { daily_xlm = daily; per_tx_xlm = per_tx });
  safety_rules = some (record {
    max_single_transfer = some (record { token = token; amount_base_units = "500" } ∷ []);
    allowed_tokens = some (token ∷ []);
  });
}

abbrev no_publishers : String → Option String
no_publishers s = none

abbrev valid : PolicyDefinition → Bool
valid d = validate_definition no_publishers d none

amounts : (xlm_to_stroops "12.5" ≡ 125000000) × (xlm_to_stroops "0.0000001" ≡ 1)
unfolding xlm_to_stroops stroops_of_codes
amounts = (refl, refl)

caps_run :
    (valid (limited (some "12.5") (some "2")) ≡ true)
    × (valid (limited (some "12.5") (some "13")) ≡ false)
    × (valid (limited none none) ≡ false)
    × (valid (limited (some "1.00000001") none) ≡ false)
    × (valid (limited (some "0.0") none) ≡ false)
unfolding validate_definition get_template template_schema spending_limits_schema
    positive_xlm_amount xlm_to_stroops stroops_of_codes safety_rules_schema is_contract_address
    is_address base_units is_digits to_number
caps_run = (refl, refl, refl, refl, refl)

-- The amount of a token's budget is held to the range of i128; a daily cap is not.
beyond_i128 :
    (valid (limited (some "17014118346046923173168730371588.4105728") none) ≡ true)
    × (xlm_to_stroops "17014118346046923173168730371588.4105728" ≡ 2 ^ 127)
    × (base_units "170141183460469231731687303715884105728" ≡ false)
unfolding validate_definition get_template template_schema spending_limits_schema
    positive_xlm_amount xlm_to_stroops stroops_of_codes safety_rules_schema is_contract_address
    is_address base_units is_digits to_number
beyond_i128 = (refl, refl, refl)

templates_run :
    (valid (bare "single_owner") ≡ true)
    × (valid (record (bare "multisig_threshold") { threshold = some 2 }) ≡ false)
    × (valid (record (bare "contract_allowlist") { allowlisted_contracts = some (token ∷ []) })
        ≡ true)
    × (valid (record (bare "timelock") { timelocks = some (some 60) }) ≡ true)
    × (valid (record (bare "timelock") { timelocks = some (some 60); threshold = some 2 }) ≡ false)
    × (valid (record (bare "single_owner") { schema_version = some 2 }) ≡ false)
unfolding validate_definition get_template template_schema is_contract_address is_address
templates_run = (refl, refl, refl, refl, refl, refl)

abbrev example_url : String → Option (String × String)
example_url s =
    if str_eq s "https://github.com/Vellar-Wallet"
    then some ("github.com", "/Vellar-Wallet")
    else none

abbrev example_id : String → String
example_id s = "id of " <> s

abbrev example_hash : PolicyDefinition → String
example_hash d = "hash of " <> d.policy_type

abbrev trusting : PolicyDefinition
trusting = record (bare "verified_only") {
  provenance = some (record {
    mode = trusted_publishers;
    publishers = some (" github.com/Vellar-Wallet " ∷ "github.com/Vellar-Wallet" ∷ []);
  });
}

trusting_valid : validate_definition (publisher_ids example_url example_id) trusting none ≡ true
unfolding validate_definition get_template template_schema is_address provenance_schema
    publisher_id_for canonical_publisher trim utf16_length to_lower
trusting_valid = refl

generate_policy_lem_example :
    (g : GeneratedPolicy) × (generate_policy
        (publisher_ids example_url example_id)
        example_hash
        trusting
        false
      ≡ ok g)
    × IsEnforced trusting g.enforcement
    × (g.definition ≡ record trusting { schema_version = some 1 })
    × (validate_deployed_policy
          (publisher_ids example_url example_id)
          g.definition
          (some g.schema_version)
        ≡ true)
generate_policy_lem_example =
    generate_policy_lem example_url example_id example_hash trusting false trusting_valid

generated_args :
    enforce (publisher_ids example_url example_id) trusting (policy_contract "wasm" none)
    ≡ ok (
        policy_contract "wasm" (
          some (
            verified_recipient attestation_registry_id trusted_publishers
              ("id of github.com/vellar-wallet" ∷ []))))
unfolding enforce derive_verified_recipient_constructor publisher_id_for canonical_publisher trim
    to_lower
generated_args = refl
