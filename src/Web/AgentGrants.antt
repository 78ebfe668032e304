-- ===== src/Web/AgentGrants.antt =====
-- apps/web/lib/agent-grants.ts: the grants of an agent's key. The objects by token are maps in the
-- order of insertion (a contract's address is no integer, which JavaScript would list first);
-- `StrKey.isValidContract` of the Stellar SDK is an argument. An error is the check that failed.
pub mod Checked
mod Tests
use vellar_dapp.JsMap
use vellar_dapp.JsMap.{JsMap}
use vellar_dapp.Prelude.{
  ltb, leb, ◌==◌, get_or, length, includes, dedupe_from, ℕ, String, Bool, true, false, not, ◌&&◌,
  Option, none, some, List, [], ◌∷◌, ◌++◌, map, str_eq, Result, ok, err, ◌>>=◌, ◌>>◌, map_result,
  trim, is_digits, to_number, utf16_length,
}

pub data AgentVerificationMode : Type 0 where
  verified_only : String → AgentVerificationMode
  unrestricted : String → AgentVerificationMode

pub record AgentGrantInput : Type 0 where
  pub budgets : JsMap (List String)
  pub budget_amounts : JsMap String
  pub spendable_balances : JsMap String
  pub verification : AgentVerificationMode

-- The mode with what the human approved: the policy, or the reason.
pub record AgentTrustDecision : Type 0 where
  pub mode : AgentVerificationMode
  pub tokens : List String

pub record AgentPolicyGrant : Type 0 where
  pub token : String
  pub policies : List String

pub data AgentGrantError : Type 0 where
  no_token invalid_verified_only_policy no_reason long_reason invalid_token : AgentGrantError
  no_spending_policy invalid_spending_policy verified_only_doubles : AgentGrantError
  no_budget_amount no_spendable_balance malformed_budget malformed_balance : AgentGrantError
  over_balance : ℕ → ℕ → String → AgentGrantError

abbrev pub Checked : Type 0 → Type 0
Checked = Result AgentGrantError

abbrev pub require : Bool → AgentGrantError → Checked (Unit {0})
require true e = ok tt
require false e = err e

abbrev pub max_reason_length : ℕ
max_reason_length = 200

unfoldable pub parse_base_units : String → AgentGrantError → Checked ℕ
parse_base_units raw e = do require (is_digits (trim raw)) e; ok (to_number (trim raw))

abbrev pub present : Option String → AgentGrantError → Checked String
present none e = err e
present (some s) e = ok s

unfoldable pub assert_budget_within_balance : String → AgentGrantInput → Checked (Unit {0})
assert_budget_within_balance token input = do
  raw_budget ← present (JsMap.get token input.budget_amounts) no_budget_amount
  raw_balance ← present (JsMap.get token input.spendable_balances) no_spendable_balance
  budget ← parse_base_units raw_budget malformed_budget
  spendable ← parse_base_units raw_balance malformed_balance
  require (not (ltb spendable budget)) (over_balance budget spendable token)

-- The mode of the decision: its reason is trimmed.
abbrev pub approved : AgentVerificationMode → AgentVerificationMode
approved (verified_only policy) = verified_only policy
approved (unrestricted reason) = unrestricted (trim reason)

abbrev pub doubles : AgentVerificationMode → List String → Bool
doubles (verified_only policy) budget = includes budget policy
doubles (unrestricted reason) budget = false

abbrev pub co_signers : AgentVerificationMode → List String → List String
co_signers (verified_only policy) budget = budget ++ policy ∷ []
co_signers (unrestricted reason) budget = budget

module _ (is_valid_contract : String → Bool) where
  unfoldable pub check_mode : AgentVerificationMode → Checked (Unit {0})
  check_mode (verified_only policy) =
      require (is_valid_contract policy) invalid_verified_only_policy
  check_mode (unrestricted reason) = do
    require (not (str_eq (trim reason) "")) no_reason
    require (leb (utf16_length (trim reason)) max_reason_length) long_reason

  abbrev pub all_valid : List String → Bool
  all_valid [] = true
  all_valid (p ∷ ps) = is_valid_contract p && all_valid ps

  -- The body of `tokens.map`.
  unfoldable pub grant_of : AgentGrantInput → String → Checked AgentPolicyGrant
  grant_of input token = do
    let budget = dedupe_from [] (get_or (JsMap.get token input.budgets) [])
    require (is_valid_contract token) invalid_token
    require (not (length budget == 0)) no_spending_policy
    require (all_valid budget) invalid_spending_policy
    require (not (doubles input.verification budget)) verified_only_doubles
    assert_budget_within_balance token input
    ok (record { token = token; policies = co_signers input.verification budget })

  unfoldable pub build_agent_grants :
      AgentGrantInput → Checked (List AgentPolicyGrant × AgentTrustDecision)
  build_agent_grants input = do
    let tokens = map (λ (e : String × List String). e.0) input.budgets
    require (not (length tokens == 0)) no_token
    check_mode input.verification
    grants ← map_result (grant_of input) tokens
    ok (grants, record { mode = approved input.verification; tokens = tokens })
