-- ===== src/Web/AgentGrants/Tests.antt =====
-- apps/web/lib/agent-grants.ts: one agent's key with a budget for one token.
use vellar_dapp.JsMap
use vellar_dapp.Web.AgentGrants.{
  verified_only, AgentGrantInput, over_balance, parse_base_units, assert_budget_within_balance,
  check_mode, grant_of, build_agent_grants,
}
use vellar_dapp.Web.AgentGrants.Checked.{IsApproved, build_agent_grants_iff}
use vellar_dapp.Prelude.{
  String, ◌≡◌, refl, ◌↔◌, Bool, not, [], ◌∷◌, str_eq, ok, err, trim, is_digits, to_number,
}

abbrev any_text : String → Bool
any_text s = not (str_eq s "")

abbrev one_token : AgentGrantInput
one_token = record {
  budgets = ("CTOKEN", "CLIMIT" ∷ "CLIMIT" ∷ []) ∷ [];
  budget_amounts = ("CTOKEN", " 500 ") ∷ [];
  spendable_balances = ("CTOKEN", "500") ∷ [];
  verification = verified_only "CVERIFIED";
}

grants_both :
    build_agent_grants any_text one_token
    ≡ ok (
      record { token = "CTOKEN"; policies = "CLIMIT" ∷ "CVERIFIED" ∷ [] } ∷ [],
      record { mode = verified_only "CVERIFIED"; tokens = "CTOKEN" ∷ [] },
    )
unfolding build_agent_grants check_mode grant_of assert_budget_within_balance parse_base_units trim
    is_digits to_number JsMap.get
grants_both = refl

over_budget :
    build_agent_grants any_text (record one_token { budget_amounts = ("CTOKEN", "501") ∷ [] })
    ≡ err (over_balance 501 500 "CTOKEN")
unfolding build_agent_grants check_mode grant_of assert_budget_within_balance parse_base_units trim
    is_digits to_number JsMap.get
over_budget = refl

build_agent_grants_iff_example :
    (build_agent_grants any_text one_token
      ≡ ok (
        record { token = "CTOKEN"; policies = "CLIMIT" ∷ "CVERIFIED" ∷ [] } ∷ [],
        record { mode = verified_only "CVERIFIED"; tokens = "CTOKEN" ∷ [] },
      ))
    ↔ IsApproved any_text one_token
        (record { token = "CTOKEN"; policies = "CLIMIT" ∷ "CVERIFIED" ∷ [] } ∷ [])
        (record { mode = verified_only "CVERIFIED"; tokens = "CTOKEN" ∷ [] })
build_agent_grants_iff_example =
    build_agent_grants_iff any_text one_token
      (record { token = "CTOKEN"; policies = "CLIMIT" ∷ "CVERIFIED" ∷ [] } ∷ [])
      (record { mode = verified_only "CVERIFIED"; tokens = "CTOKEN" ∷ [] })
