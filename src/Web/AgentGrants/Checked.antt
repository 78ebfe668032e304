-- ===== src/Web/AgentGrants/Checked.antt =====
-- apps/web/lib/agent-grants.ts: which grants are built.
use vellar_dapp.JsMap
use vellar_dapp.Web.AgentGrants.{
  AgentVerificationMode, verified_only, unrestricted, AgentGrantInput, AgentTrustDecision,
  AgentPolicyGrant, parse_base_units, assert_budget_within_balance, approved, doubles, co_signers,
  check_mode, all_valid, grant_of, build_agent_grants,
}
use vellar_dapp.Prelude.{
  ◌==◌, Option-cases, get_or, length, dedupe_from, ◌≤◌, ◌<◌, String, ◌≡◌, refl, ◌∙◌, ◌↔◌, inl, inr,
  Bool, true, false, not, includes, ◌++◌, some, List, [], ◌∷◌, map, arith, str_eq, ok, map_result,
  Result-cases, trim, is_digits, to_number, utf16_length,
}

-- The amounts of a token's check: both are whole numbers, and the budget is at most the balance.
pub record Covered (input : AgentGrantInput) (token : String) : Type 0 where
  pub raw_budget : String
  pub raw_balance : String
  pub budget_of : JsMap.get token input.budget_amounts ≡ some raw_budget
  pub balance_of : JsMap.get token input.spendable_balances ≡ some raw_balance
  pub budget_digits : is_digits (trim raw_budget) ≡ true
  pub balance_digits : is_digits (trim raw_balance) ≡ true
  pub within : to_number (trim raw_budget) ≤ to_number (trim raw_balance)

assert_budget_within_balance-Covered :
    (token : String) (input : AgentGrantInput)
    → assert_budget_within_balance token input ≡ ok tt
    → Covered input token
unfolding assert_budget_within_balance parse_base_units
assert_budget_within_balance-Covered token input h =
    elim (Option-cases (JsMap.get token input.budget_amounts)) [
      | inl a ↦ absurd (ground (arith, a, h))
      | inr (raw_budget, a) ↦ elim (Option-cases (JsMap.get token input.spendable_balances)) [
        | inl b ↦ absurd (ground (arith, a, b, h))
        | inr (raw_balance, b) ↦ record {
          raw_budget = raw_budget;
          raw_balance = raw_balance;
          budget_of = a;
          balance_of = b;
          budget_digits = ground (arith, a, b, h);
          balance_digits = ground (arith, a, b, h);
          within = ground (arith, a, b, h);
        }
      ]
    ]

Covered-assert :
    (token : String) (input : AgentGrantInput)
    → Covered input token
    → assert_budget_within_balance token input ≡ ok tt
unfolding assert_budget_within_balance parse_base_units
Covered-assert token input c =
    rw (c.budget_of, c.balance_of, c.budget_digits, c.balance_digits) (ground (arith, c.within))

-- The policies that sign with a key: in the verified-only mode its policy stands last, and is not one
-- of the spending policies.
abbrev pub AreSigners : AgentVerificationMode → List String → List String → Type 0
AreSigners (verified_only policy) budget policies =
    (includes budget policy ≡ false) × (policies ≡ budget ++ policy ∷ [])
AreSigners (unrestricted reason) budget policies = policies ≡ budget

co_signers-AreSigners :
    (mode : AgentVerificationMode) (budget policies : List String)
    → doubles mode budget ≡ false
    → policies ≡ co_signers mode budget
    → AreSigners mode budget policies
co_signers-AreSigners (verified_only policy) budget policies h k = (h, k)
co_signers-AreSigners (unrestricted reason) budget policies h k = k

AreSigners-co_signers :
    (mode : AgentVerificationMode) (budget policies : List String)
    → AreSigners mode budget policies
    → (doubles mode budget ≡ false) × (policies ≡ co_signers mode budget)
AreSigners-co_signers (verified_only policy) budget policies h = h
AreSigners-co_signers (unrestricted reason) budget policies h = (refl, h)

module _ (is_valid_contract : String → Bool) where
  -- The grant of a token: its spending policies are those of its budget without repetition.
  pub record IsGrant (input : AgentGrantInput) (token : String) (g : AgentPolicyGrant)
      : Type 0 where
    pub budget : List String
    pub budget_of : budget ≡ dedupe_from [] (get_or (JsMap.get token input.budgets) [])
    pub token_of : g.token ≡ token
    pub signers : AreSigners input.verification budget g.policies
    pub valid_token : is_valid_contract token ≡ true
    pub some_policy : 0 < length budget
    pub valid_policies : all_valid is_valid_contract budget ≡ true
    pub covered : Covered input token

  grant_of-IsGrant :
      (input : AgentGrantInput) (token : String) (g : AgentPolicyGrant)
      → grant_of is_valid_contract input token ≡ ok g
      → IsGrant input token g
  unfolding grant_of
  grant_of-IsGrant input token g h =
      let budget = dedupe_from [] (get_or (JsMap.get token input.budgets) []) in
      elim (Result-cases (assert_budget_within_balance token input)) [
        | inl (tt, covered) ↦ record {
          budget = budget;
          budget_of = refl;
          token_of = ground (arith, h, covered);
          signers =
              co_signers-AreSigners input.verification budget g.policies
                (ground (arith, h, covered)) (ground (arith, h, covered));
          valid_token = ground (arith, h, covered);
          some_policy = ground (arith, h, covered);
          valid_policies = ground (arith, h, covered);
          covered = assert_budget_within_balance-Covered token input covered;
        }
        | inr (e, failed) ↦ absurd (ground (arith, h, failed))
      ]

  IsGrant-grant_of :
      (input : AgentGrantInput) (token : String) (g : AgentPolicyGrant)
      → IsGrant input token g
      → grant_of is_valid_contract input token ≡ ok g
  unfolding grant_of
  IsGrant-grant_of input token g i =
      let budget = dedupe_from [] (get_or (JsMap.get token input.budgets) []) in
      let signers = AreSigners-co_signers input.verification i.budget g.policies i.signers in
      let policies_of = signers.1 in
      rw
        (
          i.valid_token,
          let e : not (length budget == 0) ≡ true = ground (arith, i.budget_of, i.some_policy) in e,
          let e : all_valid is_valid_contract budget ≡ true = rw (← i.budget_of) i.valid_policies in
              e,
          let e : doubles input.verification budget ≡ false = rw (← i.budget_of) signers.0 in e,
          Covered-assert token input i.covered,
        )
        (ground (arith, i.token_of, policies_of, i.budget_of))

  -- One grant for each token, in order.
  abbrev pub AreGrants : AgentGrantInput → List String → List AgentPolicyGrant → Type 0
  AreGrants input [] [] = Unit
  AreGrants input (token ∷ tokens) (g ∷ grants) =
      IsGrant input token g × AreGrants input tokens grants
  AreGrants input _ _ = ⊥

  map_result-AreGrants :
      (input : AgentGrantInput) (tokens : List String) (grants : List AgentPolicyGrant)
      → map_result (grant_of is_valid_contract input) tokens ≡ ok grants
      → AreGrants input tokens grants
  map_result-AreGrants input [] grants h = ground (arith, h)
  map_result-AreGrants input (token ∷ tokens) grants h =
      elim (Result-cases (grant_of is_valid_contract input token)) [
        | inr (e, a) ↦ absurd (ground (arith, a, h))
        | inl (g, a) ↦ elim (Result-cases (map_result (grant_of is_valid_contract input) tokens)) [
          | inr (e, b) ↦ absurd (ground (arith, a, b, h))
          | inl (more, b) ↦
              let e : grants ≡ g ∷ more = ground (arith, a, b, h) in
              rw e (grant_of-IsGrant input token g a, map_result-AreGrants input tokens more b)
        ]
      ]

  AreGrants-map_result :
      (input : AgentGrantInput) (tokens : List String) (grants : List AgentPolicyGrant)
      → AreGrants input tokens grants
      → map_result (grant_of is_valid_contract input) tokens ≡ ok grants
  AreGrants-map_result input [] [] h = refl
  AreGrants-map_result input [] (g ∷ grants) h = absurd h
  AreGrants-map_result input (token ∷ tokens) [] h = absurd h
  AreGrants-map_result input (token ∷ tokens) (g ∷ grants) (one, more) =
      rw (IsGrant-grant_of input token g one, AreGrants-map_result input tokens grants more) refl

  abbrev pub Allowed : AgentVerificationMode → Type 0
  Allowed (verified_only policy) = is_valid_contract policy ≡ true
  Allowed (unrestricted reason) =
      (str_eq (trim reason) "" ≡ false) × (utf16_length (trim reason) ≤ 200)

  check_mode_iff :
      (mode : AgentVerificationMode) → (check_mode is_valid_contract mode ≡ ok tt) ↔ Allowed mode
  unfolding check_mode
  check_mode_iff (verified_only policy) = (λ h. ground (arith, h), λ h. ground (arith, h))
  check_mode_iff (unrestricted reason) =
      (λ h. (ground (arith, h), ground (arith, h)), λ h. ground (arith, h.0, h.1))

  abbrev tokens_of : AgentGrantInput → List String
  tokens_of input = map (λ (e : String × List String). e.0) input.budgets

  -- What a human approves.
  pub record IsApproved (input : AgentGrantInput) (grants : List AgentPolicyGrant)
      (decision : AgentTrustDecision) : Type 0 where
    pub some_token : 0 < length decision.tokens
    pub all_tokens : decision.tokens ≡ map (λ (e : String × List String). e.0) input.budgets
    pub mode_of : decision.mode ≡ approved input.verification
    pub allowed : Allowed input.verification
    pub granted : AreGrants input decision.tokens grants

  -- Grants are built exactly when: there is a token; the mode is a policy at a valid address or a
  -- reason of one to 200 characters; and each token is a valid address, with at least one spending
  -- policy, all at valid addresses and none of them the verified-only policy, and with a budget that
  -- is a whole number and at most the wallet's balance of that token. There is then one grant for
  -- each token, in order, whose policies are its spending policies without repetition and after them
  -- the verified-only policy, where that is the mode; the decision names the tokens and the mode.
  pub build_agent_grants_iff :
      (input : AgentGrantInput) (grants : List AgentPolicyGrant) (decision : AgentTrustDecision)
      → (build_agent_grants is_valid_contract input ≡ ok (grants, decision))
        ↔ IsApproved input grants decision
  unfolding build_agent_grants
  build_agent_grants_iff input grants decision = (
    λ h. elim (Result-cases (check_mode is_valid_contract input.verification)) [
      | inr (e, a) ↦ absurd (ground (arith, a, h))
      | inl (tt, a) ↦
          elim (Result-cases (map_result (grant_of is_valid_contract input) (tokens_of input))) [
            | inr (e, b) ↦ absurd (ground (arith, a, b, h))
            | inl (built, b) ↦
                let all_tokens : decision.tokens ≡ tokens_of input = ground (arith, a, b, h) in
                let same : built ≡ grants = ground (arith, a, b, h) in
                record {
                  some_token = ground (arith, a, b, h);
                  all_tokens = all_tokens;
                  mode_of = ground (arith, a, b, h);
                  allowed = (check_mode_iff input.verification).0 a;
                  granted =
                      rw all_tokens
                        (map_result-AreGrants input (tokens_of input) grants (b ∙ (rw same refl)));
                }
          ]
    ],
    λ i.
        rw
          (
            let e : not (length (tokens_of input) == 0) ≡ true =
                  ground (arith, i.some_token, i.all_tokens) in
                e,
            (check_mode_iff input.verification).1 i.allowed,
            AreGrants-map_result input (tokens_of input) grants (rw (← i.all_tokens) i.granted),
          )
          (ground (arith, i.all_tokens, i.mode_of)),
  )
