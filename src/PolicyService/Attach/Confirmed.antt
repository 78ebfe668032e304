-- ===== src/PolicyService/Attach/Confirmed.antt =====
-- services/policy-service/src/verify-attach.ts: what a confirmed attach means.
use vellar_dapp.PolicyService.Attach.{
  ScVal, sc_address, sc_vec, sc_map, other, ScVals, no_vals, val, ScEntries, no_entries, entry,
  collect_addresses, collect_vals, collect_entries, InvokeContractArgs, Operation, invoke_contract,
  invoke_other, other_operation, success, not_found, failed, LookupAnswer, answered, unreachable,
  timed_out, AttachTarget, check_invocation, check_operations, check_result, verify_attach_tx,
}
use vellar_dapp.Prelude.{
  includes, String, ◌≡◌, refl, sym, subst, ◌≢◌, ◌↔◌, ◌⊎◌, true, ◌||◌, Option, none, some, List, [],
  ◌∷◌, ◌++◌, arith, eq_iff, ok,
}

-- An address stands in a value, at any depth of its vectors and maps.
unfoldable mutual
  pub Mentions : String → ScVal → Type 0
  Mentions a (sc_address b) = b ≡ a
  Mentions a (sc_vec vs) = MentionedIn a vs
  Mentions a (sc_map es) = MentionedAt a es
  Mentions a other = ⊥

  pub MentionedIn : String → ScVals → Type 0
  MentionedIn a no_vals = ⊥
  MentionedIn a (val v vs) = Mentions a v ⊎ MentionedIn a vs

  pub MentionedAt : String → ScEntries → Type 0
  MentionedAt a no_entries = ⊥
  MentionedAt a (entry k v es) = (Mentions a k ⊎ Mentions a v) ⊎ MentionedAt a es

includes_append :
    (a : String) (xs ys : List String) → includes (xs ++ ys) a ≡ (includes xs a || includes ys a)
includes_append a [] ys = refl
includes_append a (x ∷ xs) ys = ground (arith, includes_append a xs ys)

-- The two directions at once, as a block over the three kinds of value.
mutual
  unfolding Mentions MentionedIn MentionedAt collect_addresses collect_vals collect_entries

  mentions : (a : String) (v : ScVal) → (includes (collect_addresses v) a ≡ true) ↔ Mentions a v
  mentions a (sc_address b) = ground (arith, eq_iff b a)
  mentions a (sc_vec vs) = mentions_vals a vs
  mentions a (sc_map es) = mentions_entries a es
  mentions a other = ground arith

  mentions_vals :
      (a : String) (vs : ScVals) → (includes (collect_vals vs) a ≡ true) ↔ MentionedIn a vs
  mentions_vals a no_vals = ground arith
  mentions_vals a (val v vs) = ground (
    arith,
    includes_append a (collect_addresses v) (collect_vals vs),
    mentions a v,
    mentions_vals a vs,
  )

  mentions_entries :
      (a : String) (es : ScEntries) → (includes (collect_entries es) a ≡ true) ↔ MentionedAt a es
  mentions_entries a no_entries = ground arith
  mentions_entries a (entry k v es) = ground (
    arith,
    includes_append a (collect_addresses k ++ collect_addresses v) (collect_entries es),
    includes_append a (collect_addresses k) (collect_addresses v),
    mentions a k,
    mentions a v,
    mentions_entries a es,
  )

-- The call adds or updates a signer of the wallet and mentions the policy's contract.
abbrev pub Binds : AttachTarget → InvokeContractArgs → Type 0
Binds target ic =
    (ic.contract_address ≡ target.wallet)
    × ((ic.function_name ≡ "add_signer") ⊎ (ic.function_name ≡ "update_signer"))
    × MentionedIn target.policy_contract_id ic.call_args

check_invocation_iff :
    (target : AttachTarget) (ic : InvokeContractArgs)
    → (check_invocation target ic ≡ ok tt) ↔ Binds target ic
unfolding check_invocation
check_invocation_iff target ic = ground (
  arith,
  eq_iff ic.contract_address target.wallet,
  eq_iff "add_signer" ic.function_name,
  eq_iff "update_signer" ic.function_name,
  mentions_vals target.policy_contract_id ic.call_args,
)

module _ (from_xdr : String → Option (List Operation)) where
  -- The network answered with an envelope of one operation, which binds the policy to the wallet.
  abbrev pub IsAttach : AttachTarget → LookupAnswer → Type 0
  IsAttach target (answered (success (some envelope))) =
      (envelope ≢ "")
      × ((ic : InvokeContractArgs) × (from_xdr envelope ≡ some (invoke_contract ic ∷ []))
          × Binds target ic)
  IsAttach target _ = ⊥

  abbrev OneCall : AttachTarget → Option (List Operation) → Type 0
  OneCall target o =
      (ic : InvokeContractArgs) × (o ≡ some (invoke_contract ic ∷ [])) × Binds target ic

  call_of :
      (target : AttachTarget) (o : Option (List Operation))
      → check_operations target o ≡ ok tt
      → OneCall target o
  unfolding check_operations
  call_of target (some (invoke_contract ic ∷ [])) h =
      (ic, refl, (check_invocation_iff target ic).0 h)
  call_of target none h = absurd cc
  call_of target (some []) h = absurd cc
  call_of target (some (invoke_other ∷ ops)) h = absurd cc
  call_of target (some (other_operation ∷ ops)) h = absurd cc
  call_of target (some (invoke_contract ic ∷ op ∷ ops)) h = absurd cc

  one_call :
      (target : AttachTarget) (o : Option (List Operation))
      → (check_operations target o ≡ ok tt) ↔ OneCall target o
  unfolding check_operations
  one_call target o = (
    call_of target o,
    λ c.
        subst (λ p. check_operations target p ≡ ok tt) (sym c.1)
          ((check_invocation_iff target c.0).1 c.2),
  )

  -- The attach is confirmed exactly if the network answered that the transaction succeeded, with an
  -- envelope that is not empty and decodes to a single contract call; the call is on the target's
  -- wallet, its function is `add_signer` or `update_signer`, and the target's policy contract stands
  -- in one of its arguments, at any depth of vectors and maps.
  pub verify_attach_tx_iff :
      (target : AttachTarget) (answer : LookupAnswer)
      → (verify_attach_tx from_xdr target answer ≡ ok tt) ↔ IsAttach target answer
  unfolding verify_attach_tx check_result
  verify_attach_tx_iff target unreachable = ground arith
  verify_attach_tx_iff target timed_out = ground arith
  verify_attach_tx_iff target (answered not_found) = ground arith
  verify_attach_tx_iff target (answered failed) = ground arith
  verify_attach_tx_iff target (answered (success none)) = ground arith
  verify_attach_tx_iff target (answered (success (some envelope))) =
      ground (arith, eq_iff envelope "", one_call target (from_xdr envelope))
