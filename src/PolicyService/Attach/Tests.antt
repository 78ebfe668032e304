-- ===== src/PolicyService/Attach/Tests.antt =====
-- Transactions that do and do not attach a policy.
use vellar_dapp.PolicyService.Attach.{
  ScVal, sc_address, sc_vec, other, no_vals, val, collect_addresses, collect_vals, collect_entries,
  InvokeContractArgs, Operation, invoke_contract, success, not_found, answered, attach_unconfirmed,
  attach_mismatch, AttachTarget, check_invocation, check_operations, check_result, verify_attach_tx,
}
use vellar_dapp.PolicyService.Attach.Confirmed.{IsAttach, verify_attach_tx_iff}
use vellar_dapp.Prelude.{
  if◌then◌else◌, String, ◌≡◌, refl, ◌↔◌, Option, none, some, List, [], ◌∷◌, str_eq, ok, err,
}

abbrev target : AttachTarget
target = record { wallet = "CWALLET"; policy_contract_id = "CPOLICY" }

-- The policy stands in a vector within the signer's vector.
abbrev call : String → ScVal → InvokeContractArgs
call name v = record {
  contract_address = "CWALLET";
  function_name = name;
  call_args = val (sc_vec (val other (val (sc_vec (val v no_vals)) no_vals))) no_vals;
}

abbrev from_xdr : String → Option (List Operation)
from_xdr s =
    if str_eq s "add"
    then some (invoke_contract (call "add_signer" (sc_address "CPOLICY")) ∷ [])
    else if str_eq s "remove"
    then some (invoke_contract (call "remove_signer" (sc_address "CPOLICY")) ∷ [])
    else if str_eq s "elsewhere"
    then some (invoke_contract (call "add_signer" (sc_address "COTHER")) ∷ [])
    else none

attaches_run :
    (verify_attach_tx from_xdr target (answered (success (some "add"))) ≡ ok tt)
    × (verify_attach_tx from_xdr target (answered (success (some "remove"))) ≡ err attach_mismatch)
    × (verify_attach_tx from_xdr target (answered (success (some "elsewhere")))
        ≡ err attach_mismatch)
    × (verify_attach_tx from_xdr target (answered not_found) ≡ err attach_unconfirmed)
unfolding verify_attach_tx check_result check_operations check_invocation collect_addresses
    collect_vals collect_entries
attaches_run = (refl, refl, refl, refl)

verify_attach_tx_iff_example :
    (verify_attach_tx from_xdr target (answered (success (some "add"))) ≡ ok tt)
    ↔ IsAttach from_xdr target (answered (success (some "add")))
verify_attach_tx_iff_example =
    verify_attach_tx_iff from_xdr target (answered (success (some "add")))
