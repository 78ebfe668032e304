-- ===== src/PolicyService/Attach.antt =====
-- services/policy-service/src/verify-attach.ts: whether a transaction attached a policy to a wallet.
-- The lookup of a transaction and the SDK's decoding of an envelope are arguments; the timer that
-- bounds the lookup shows as an answer. The messages of errors are left out.
pub mod Confirmed
mod Tests
use vellar_dapp.Prelude.{
  if◌then◌else◌, includes, String, not, Option, some, List, [], ◌∷◌, ◌++◌, str_eq, Result, ok, err,
}

-- A value of a contract call. What is no address, vector or map, or fails to decode, is `other`.
mutual
  pub data ScVal : Type 0 where
    sc_address : String → ScVal
    sc_vec : ScVals → ScVal
    sc_map : ScEntries → ScVal
    other : ScVal

  pub data ScVals : Type 0 where
    no_vals : ScVals
    val : ScVal → ScVals → ScVals

  pub data ScEntries : Type 0 where
    no_entries : ScEntries
    entry : ScVal → ScVal → ScEntries → ScEntries

unfoldable mutual
  pub collect_addresses : ScVal → List String
  collect_addresses (sc_address a) = a ∷ []
  collect_addresses (sc_vec vs) = collect_vals vs
  collect_addresses (sc_map es) = collect_entries es
  collect_addresses other = []

  pub collect_vals : ScVals → List String
  collect_vals no_vals = []
  collect_vals (val v vs) = collect_addresses v ++ collect_vals vs

  pub collect_entries : ScEntries → List String
  collect_entries no_entries = []
  collect_entries (entry k v es) =
      (collect_addresses k ++ collect_addresses v) ++ collect_entries es

pub record InvokeContractArgs : Type 0 where
  pub contract_address : String
  pub function_name : String
  pub call_args : ScVals

-- `invoke_other` is an invokeHostFunction that calls no contract.
pub data Operation : Type 0 where
  invoke_contract : InvokeContractArgs → Operation
  invoke_other other_operation : Operation

-- An answer with the status SUCCESS may have no envelope.
pub data TxResult : Type 0 where
  success : Option String → TxResult
  not_found failed : TxResult

-- What asking the network comes to.
pub data LookupAnswer : Type 0 where
  answered : TxResult → LookupAnswer
  unreachable timed_out : LookupAnswer

pub data AttachError : Type 0 where
  attach_unconfirmed attach_timeout attach_mismatch : AttachError

pub record AttachTarget : Type 0 where
  pub wallet : String
  pub policy_contract_id : String

abbrev pub add_policy_fns : List String
add_policy_fns = "add_signer" ∷ "update_signer" ∷ []

unfoldable pub check_invocation : AttachTarget → InvokeContractArgs → Result AttachError (Unit {0})
unfolding collect_vals
check_invocation target ic =
    if not (str_eq ic.contract_address target.wallet)
    then err attach_mismatch
    else if not (includes add_policy_fns ic.function_name)
    then err attach_mismatch
    else if not (includes (collect_vals ic.call_args) target.policy_contract_id)
    then err attach_mismatch
    else ok tt

-- The operations of the decoded envelope, where it decodes and has operations; exactly one is wanted.
unfoldable pub check_operations :
    AttachTarget → Option (List Operation) → Result AttachError (Unit {0})
unfolding check_invocation
check_operations target (some (invoke_contract ic ∷ [])) = check_invocation target ic
check_operations target _ = err attach_mismatch

module _ (from_xdr : String → Option (List Operation)) where
  unfoldable pub check_result : AttachTarget → TxResult → Result AttachError (Unit {0})
  unfolding check_operations
  check_result target not_found = err attach_unconfirmed
  check_result target (success (some envelope)) =
      if str_eq envelope ""
      then err attach_mismatch
      else check_operations target (from_xdr envelope)
  check_result target _ = err attach_mismatch

  unfoldable pub verify_attach_tx : AttachTarget → LookupAnswer → Result AttachError (Unit {0})
  unfolding check_result
  verify_attach_tx target timed_out = err attach_timeout
  verify_attach_tx target unreachable = err attach_unconfirmed
  verify_attach_tx target (answered result) = check_result target result
