-- ===== src/WalletService/Scope.antt =====
-- services/wallet-service/src/scope.ts: the credentials of a signed transaction and the gate that
-- lets only transactions of known wallets pass. The SDK's parser is a parameter.
pub mod Gate
mod Tests
use vellar_dapp.Prelude.{
  if◌then◌else◌, get_or, ℕ, String, Bool, Option, none, some, List, [], ◌∷◌, ◌++◌,
}

pub record AddressCredentials : Type 0 where
  pub address : String
  pub nonce : String
  pub signature_expiration_ledger : ℕ

pub data Credentials : Type 0 where
  source_account : Credentials
  address_v1 address_v2 address_with_delegates : AddressCredentials → Credentials

-- An operation: whether its type is "invokeHostFunction", and its auth entries.
pub record TxOperation : Type 0 where
  pub is_invoke : Bool
  pub auth : Option (List Credentials)

-- A parsed transaction; a fee bump has no operations.
pub record Tx : Type 0 where
  pub operations : Option (List TxOperation)

unfoldable pub address_credentials : Credentials → Option AddressCredentials
address_credentials source_account = none
address_credentials (address_v1 c) = some c
address_credentials (address_v2 c) = some c
address_credentials (address_with_delegates c) = some c

abbrev pub auth_entries : TxOperation → List Credentials
auth_entries op = if op.is_invoke then get_or op.auth [] else []

-- The auth entries that the two loops of the extractors visit, in order.
unfoldable pub all_entries : List TxOperation → List Credentials
all_entries [] = []
all_entries (op ∷ ops) = auth_entries op ++ all_entries ops

-- `none` of the parser is a transaction that does not parse.
unfoldable pub entries_of : Option Tx → List Credentials
unfolding all_entries
entries_of none = []
entries_of (some tx) = all_entries (get_or tx.operations [])

unfoldable pub subjects_in : List Credentials → List String
unfolding address_credentials
subjects_in [] = []
subjects_in (entry ∷ entries) =
    let rest = subjects_in entries in
    elim (address_credentials entry) [ none ↦ rest | some c ↦ c.address ∷ rest ]

pub data ScopeError : Type 0 where
  no_wallet_subject : ScopeError
  unknown_wallet_subject : String → ScopeError

-- The loop over the subjects: the error that is thrown.
unfoldable pub first_unknown : (String → Bool) → List String → Option ScopeError
first_unknown is_known [] = none
first_unknown is_known (s ∷ ss) =
    let rest = first_unknown is_known ss in
    if is_known s then rest else some (unknown_wallet_subject s)

module _ (from_xdr : String → String → Option Tx) where
  unfoldable pub extract_address_auth_subjects : String → String → List String
  unfolding entries_of subjects_in
  extract_address_auth_subjects xdr passphrase = subjects_in (entries_of (from_xdr xdr passphrase))

  -- `none` if nothing is thrown.
  unfoldable pub assert_scoped_to_known_wallets :
      String → String → (String → Bool) → Option ScopeError
  unfolding extract_address_auth_subjects first_unknown
  assert_scoped_to_known_wallets xdr passphrase is_known =
      elim (extract_address_auth_subjects xdr passphrase) [
        | [] ↦ some no_wallet_subject
        | s ∷ ss ↦ first_unknown is_known (s ∷ ss)
      ]
