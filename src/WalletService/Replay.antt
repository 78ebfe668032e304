-- ===== src/WalletService/Replay.antt =====
-- services/wallet-service/src/replay.ts: the replay keys of a signed transaction and the guard in
-- memory. The fingerprint for the log is not modelled.
pub mod Keys
pub mod Guard
mod Tests
use vellar_dapp.JsMap
use vellar_dapp.JsMap.{JsMap}
use vellar_dapp.WalletService.Scope.{
  AddressCredentials, Credentials, source_account, address_v1, address_v2, address_with_delegates,
  TxOperation, Tx, address_credentials, auth_entries, all_entries, entries_of, subjects_in,
  ScopeError, no_wallet_subject, unknown_wallet_subject, first_unknown,
  extract_address_auth_subjects, assert_scoped_to_known_wallets,
}
use vellar_dapp.Prelude.{
  if◌then◌else◌, filter, any, includes, ℕ, String, ◌<>◌, Bool, not, Option, none, some, List, [],
  ◌∷◌, ◌++◌, str_eq,
}

pub record ReplayKey : Type 0 where
  pub address : String
  pub nonce : String
  pub signature_expiration_ledger : ℕ

-- `${address}:${nonce}`
abbrev pub key_id : ReplayKey → String
key_id k = k.address <> (":" <> k.nonce)

abbrev pub key_of : AddressCredentials → ReplayKey
key_of c = record {
  address = c.address;
  nonce = c.nonce;
  signature_expiration_ledger = c.signature_expiration_ledger;
}

unfoldable pub collect_keys : List Credentials → JsMap ReplayKey → JsMap ReplayKey
unfolding address_credentials
collect_keys [] keys = keys
collect_keys (entry ∷ entries) keys =
    let skipped = collect_keys entries keys in
    elim (address_credentials entry) [
      | none ↦ skipped
      | some c ↦ collect_keys entries (JsMap.set (key_id (key_of c)) (key_of c) keys)
    ]

unfoldable pub extract_replay_keys :
    (String → String → Option Tx) → String → String → List ReplayKey
unfolding entries_of collect_keys
extract_replay_keys from_xdr xdr passphrase =
    JsMap.values (collect_keys (entries_of (from_xdr xdr passphrase)) [])

pub data ReserveResult : Type 0 where
  ok replay : ReserveResult

abbrev pub releasable_submission_codes : List String
releasable_submission_codes =
    "relayer_not_configured" ∷ "circuit_breaker_open" ∷ "sponsor_bad_tx"
    ∷ "sponsor_simulation_failed" ∷ "sponsor_fee_too_high" ∷ "sponsor_budget_exceeded" ∷ []

-- The set of the reserved ids.
abbrev pub Reserved : Type 0
Reserved = List String

abbrev add : String → Reserved → Reserved
add id reserved = if includes reserved id then reserved else reserved ++ id ∷ []

unfoldable pub add_all : List ReplayKey → Reserved → Reserved
add_all [] reserved = reserved
add_all (k ∷ ks) reserved = add_all ks (add (key_id k) reserved)

unfoldable pub delete_all : List ReplayKey → Reserved → Reserved
delete_all [] reserved = reserved
delete_all (k ∷ ks) reserved =
    delete_all ks (filter (λ (id : String). not (str_eq id (key_id k))) reserved)

unfoldable pub some_reserved : Reserved → List ReplayKey → Bool
some_reserved reserved keys = any (λ (k : ReplayKey). includes reserved (key_id k)) keys

unfoldable pub reserve : List ReplayKey → Reserved → Reserved × ReserveResult
unfolding add_all some_reserved
reserve keys reserved =
    let after = add_all keys reserved in
    if some_reserved reserved keys then (reserved, replay) else (after, ok)

unfoldable pub release : List ReplayKey → Reserved → Reserved
unfolding delete_all
release keys reserved = delete_all keys reserved
