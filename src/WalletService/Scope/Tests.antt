-- ===== src/WalletService/Scope/Tests.antt =====
-- services/wallet-service/src/scope.ts: a transaction of a known wallet and one without a subject.
use vellar_dapp.WalletService.Scope.{
  AddressCredentials, source_account, address_v2, Tx, address_credentials, all_entries, entries_of,
  subjects_in, no_wallet_subject, first_unknown, extract_address_auth_subjects,
  assert_scoped_to_known_wallets,
}
use vellar_dapp.WalletService.Scope.Gate.{AllKnown, SomeSubject, assert_scoped_lem}
use vellar_dapp.Prelude.{
  if◌then◌else◌, String, ◌≡◌, refl, ◌↔◌, Bool, true, Option, none, some, [], ◌∷◌, str_eq,
}

abbrev creds : String → AddressCredentials
creds a = record { address = a; nonce = "1"; signature_expiration_ledger = 50 }

abbrev from_xdr : String → String → Option Tx
from_xdr xdr passphrase =
    if str_eq xdr "signed"
    then some (record {
      operations = some (
          (record { is_invoke = true; auth = some (source_account ∷ address_v2 (creds "C1") ∷ []) })
          ∷ []);
    })
    else none

abbrev is_known : String → Bool
is_known id = str_eq id "C1"

passes :
    (assert_scoped_to_known_wallets from_xdr "signed" "net" is_known ≡ none)
    × (assert_scoped_to_known_wallets from_xdr "other" "net" is_known ≡ some no_wallet_subject)
unfolding assert_scoped_to_known_wallets extract_address_auth_subjects first_unknown entries_of
    all_entries subjects_in address_credentials
passes = (refl, refl)

assert_scoped_lem_example :
    (assert_scoped_to_known_wallets from_xdr "signed" "net" is_known ≡ none) ↔ (
      SomeSubject (entries_of (from_xdr "signed" "net"))
      × AllKnown is_known (entries_of (from_xdr "signed" "net")))
assert_scoped_lem_example = assert_scoped_lem from_xdr "signed" "net" is_known
