-- ===== src/WalletService/Replay/Tests.antt =====
-- services/wallet-service/src/replay.ts: a transaction and a copy of it.
use vellar_dapp.JsMap
use vellar_dapp.WalletService.Scope.{
  AddressCredentials, Credentials, address_v1, address_v2, Tx, address_credentials, all_entries,
  entries_of,
}
use vellar_dapp.WalletService.Replay.{
  ReplayKey, collect_keys, extract_replay_keys, replay, add_all, some_reserved, reserve,
}
use vellar_dapp.WalletService.Replay.Guard.{Action, reserves, releases, run}
use vellar_dapp.WalletService.Replay.Keys.{names, copies_refused}
use vellar_dapp.Prelude.{
  if◌then◌else◌, String, ◌≡◌, refl, true, Option, none, some, List, [], ◌∷◌, str_eq,
}

abbrev key : String → ReplayKey
key nonce = record { address = "C1"; nonce = nonce; signature_expiration_ledger = 50 }

abbrev between : List Action
between = reserves (key "2" ∷ []) ∷ releases (key "2" ∷ []) ∷ []

abbrev creds : AddressCredentials
creds = record { address = "C1"; nonce = "1"; signature_expiration_ledger = 50 }

abbrev tx_of : Credentials → Tx
tx_of e = record { operations = some ((record { is_invoke = true; auth = some (e ∷ []) }) ∷ []) }

-- The same entry in two envelopes.
abbrev from_xdr : String → String → Option Tx
from_xdr xdr passphrase =
    if str_eq xdr "first"
    then some (tx_of (address_v1 creds))
    else if str_eq xdr "copy"
    then some (tx_of (address_v2 creds))
    else none

copies_refused_example :
    (reserve
      (extract_replay_keys from_xdr "copy" "net")
      (run between (reserve (extract_replay_keys from_xdr "first" "net") []).0)).1
    ≡ replay
unfolding names entries_of all_entries address_credentials reserve some_reserved add_all
    extract_replay_keys collect_keys JsMap.values JsMap.set
copies_refused_example =
    copies_refused from_xdr "first" "copy" "net" "C1:1" [] between refl refl refl (tt, (refl, tt))
