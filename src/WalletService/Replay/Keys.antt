-- ===== src/WalletService/Replay/Keys.antt =====
-- services/wallet-service/src/replay.ts, scope.ts: the keys of a transaction, and copies of it.
use vellar_dapp.JsMap
use vellar_dapp.JsMap.{JsMap}
use vellar_dapp.WalletService.Scope.{
  Credentials, source_account, address_v1, address_v2, address_with_delegates, Tx,
  address_credentials, entries_of,
}
use vellar_dapp.WalletService.Replay.{
  ReplayKey, key_id, key_of, collect_keys, extract_replay_keys, ok, replay, Reserved, reserve,
}
use vellar_dapp.WalletService.Replay.Guard.{covers, Action, run, Keeps, reserve_once}
use vellar_dapp.Prelude.{
  Bool-cases, All, String, ◌≡◌, refl, ap, ◌∙◌, inl, inr, Bool, true, false, ◌||◌, Option, none,
  some, List, [], ◌∷◌, arith, str_eq, eq_iff,
}

-- One of the entries is bound to an address, with this address and nonce.
unfoldable pub names : List Credentials → String → Bool
unfolding address_credentials
names [] id = false
names (e ∷ es) id =
    let rest = names es id in
    elim (address_credentials e) [ none ↦ rest | some c ↦ str_eq (key_id (key_of c)) id || rest ]

unfoldable Keyed : JsMap ReplayKey → Type 0
Keyed [] = Unit
Keyed ((id, k) ∷ m) = (id ≡ key_id k) × Keyed m

set-Keyed : (k : ReplayKey) (m : JsMap ReplayKey) → Keyed m → Keyed (JsMap.set (key_id k) k m)
unfolding Keyed JsMap.set
set-Keyed k [] h = (refl, tt)
set-Keyed k ((id, v) ∷ m) (e, h) = elim (Bool-cases (str_eq id (key_id k))) [
  | inl same ↦ rw same (refl, h)
  | inr other ↦ rw other (e, set-Keyed k m h)
]

covers-set :
    (k : ReplayKey) (m : JsMap ReplayKey) (id : String)
    → Keyed m
    → covers (JsMap.values (JsMap.set (key_id k) k m)) id
      ≡ str_eq (key_id k) id || covers (JsMap.values m) id
unfolding Keyed JsMap.set JsMap.values
covers-set k [] id h = refl
covers-set k ((j, v) ∷ m) id (e, h) =
    ground (
      arith,
      covers-set k m id h,
      eq_iff j (key_id k),
      e,
      eq_iff (key_id v) id,
      eq_iff (key_id k) id,
    )

covers-collect_keys :
    (es : List Credentials) (m : JsMap ReplayKey) (id : String)
    → Keyed m
    → covers (JsMap.values (collect_keys es m)) id ≡ covers (JsMap.values m) id || names es id
unfolding collect_keys names address_credentials
covers-collect_keys [] m id h = ground arith
covers-collect_keys (source_account ∷ es) m id h = covers-collect_keys es m id h
covers-collect_keys (address_v1 c ∷ es) m id h = ground (
  arith,
  covers-set (key_of c) m id h,
  covers-collect_keys es (JsMap.set (key_id (key_of c)) (key_of c) m) id (set-Keyed (key_of c) m h),
)
covers-collect_keys (address_v2 c ∷ es) m id h = ground (
  arith,
  covers-set (key_of c) m id h,
  covers-collect_keys es (JsMap.set (key_id (key_of c)) (key_of c) m) id (set-Keyed (key_of c) m h),
)
covers-collect_keys (address_with_delegates c ∷ es) m id h = ground (
  arith,
  covers-set (key_of c) m id h,
  covers-collect_keys es (JsMap.set (key_id (key_of c)) (key_of c) m) id (set-Keyed (key_of c) m h),
)

extract_replay_keys-covers :
    (from_xdr : String → String → Option Tx) (xdr passphrase id : String)
    → covers (extract_replay_keys from_xdr xdr passphrase) id
      ≡ names (entries_of (from_xdr xdr passphrase)) id
unfolding extract_replay_keys JsMap.values Keyed
extract_replay_keys-covers from_xdr xdr passphrase id =
    covers-collect_keys (entries_of (from_xdr xdr passphrase)) [] id tt

-- When the keys of a transaction were reserved, every transaction that carries an auth entry of the
-- same address and nonce, in whatever envelope, is refused as a replay, unless this key was released
-- in between.
pub copies_refused :
    (from_xdr : String → String → Option Tx) (first copy passphrase id : String)
    (reserved : Reserved) (between : List Action)
    → names (entries_of (from_xdr first passphrase)) id ≡ true
    → names (entries_of (from_xdr copy passphrase)) id ≡ true
    → (reserve (extract_replay_keys from_xdr first passphrase) reserved).1 ≡ ok
    → All (Keeps id) between
    → (reserve
        (extract_replay_keys from_xdr copy passphrase)
        (run between (reserve (extract_replay_keys from_xdr first passphrase) reserved).0)).1
      ≡ replay
copies_refused from_xdr first copy passphrase id reserved between n m granted keeps =
    ap (λ r. r.1)
      (reserve_once (extract_replay_keys from_xdr first passphrase)
        (extract_replay_keys from_xdr copy passphrase) id reserved between granted
        (extract_replay_keys-covers from_xdr first passphrase id ∙ n)
        (extract_replay_keys-covers from_xdr copy passphrase id ∙ m) keeps)
