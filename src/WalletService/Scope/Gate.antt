-- ===== src/WalletService/Scope/Gate.antt =====
-- services/wallet-service/src/scope.ts: what passes the gate.
use vellar_dapp.WalletService.Scope.{
  AddressCredentials, Credentials, source_account, address_v1, address_v2, address_with_delegates,
  Tx, address_credentials, entries_of, subjects_in, ScopeError, no_wallet_subject,
  unknown_wallet_subject, first_unknown, extract_address_auth_subjects,
  assert_scoped_to_known_wallets,
}
use vellar_dapp.Prelude.{
  if◌then◌else◌, String, ◌≡◌, refl, ap, ◌∙◌, ◌≢◌, ◌↔◌, ◌⊎◌, inl, inr, Bool, true, Option, none,
  some, List, [], ◌∷◌, arith,
}

-- A credential that names a subject in one of the three address-bound forms, read off the entries.
unfoldable pub Speaks : AddressCredentials → Credentials → Type 0
Speaks c source_account = ⊥
Speaks c (address_v1 d) = c ≡ d
Speaks c (address_v2 d) = c ≡ d
Speaks c (address_with_delegates d) = c ≡ d

-- Every address-bound credential of the entries is of a known wallet.
unfoldable pub AllKnown : (String → Bool) → List Credentials → Type 0
AllKnown is_known [] = Unit
AllKnown is_known (e ∷ es) =
    ((c : AddressCredentials) → Speaks c e → is_known c.address ≡ true) × AllKnown is_known es

-- One entry at least is address-bound.
unfoldable pub SomeSubject : List Credentials → Type 0
SomeSubject [] = ⊥
SomeSubject (e ∷ es) = ((c : AddressCredentials) × Speaks c e) ⊎ SomeSubject es

address-known :
    (is_known : String → Bool) (d : AddressCredentials) (rest : Option ScopeError) (Q : Type 0)
    → (rest ≡ none) ↔ Q
    → ((if is_known d.address then rest else some (unknown_wallet_subject d.address)) ≡ none)
      ↔ (((c : AddressCredentials) → c ≡ d → is_known c.address ≡ true) × Q)
address-known is_known d rest Q (f, g) = (
  λ h. (
    λ c e. ap (λ (x : AddressCredentials). is_known x.address) e ∙ (ground arith),
    f (ground arith),
  ),
  λ h. rw (h.0 d refl) (g h.1),
)

first_unknown-known :
    (is_known : String → Bool) (entries : List Credentials)
    → (first_unknown is_known (subjects_in entries) ≡ none) ↔ AllKnown is_known entries
unfolding first_unknown subjects_in address_credentials AllKnown Speaks
first_unknown-known is_known [] = (λ h. tt, λ h. refl)
first_unknown-known is_known (source_account ∷ es) =
    let (f, g) = first_unknown-known is_known es in (λ h. (λ c s. absurd s, f h), λ h. g h.1)
first_unknown-known is_known (address_v1 d ∷ es) =
    address-known is_known d (first_unknown is_known (subjects_in es)) (AllKnown is_known es)
      (first_unknown-known is_known es)
first_unknown-known is_known (address_v2 d ∷ es) =
    address-known is_known d (first_unknown is_known (subjects_in es)) (AllKnown is_known es)
      (first_unknown-known is_known es)
first_unknown-known is_known (address_with_delegates d ∷ es) =
    address-known is_known d (first_unknown is_known (subjects_in es)) (AllKnown is_known es)
      (first_unknown-known is_known es)

subjects_in-nonempty :
    (entries : List Credentials) → (subjects_in entries ≢ []) ↔ SomeSubject entries
unfolding subjects_in address_credentials SomeSubject Speaks
subjects_in-nonempty [] = (λ h. h refl, λ s. absurd s)
subjects_in-nonempty (source_account ∷ es) =
    let (f, g) = subjects_in-nonempty es in
    (λ h. inr (f h), λ s. elim s [ inl (c, n) ↦ absurd n | inr later ↦ g later ])
subjects_in-nonempty (address_v1 d ∷ es) = (λ h. inl (d, refl), λ s e. cc)
subjects_in-nonempty (address_v2 d ∷ es) = (λ h. inl (d, refl), λ s e. cc)
subjects_in-nonempty (address_with_delegates d ∷ es) = (λ h. inl (d, refl), λ s e. cc)

gate :
    (subjects : List String) (S K : Type 0) (is_known : String → Bool)
    → (subjects ≢ []) ↔ S
    → (first_unknown is_known subjects ≡ none) ↔ K
    → ((elim subjects [ [] ↦ some no_wallet_subject | s ∷ ss ↦ first_unknown is_known (s ∷ ss) ])
        ≡ none)
      ↔ (S × K)
gate [] S K is_known (f, g) (k, l) = (λ h. absurd (cc), λ h. absurd (g h.0 refl))
gate (s ∷ ss) S K is_known (f, g) (k, l) = (λ h. (f (λ e. cc), k h), λ h. l h.1)

-- A transaction passes the gate exactly if one of its auth entries at least is bound to an address,
-- and every entry that is, in whichever of the three forms, is bound to a known wallet.
pub assert_scoped_lem :
    (from_xdr : String → String → Option Tx) (xdr passphrase : String) (is_known : String → Bool)
    → (assert_scoped_to_known_wallets from_xdr xdr passphrase is_known ≡ none) ↔ (
        SomeSubject (entries_of (from_xdr xdr passphrase))
        × AllKnown is_known (entries_of (from_xdr xdr passphrase)))
unfolding assert_scoped_to_known_wallets extract_address_auth_subjects
assert_scoped_lem from_xdr xdr passphrase is_known =
    let entries = entries_of (from_xdr xdr passphrase) in
    gate (subjects_in entries) (SomeSubject entries) (AllKnown is_known entries) is_known
      (subjects_in-nonempty entries) (first_unknown-known is_known entries)
