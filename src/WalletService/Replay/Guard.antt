-- ===== src/WalletService/Replay/Guard.antt =====
-- services/wallet-service/src/replay.ts: what the guard lets through.
use vellar_dapp.WalletService.Replay.{
  ReplayKey, key_id, ok, replay, Reserved, add, add_all, delete_all, some_reserved, reserve,
  release,
}
use vellar_dapp.Prelude.{
  filter, any, All, includes, String, ◌≡◌, refl, Bool, true, false, not, ◌&&◌, ◌||◌, List, [], ◌∷◌,
  ◌++◌, arith, str_eq, eq_iff,
}

includes-append :
    (xs ys : List String) (s : String) → includes (xs ++ ys) s ≡ includes xs s || includes ys s
includes-append [] ys s = refl
includes-append (x ∷ xs) ys s = ground (arith, includes-append xs ys s)

includes-add_all :
    (ks : List ReplayKey) (reserved : Reserved) (id : String)
    → includes (add_all ks reserved) id
      ≡ includes reserved id || any (λ (k : ReplayKey). str_eq (key_id k) id) ks
unfolding add_all
includes-add_all [] reserved id = ground arith
includes-add_all (k ∷ ks) reserved id = ground (
  arith,
  includes-add_all ks (add (key_id k) reserved) id,
  includes-append reserved (key_id k ∷ []) id,
  eq_iff (key_id k) id,
)

includes-filter :
    (xs : List String) (a id : String)
    → includes (filter (λ (x : String). not (str_eq x a)) xs) id
      ≡ includes xs id && not (str_eq id a)
includes-filter [] a id = refl
includes-filter (x ∷ xs) a id =
    ground (arith, includes-filter xs a id, eq_iff x a, eq_iff x id, eq_iff id a)

includes-delete_all :
    (ks : List ReplayKey) (reserved : Reserved) (id : String)
    → includes (delete_all ks reserved) id
      ≡ includes reserved id && not (any (λ (k : ReplayKey). str_eq (key_id k) id) ks)
unfolding delete_all
includes-delete_all [] reserved id = ground arith
includes-delete_all (k ∷ ks) reserved id = ground (
  arith,
  includes-delete_all ks (filter (λ (x : String). not (str_eq x (key_id k))) reserved) id,
  includes-filter reserved (key_id k) id,
  eq_iff (key_id k) id,
  eq_iff id (key_id k),
)

-- One of the keys has this id.
abbrev pub covers : List ReplayKey → String → Bool
covers ks id = any (λ (k : ReplayKey). str_eq (key_id k) id) ks

some_reserved-covers :
    (ks : List ReplayKey) (reserved : Reserved) (id : String)
    → covers ks id ≡ true
    → includes reserved id ≡ true
    → some_reserved reserved ks ≡ true
unfolding some_reserved
some_reserved-covers [] reserved id c h = cc
some_reserved-covers (k ∷ ks) reserved id c h =
    ground (arith, eq_iff (key_id k) id, some_reserved-covers ks reserved id)

pub data Action : Type 0 where
  reserves releases : List ReplayKey → Action

unfoldable pub run : List Action → Reserved → Reserved
unfolding reserve release
run [] reserved = reserved
run (reserves ks ∷ actions) reserved = run actions (reserve ks reserved).0
run (releases ks ∷ actions) reserved = run actions (release ks reserved)

abbrev pub Keeps : String → Action → Type 0
Keeps id (reserves ks) = Unit
Keeps id (releases ks) = covers ks id ≡ false

run-includes :
    (actions : List Action) (reserved : Reserved) (id : String)
    → All (Keeps id) actions
    → includes reserved id ≡ true
    → includes (run actions reserved) id ≡ true
unfolding run reserve release
run-includes [] reserved id keeps h = h
run-includes (reserves ks ∷ actions) reserved id (k, keeps) h =
    run-includes actions (reserve ks reserved).0 id keeps
      (ground (arith, includes-add_all ks reserved id))
run-includes (releases ks ∷ actions) reserved id (k, keeps) h =
    run-includes actions (release ks reserved) id keeps
      (ground (arith, includes-delete_all ks reserved id))

-- Once keys are reserved, a reservation of keys that share an id with them is refused as a replay and
-- reserves nothing, whatever was reserved and released in between, if none of it released this id.
pub reserve_once :
    (keys later : List ReplayKey) (id : String) (reserved : Reserved) (between : List Action)
    → (reserve keys reserved).1 ≡ ok
    → covers keys id ≡ true
    → covers later id ≡ true
    → All (Keeps id) between
    → reserve later (run between (reserve keys reserved).0)
      ≡ (run between (reserve keys reserved).0, replay)
unfolding reserve
reserve_once keys later id reserved between granted c l keeps =
    let taken : includes (reserve keys reserved).0 id ≡ true =
      ground (arith, includes-add_all keys reserved id) in
    let still = run-includes between (reserve keys reserved).0 id keeps taken in
    ground (arith, some_reserved-covers later (run between (reserve keys reserved).0) id l still)

none_reserved :
    (ks : List ReplayKey) (reserved : Reserved) (id : String)
    → some_reserved reserved ks ≡ false
    → covers ks id ≡ true
    → includes reserved id ≡ false
unfolding some_reserved
none_reserved [] reserved id h c = cc
none_reserved (k ∷ ks) reserved id h c =
    ground (arith, eq_iff (key_id k) id, none_reserved ks reserved id)

same_ids :
    (ks : List ReplayKey) (r s : Reserved)
    → ((id : String) → includes r id ≡ includes s id)
    → some_reserved r ks ≡ some_reserved s ks
unfolding some_reserved
same_ids [] r s h = refl
same_ids (k ∷ ks) r s h = ground (arith, h (key_id k), same_ids ks r s h)

-- A release undoes the reservation that was granted: the same ids are reserved as before, so the same
-- keys can be reserved again.
pub release-reserve :
    (keys : List ReplayKey) (reserved : Reserved)
    → (reserve keys reserved).1 ≡ ok
    → ((id : String) → includes (release keys (reserve keys reserved).0) id ≡ includes reserved id)
      × ((reserve keys (release keys (reserve keys reserved).0)).1 ≡ ok)
unfolding reserve release
release-reserve keys reserved granted =
    let free : some_reserved reserved keys ≡ false = ground arith in
    let same : (id : String)
        → includes (delete_all keys (add_all keys reserved)) id ≡ includes reserved id =
      λ id. ground (
        arith,
        includes-delete_all keys (add_all keys reserved) id,
        includes-add_all keys reserved id,
        none_reserved keys reserved id free,
      ) in
    rw free (
      same,
      ground (arith, free, same_ids keys (delete_all keys (add_all keys reserved)) reserved same),
    )
