-- ===== src/LifecycleService/Builder/Chunks.antt =====
-- services/lifecycle-service/src/builder.ts: the loop that splits operations into transactions.
use vellar_dapp.LifecycleService.Builder.{
  ops_per_tx, CleanupOp, CleanupStep, Sdk, op_of, make_step, build_from,
}
use vellar_dapp.Prelude.{
  length, take, drop, take-append-drop, length-take, length-drop, All, ℕ, zero, suc, ◌+◌, ◌-◌, ◌/◌,
  ◌≤◌, min, String, ◌≡◌, refl, List, [], ◌∷◌, map, arith, concat,
}

-- The transactions of the steps are those of the chunks, with the sequence numbers in a row.
unfoldable pub InSequence :
    Sdk → String → String → ℕ → List (List CleanupOp) → List CleanupStep → Type 0
InSequence sdk id passphrase sequence [] [] = Unit
InSequence sdk id passphrase sequence (c ∷ cs) (s ∷ ss) =
    (s.xdr ≡ sdk.to_xdr id sequence (map op_of c) passphrase)
    × (s.hash ≡ sdk.hash id sequence (map op_of c) passphrase)
    × InSequence sdk id passphrase (sdk.bumped sequence) cs ss
InSequence sdk id passphrase sequence _ _ = ⊥

abbrev pub Fits : List CleanupOp → Type 0
Fits c = (1 ≤ length c) × (length c ≤ ops_per_tx)

-- How `steps` stand for `ops`: cut into chunks, each of one to a hundred operations, nothing lost
-- and in order.
pub record IsSplit (sdk : Sdk) (id passphrase : String) (sequence : ℕ) (ops : List CleanupOp)
    (steps : List CleanupStep) : Type 0 where
  pub chunks : List (List CleanupOp)
  pub joined : concat chunks ≡ ops
  pub fitting : All Fits chunks
  pub in_sequence : InSequence sdk id passphrase sequence chunks steps
  pub count : length steps ≡ (length ops + 99) / ops_per_tx

pub build_from-IsSplit :
    (sdk : Sdk) (id passphrase : String) (fuel chunk_count part sequence : ℕ) (ops : List CleanupOp)
    → length ops ≤ fuel
    → IsSplit sdk id passphrase sequence ops
        (build_from sdk id passphrase fuel chunk_count part sequence ops)
unfolding build_from InSequence make_step
build_from-IsSplit sdk id passphrase zero n part sequence [] le = record {
  chunks = [];
  joined = refl;
  fitting = tt;
  in_sequence = tt;
  count = omega arith;
}
build_from-IsSplit sdk id passphrase zero n part sequence (o ∷ ops) le = absurd (omega arith)
build_from-IsSplit sdk id passphrase (suc fuel) n part sequence [] le = record {
  chunks = [];
  joined = refl;
  fitting = tt;
  in_sequence = tt;
  count = omega arith;
}
build_from-IsSplit sdk id passphrase (suc fuel) n part sequence (o ∷ ops) le =
    let shorter : length (drop 99 ops) ≡ length ops - 99 = length-drop 99 ops in
    let rest =
      build_from-IsSplit sdk id passphrase fuel n (part + 1) (sdk.bumped sequence)
        (drop ops_per_tx (o ∷ ops)) (omega arith) in
    let taken : length (take 99 ops) ≡ min 99 (length ops) = length-take 99 ops in
    record {
      chunks = take ops_per_tx (o ∷ ops) ∷ rest.chunks;
      joined = rw rest.joined (take-append-drop ops_per_tx (o ∷ ops));
      fitting = ((omega arith, omega arith), rest.fitting);
      in_sequence = (refl, refl, rest.in_sequence);
      count = omega (arith, rest.count, shorter);
    }
