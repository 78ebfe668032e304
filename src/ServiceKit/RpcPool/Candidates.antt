-- ===== src/ServiceKit/RpcPool/Candidates.antt =====
-- packages/service-kit/src/rpc-pool.ts: `candidates` orders all the endpoints.
use mathlib.Core.List.{Perm, perm_middle}
use mathlib.Core.List.Perm
use vellar_dapp.ServiceKit.RpcPool.{RpcPool, is_healthy, last_failure, candidates}
use vellar_dapp.Prelude.{Bool-cases, filter, sort_by-perm, inl, inr, Bool, not, List, [], ◌∷◌, ◌++◌}

partition-perm {ℓ} :
    {A : Type ℓ} (p : A → Bool) (xs : List A) → Perm (filter p xs ++ filter (λ x. not (p x)) xs) xs
partition-perm p [] = Perm.refl _
partition-perm p (x ∷ xs) = elim (Bool-cases (p x)) [
  | inl good ↦ rw good (Perm.cons x (partition-perm p xs))
  | inr bad ↦ rw bad (
      Perm.trans (perm_middle (filter p xs) (filter (λ y. not (p y)) xs))
        (Perm.cons x (partition-perm p xs)))
]

-- Every endpoint of the pool stands among the candidates, as often as in the pool.
pub candidates-perm : (p : RpcPool) → Perm (candidates p) p.urls
unfolding candidates
candidates-perm p =
    Perm.trans
      (Perm.append_left (filter (is_healthy p) p.urls)
        (sort_by-perm (last_failure p) (filter (λ url. not (is_healthy p url)) p.urls)))
      (partition-perm (is_healthy p) p.urls)
