-- ===== src/ServiceKit/RpcPool/Selection.antt =====
-- packages/service-kit/src/rpc-pool.ts: the endpoint that `current` returns.
use mathlib.Core.List.{Perm}
use mathlib.Core.List.Perm
use mathlib.Core.Option.{some-injective}
use vellar_dapp.JsMap
use vellar_dapp.ServiceKit.RpcPool.{
  RpcPool, create_rpc_pool, new_pool, dedupe, entry, is_healthy, last_failure, candidates, select,
  select_first, reselect, mark_unhealthy, report_failure, ProbeOutcome, answered, failed,
  apply_result, apply_results, run_probes, freshest_of, Operation, failure_reported, probed,
  operate, operate_all, unprobed,
}
use vellar_dapp.ServiceKit.RpcPool.Candidates.{candidates-perm}
use vellar_dapp.Prelude.{
  Bool-cases, get_or, is_some, filter, All, sort_by, sort_by-HeadLeast, HeadLeast, ℕ, ◌≤◌, String,
  ◌<>◌, ◌≡◌, refl, sym, ap, ◌∙◌, subst, ◌≢◌, ◌⊎◌, inl, inr, Bool, true, not, Option, some, List, [],
  ◌∷◌, ◌++◌, map, arith, eq_iff,
}

-- The selected endpoint heads the candidates, of which there are some.
record IsSettled (p : RpcPool) : Type 0 where
  nonempty : p.urls ≢ []
  others : List String
  heads : candidates p ≡ p.selected ∷ others

module _ (next reason : String) (p : RpcPool) where
  candidates-select : candidates (select next reason p) ≡ candidates p
  unfolding candidates is_healthy last_failure
  candidates-select = ground arith

  selected-select : (select next reason p).selected ≡ next
  selected-select = ground (arith, eq_iff next p.selected)

  urls-select : (select next reason p).urls ≡ p.urls
  urls-select = ground arith

candidates-ne-nil : (p : RpcPool) → p.urls ≢ [] → candidates p ≢ []
candidates-ne-nil p h e = h (sym (Perm.nil-eq (subst (λ l. Perm l p.urls) e (candidates-perm p))))

reselect-IsSettled : (reason : String) (p : RpcPool) → p.urls ≢ [] → IsSettled (reselect reason p)
unfolding reselect
reselect-IsSettled reason p h = go (candidates p) refl
  where
    go : (l : List String) → candidates p ≡ l → IsSettled (select_first l reason p)
    go [] e = absurd (candidates-ne-nil p h e)
    go (next ∷ rest) e = record {
      nonempty = rw (urls-select next reason p) h;
      others = rest;
      heads = rw (candidates-select next reason p, selected-select next reason p) e;
    }

urls-mark_unhealthy :
    (url reason : String) (now : ℕ) (p : RpcPool) → (mark_unhealthy url reason now p).urls ≡ p.urls
unfolding mark_unhealthy
urls-mark_unhealthy url reason now p = ground arith

urls-apply_result :
    (freshest now : ℕ) (p : RpcPool) (url : String) (o : ProbeOutcome)
    → (apply_result freshest now p url o).urls ≡ p.urls
unfolding apply_result mark_unhealthy
urls-apply_result freshest now p url (failed message) = ground arith
urls-apply_result freshest now p url (answered status latest) = ground arith

urls-apply_results :
    (freshest now : ℕ) (p : RpcPool) (rs : List (String × ProbeOutcome))
    → (apply_results freshest now p rs).urls ≡ p.urls
unfolding apply_results
urls-apply_results freshest now p [] = refl
urls-apply_results freshest now p ((url, o) ∷ rs) =
    urls-apply_results freshest now (apply_result freshest now p url o) rs
    ∙ urls-apply_result freshest now p url o

operate-IsSettled : (p : RpcPool) (op : Operation) → IsSettled p → IsSettled (operate p op)
unfolding operate report_failure run_probes
operate-IsSettled p (failure_reported url reason now) h =
    elim (Bool-cases (is_some (JsMap.get url p.state))) [
      | inl known ↦ rw known (
          reselect-IsSettled (url <> ": " <> get_or reason "call failed")
            (mark_unhealthy url (get_or reason "call failed") now p)
            (rw (urls-mark_unhealthy url (get_or reason "call failed") now p) h.nonempty))
      | inr unknown ↦ rw unknown h
    ]
operate-IsSettled p (probed probe now) h =
    let results = map (λ url. (url, probe url)) p.urls in
    reselect-IsSettled "health check" (apply_results (freshest_of results) now p results)
      (rw (urls-apply_results (freshest_of results) now p results) h.nonempty)

operate_all-IsSettled :
    (p : RpcPool) (ops : List Operation) → IsSettled p → IsSettled (operate_all p ops)
unfolding operate_all
operate_all-IsSettled p [] h = h
operate_all-IsSettled p (op ∷ ops) h =
    operate_all-IsSettled (operate p op) ops (operate-IsSettled p op h)

filter-All : {A : Type 0} (p : A → Bool) (xs : List A) → All (λ x. p x ≡ true) xs → filter p xs ≡ xs
filter-All p [] h = refl
filter-All p (x ∷ xs) h = ground (arith, h.0, filter-All p xs h.1)

filter-not-of_none :
    {A : Type 0} (p : A → Bool) (xs : List A) → filter p xs ≡ [] → filter (λ x. not (p x)) xs ≡ xs
filter-not-of_none p [] h = refl
filter-not-of_none p (x ∷ xs) h = ground (arith, filter-not-of_none p xs)

entry-healthy :
    (us : List String) (k : String)
    → (get_or (JsMap.get k (map (λ u. (u, unprobed u)) us)) (unprobed k)).healthy ≡ true
unfolding JsMap.get
entry-healthy [] k = refl
entry-healthy (u ∷ us) k = ground (arith, entry-healthy us k)

All-any : {A : Type 0} (P : A → Type 0) (xs : List A) → ((x : A) → P x) → All P xs
All-any P [] h = tt
All-any P (x ∷ xs) h = (h x, All-any P xs h)

new_pool-IsSettled :
    (us : List String) (lag : ℕ) (p : RpcPool) → new_pool us lag ≡ some p → IsSettled p
unfolding candidates is_healthy entry
new_pool-IsSettled [] lag p h = cc
new_pool-IsSettled (url ∷ rest) lag p h = subst IsSettled (some-injective fresh p h) (record {
  nonempty = λ e. cc;
  others = rest ++ sort_by (last_failure fresh) (filter (λ u. not (is_healthy fresh u)) fresh.urls);
  heads =
      ap
        (λ l. l ++ sort_by (last_failure fresh) (filter (λ u. not (is_healthy fresh u)) fresh.urls))
        (filter-All (is_healthy fresh) (url ∷ rest)
          (All-any (λ u. is_healthy fresh u ≡ true) (url ∷ rest) (entry-healthy (url ∷ rest))));
})
  where
    fresh : RpcPool
    fresh = record {
      urls = url ∷ rest;
      max_ledger_lag = lag;
      state = map (λ u. (u, unprobed u)) (url ∷ rest);
      selected = url;
      rotations = [];
    }

-- The selected endpoint is the first healthy one in the configured order; if none is healthy, it is
-- one that failed no later than any other.
pub record IsBest (p : RpcPool) : Type 0 where
  pub first_healthy :
      (filter (is_healthy p) p.urls ≡ [])
      ⊎ ((rest : List String) × (filter (is_healthy p) p.urls ≡ p.selected ∷ rest))
  pub oldest_failure :
      filter (is_healthy p) p.urls ≡ []
      → All (λ url. last_failure p p.selected ≤ last_failure p url) p.urls

first_of_append :
    (x : String) (xs ys rest : List String)
    → xs ++ ys ≡ x ∷ rest
    → (xs ≡ []) ⊎ ((rest' : List String) × (xs ≡ x ∷ rest'))
first_of_append x [] ys rest e = inl refl
first_of_append x (y ∷ xs) ys rest e = inr (xs, cc)

IsBest-of_IsSettled : (p : RpcPool) → IsSettled p → IsBest p
unfolding candidates
IsBest-of_IsSettled p h = record {
  first_healthy =
      first_of_append p.selected (filter (is_healthy p) p.urls)
        (sort_by (last_failure p) (filter (λ url. not (is_healthy p url)) p.urls)) h.others h.heads;
  oldest_failure = λ none_healthy.
      let all : filter (λ url. not (is_healthy p url)) p.urls ≡ p.urls =
        filter-not-of_none (is_healthy p) p.urls none_healthy in
      let sorted : sort_by (last_failure p) p.urls ≡ p.selected ∷ h.others =
        rw (none_healthy, all) at h.heads in
      subst (λ l. HeadLeast (last_failure p) l p.urls) sorted
        (sort_by-HeadLeast (last_failure p) p.urls);
}

-- After any probe cycles and failure reports, whatever the probes answer, the selected endpoint of a
-- pool is the first healthy one in the configured order, or, if none is healthy, one that failed no
-- later than any other; and the candidates are the pool's endpoints in some order.
pub operate_all-IsBest :
    (urls : List String) (lag : Option ℕ) (p : RpcPool) (ops : List Operation)
    → create_rpc_pool urls lag ≡ some p
    → IsBest (operate_all p ops) × Perm (candidates (operate_all p ops)) (operate_all p ops).urls
unfolding create_rpc_pool
operate_all-IsBest urls lag p ops h = (
  IsBest-of_IsSettled (operate_all p ops)
      (operate_all-IsSettled p ops (new_pool-IsSettled (dedupe urls) (get_or lag 10) p h)),
  candidates-perm (operate_all p ops),
)
