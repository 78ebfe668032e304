-- ===== src/WorkerService/ErrorClassification/Permanent.antt =====
-- services/worker-service/src/error-classification.ts: exactly which failures are permanent.
use vellar_dapp.WorkerService.ErrorClassification.{
  Thrown, transient, permanent, looks_transient, resolve_verdict, executor_verdict,
  is_transient_failure, classify_error,
}
use vellar_dapp.Prelude.{
  if◌then◌else◌, Bool-cases, get_or, any, String, ◌≡◌, refl, ◌↔◌, ◌⊎◌, inl, inr, Bool, true, false,
  ◌&&◌, ◌||◌, Option, none, some, List, [], ◌∷◌, arith, str_eq, eq_iff,
}

abbrev pub resolve_permanent : List String
resolve_permanent = "not_found" ∷ "not_wasm" ∷ []

abbrev pub executor_permanent : List String
executor_permanent =
    "not_configured" ∷ "artifact_missing" ∷ "repo_url_rejected" ∷ "unsupported_source"
    ∷ "dependencies_unresolved" ∷ []

abbrev pub is_one_of : List String → String → Bool
is_one_of codes code = any (λ (c : String). str_eq code c) codes

-- The name and the code of a permanent error.
abbrev pub has_permanent_code : Thrown → Bool
has_permanent_code e =
    (str_eq e.name "ArtifactResolveError" && is_one_of resolve_permanent e.code)
    || (str_eq e.name "BuildExecutorError" && is_one_of executor_permanent e.code)

-- Two different texts are not both the same text.
not_both : (s a b : String) → str_eq a b ≡ false → str_eq s a ≡ true → str_eq s b ≡ false
not_both s a b d h = ground (arith, eq_iff s a, eq_iff s b, eq_iff a b)

resolve_verdict_exact :
    (e : Thrown)
    → (resolve_verdict e ≡ some false)
      ↔ (str_eq e.name "ArtifactResolveError" && is_one_of resolve_permanent e.code ≡ true)
unfolding resolve_verdict
resolve_verdict_exact e = ground arith

executor_verdict_exact :
    (e : Thrown)
    → (executor_verdict e ≡ some false)
      ↔ (str_eq e.name "BuildExecutorError" && is_one_of executor_permanent e.code ≡ true)
unfolding executor_verdict
executor_verdict_exact e = ground (
  arith,
  not_both e.code "artifact_missing" "clone_failed" refl,
  not_both e.code "artifact_missing" "build_failed" refl,
  not_both e.code "repo_url_rejected" "clone_failed" refl,
  not_both e.code "repo_url_rejected" "build_failed" refl,
  not_both e.code "unsupported_source" "clone_failed" refl,
  not_both e.code "unsupported_source" "build_failed" refl,
  not_both e.code "dependencies_unresolved" "clone_failed" refl,
  not_both e.code "dependencies_unresolved" "build_failed" refl,
)

resolve_verdict-other :
    (e : Thrown) → str_eq e.name "BuildExecutorError" ≡ true → resolve_verdict e ≡ none
unfolding resolve_verdict
resolve_verdict-other e h =
    rw (not_both e.name "BuildExecutorError" "ArtifactResolveError" refl h) refl

executor_verdict-other :
    (e : Thrown) → str_eq e.name "BuildExecutorError" ≡ false → executor_verdict e ≡ none
unfolding executor_verdict
executor_verdict-other e h = rw h refl

verdict_exact :
    (looks : Bool) (r x : Option Bool) (R X : Bool)
    → (r ≡ some false) ↔ (R ≡ true)
    → (x ≡ some false) ↔ (X ≡ true)
    → (r ≡ none) ⊎ (x ≡ none)
    → ((if (if looks then true else get_or r (get_or x true)) then transient else permanent)
        ≡ permanent)
      ↔ ((R || X ≡ true) × (looks ≡ false))
verdict_exact looks r x R X f g one = ground arith

-- An error is permanent exactly if it has one of the seven permanent codes with the class that throws
-- it, and neither its name nor its message looks transient. So an error that the resolver marks as not
-- found is retried where a hash in its message happens to hold "500".
pub classify_error_exact :
    (e : Thrown)
    → (classify_error e ≡ permanent)
      ↔ ((has_permanent_code e ≡ true) × (e.is_error && looks_transient e ≡ false))
unfolding classify_error is_transient_failure
classify_error_exact e =
    verdict_exact (e.is_error && looks_transient e) (resolve_verdict e) (executor_verdict e)
      (str_eq e.name "ArtifactResolveError" && is_one_of resolve_permanent e.code)
      (str_eq e.name "BuildExecutorError" && is_one_of executor_permanent e.code)
      (resolve_verdict_exact e) (executor_verdict_exact e)
      (elim (Bool-cases (str_eq e.name "BuildExecutorError")) [
        | inl executor ↦ inl (resolve_verdict-other e executor)
        | inr other ↦ inr (executor_verdict-other e other)
      ])
