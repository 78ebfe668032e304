-- ===== src/WorkerService/ErrorClassification/Tests.antt =====
-- services/worker-service/src/error-classification.ts: a hash that looks like a status.
use vellar_dapp.WorkerService.ErrorClassification.{
  Thrown, transient, permanent, looks_transient, resolve_verdict, executor_verdict,
  is_transient_failure, classify_error,
}
use vellar_dapp.WorkerService.ErrorClassification.Permanent.{
  has_permanent_code, classify_error_exact,
}
use vellar_dapp.Prelude.{String, ◌<>◌, ◌≡◌, refl, ◌↔◌, true, false, ◌&&◌, to_lower}

abbrev missing : String → Thrown
missing hash = record {
  is_error = true;
  name = "ArtifactResolveError";
  message = "wasm " <> (hash <> " not found on-chain");
  code = "not_found";
}

classify_error_exact_example : (classify_error (missing "ab12") ≡ permanent) ↔ (
    (has_permanent_code (missing "ab12") ≡ true)
    × ((missing "ab12").is_error && looks_transient (missing "ab12") ≡ false))
classify_error_exact_example = classify_error_exact (missing "ab12")

two_hashes :
    (classify_error (missing "ab12") ≡ permanent) × (classify_error (missing "a500") ≡ transient)
unfolding classify_error is_transient_failure looks_transient resolve_verdict executor_verdict
    to_lower
two_hashes = (refl, refl)
