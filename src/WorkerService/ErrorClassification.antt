-- ===== src/WorkerService/ErrorClassification.antt =====
-- services/worker-service/src/error-classification.ts: which failures of a verification are retried.
-- A thrown value is an `Error` or not; `name` and `code` are the empty text where it has none.
pub mod Permanent
mod Tests
use vellar_dapp.Prelude.{
  if◌then◌else◌, get_or, String, Bool, true, false, not, ◌&&◌, ◌||◌, Option, none, some, List, [],
  ◌∷◌, str_eq, contains, to_lower,
}

pub record Thrown : Type 0 where
  pub is_error : Bool
  pub name : String
  pub message : String
  pub code : String

pub data ErrorClassification : Type 0 where
  transient permanent : ErrorClassification

abbrev pub has_any : List String → String → Bool
has_any [] message = false
has_any (mark ∷ marks) message = contains message mark || has_any marks message

abbrev connection_marks : List String
connection_marks =
    "econnrefused" ∷ "econnreset" ∷ "connection refused" ∷ "connection reset"
    ∷ "network unreachable" ∷ []

abbrev dns_marks : List String
dns_marks = "dns" ∷ "enotfound" ∷ "getaddrinfo" ∷ []

abbrev socket_marks : List String
socket_marks = "socket" ∷ "hang up" ∷ "broken pipe" ∷ "epipe" ∷ "econnaborted" ∷ []

abbrev rate_marks : List String
rate_marks = "rate limit" ∷ "too many requests" ∷ []

abbrev sync_marks : List String
sync_marks = "temporarily unavailable" ∷ "node is syncing" ∷ "not ready" ∷ "not synced" ∷ []

abbrev status_marks : List String
status_marks = "500" ∷ "502" ∷ "503" ∷ []

-- The tests on the name and the message of an `Error`.
unfoldable pub looks_transient : Thrown → Bool
looks_transient e =
    let message = to_lower e.message in
    str_eq e.name "TimeoutError"
    || (contains message "timeout"
        || (has_any connection_marks message
            || (str_eq e.name "EAI_AGAIN"
                || (str_eq e.name "ENOTFOUND"
                    || (has_any dns_marks message
                        || (has_any socket_marks message
                            || (has_any rate_marks message
                                || (has_any sync_marks message
                                    || (has_any status_marks message
                                        || (contains message "rpc"
                                            && not (contains message "not found")))))))))))

-- The classification by code of the two error classes; `none` where none of the codes applies.
unfoldable pub resolve_verdict : Thrown → Option Bool
resolve_verdict e =
    if str_eq e.name "ArtifactResolveError"
    then if str_eq e.code "not_found"
      then some false
      else if str_eq e.code "not_wasm"
      then some false
      else if str_eq e.code "rpc_error"
      then some true
      else none
    else none

unfoldable pub executor_verdict : Thrown → Option Bool
executor_verdict e =
    if str_eq e.name "BuildExecutorError"
    then if str_eq e.code "not_configured"
      then some false
      else if str_eq e.code "clone_failed"
      then some true
      else if str_eq e.code "build_failed"
      then some true
      else if str_eq e.code "artifact_missing"
      then some false
      else if str_eq e.code "repo_url_rejected"
      then some false
      else if str_eq e.code "unsupported_source"
      then some false
      else if str_eq e.code "dependencies_unresolved"
      then some false
      else if str_eq e.code "dependency_fetch_failed"
      then some true
      else none
    else none

unfoldable pub is_transient_failure : Thrown → Bool
unfolding looks_transient resolve_verdict executor_verdict
is_transient_failure e =
    let by_executor = get_or (executor_verdict e) true in
    let by_code = get_or (resolve_verdict e) by_executor in
    if e.is_error && looks_transient e then true else by_code

unfoldable pub classify_error : Thrown → ErrorClassification
unfolding is_transient_failure
classify_error e = if is_transient_failure e then transient else permanent
