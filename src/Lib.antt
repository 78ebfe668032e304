-- ===== src/Lib.antt =====
-- Vellar dapp: the services behind a Stellar smart wallet. Each file below models one TypeScript
-- source (paths from the root of the repository) as functions on explicit states.
--
-- Parts and files:
--   Prelude, JsMap       shared names, lists, texts and numbers; JavaScript's `Map` with text keys
--   ServiceKit           packages/service-kit/src: CircuitBreaker (circuit-breaker.ts), Retry
--                        (retry.ts, with the delays of services/worker-service/src/backoff.ts and of
--                        policy-deploy-worker.ts), Budget (budget.ts, pg-budget.ts), RpcPool
--                        (rpc-pool.ts), Publisher (publisher.ts)
--   PolicyService        services/policy-service/src: EventQueue (event-queue.ts), DlqStore
--                        (dlq-store.ts), DeployWorker (policy-deploy-worker.ts), AdminDlq
--                        (admin-dlq.ts), Templates (templates.ts, with the definition of a policy
--                        of packages/types/src/index.ts), Attach (verify-attach.ts), Deployment
--                        (deployment.ts, validation.ts and the routes of server.ts that
--                        generate, deploy and attach, of users and administrators), PolicyList
--                        (the list of server.ts, by pages)
--   LifecycleService     services/lifecycle-service/src: Horizon (horizon.ts), AccountCache
--                        (account-cache.ts), Planner (planner.ts), Builder (builder.ts; its child
--                        Resume tracks and resumes a plan)
--   WalletService        services/wallet-service/src: Scope (scope.ts), Replay (replay.ts),
--                        MergePlanner (merge-planner.ts), SubmissionWorker
--                        (worker/submission-worker.ts, db/pg-tx-store.ts and
--                        submission-error-classifier.ts)
--   ApiGateway           services/api-gateway/src: IdempotencyStore (idempotency-store.ts),
--                        TokenBucket (token-bucket.ts)
--   WorkerService        services/worker-service/src: JobStore (memory-job-store.ts),
--                        ErrorClassification (error-classification.ts), WasmCompare
--                        (wasm-compare.ts; its children Utf8 and Compare hold the decoder of texts
--                        and the verdict)
--   Web                  apps/web/lib: AgentGrants (agent-grants.ts), Swap (swap/quote.ts; its child
--                        Client has swap/client.ts)
--
-- How the parts meet: the deployment worker moves a job that is out of attempts to the dead-letter
-- store, from which the administrators' routes requeue it into the job store; the planner and the
-- builder read the same account, and the estimate of the one counts the steps of the other; the scope
-- gate and the replay guard read the same auth entries of a transaction. The deployment of a policy
-- takes the arguments that the templates generated, pays from the spend budget, and asks the attach
-- verification before it records an attach.
--
-- State and operations: a closure or a class with fields is a record, a method a function from state
-- and arguments to the new state and the result, under the method's name in snake case. What is
-- thrown is `none` or a constructor. The clock, drawn ids and random numbers are arguments; times are
-- milliseconds since some start, numbers are natural. A table in JavaScript's `Map` keeps its order
-- of insertion. Texts that only repeat other fields of an answer are left out.
--
-- Bounds: `retry_loop` recurses on the attempts left. `process_all` of the event queue runs on
-- fuel, and the attempts left to the pending messages are enough for a handler that enqueues
-- nothing. `build_from` takes the number of operations as fuel, of which each round removes one at
-- least. `follow_pages` has the page cap of the source as its fuel. `read_sections` and
-- `read_entries` run on as much fuel as there are bytes, of which each round takes one at least.
-- Numbers are unbounded: the source's are floating point or BigInt, and the rounding of large
-- floating-point amounts is not modelled. The LEB128 numbers of a module are below 2^32: the
-- reader refuses others, as the source does.
--
-- Parameters: the Stellar SDK (transaction parser, envelopes, hashes), Horizon's pages, probes,
-- the deployer and, for the deployment worker, the policy repository; the venue of swaps, the URL
-- parser, SHA-256 and base64url. Postgres is modelled for the spend budget, as the ledger's rows
-- under the lock that the statement takes; for the table of submissions, as a map by its primary
-- key in which an insert on a key that is there does nothing; and for the policies of Deployment,
-- as a map by their ids whose writes may fail.
--
-- Two requests that overlap are two sequences of steps that interleave, where a route waits for the
-- chain: Deployment has the steps of a deploy and of an attach before and after the wait.
--
-- Not modelled: HTTP servers, user interface, the other SQL stores, contracts in Rust, metrics and
-- tracing, reading of environment variables, redaction of error texts; the worker that runs builds
-- (Docker and git), the relayer, and the browser extension.
pub mod Prelude
pub mod JsMap
pub mod ServiceKit
pub mod PolicyService
pub mod LifecycleService
pub mod WalletService
pub mod ApiGateway
pub mod WorkerService
pub mod Web
