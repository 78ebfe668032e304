-- ===== src/WorkerService.antt =====
-- services/worker-service/src: the store of verification jobs, the classification of errors and the
-- comparison of wasm modules.
pub mod JobStore
pub mod ErrorClassification
pub mod WasmCompare
