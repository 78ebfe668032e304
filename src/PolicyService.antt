-- ===== src/PolicyService.antt =====
-- services/policy-service/src: the event queue, the dead-letter queue, the deployment worker, the
-- templates of policies, the deployment of a policy with the check of its attach, and the list of
-- policies.
pub mod EventQueue
pub mod DlqStore
pub mod DeployWorker
pub mod AdminDlq
pub mod Templates
pub mod Attach
pub mod Deployment
pub mod PolicyList
