-- ===== src/Lifecycle.antt =====
-- The life of an instance: the requests of its owner, the worker that carries them out, and the
-- diagram of states that both follow (api/internal/compute/service.go and worker.go).
pub mod Request
pub mod Backoff
pub mod Worker
pub mod Diagram
pub mod Evolves
pub mod RequestSteps
pub mod WorkerSteps
pub mod Reach
pub mod Fate
pub mod Asking
pub mod Claim
pub mod Rounds
pub mod Reconcile
pub mod Observed
pub mod Reconciled
mod Examples
