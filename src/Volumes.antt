-- ===== src/Volumes.antt =====
-- Volumes: the requests of their owner, and the worker that carries them out
-- (api/internal/compute/volumes.go and volume_worker.go).
pub mod Requests
pub mod Create
pub mod Created
pub mod Granted
pub mod Worker
pub mod Coherence
pub mod Keys
pub mod Steps
pub mod Requested
pub mod Reach
mod Examples
mod Orders
