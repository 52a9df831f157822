-- ===== src/Disks.antt =====
-- The disks of volumes on the hypervisor (api/internal/compute/volume_worker.go).
pub mod Cloud
pub mod Keys
pub mod Moves
pub mod Actions
pub mod Returns
pub mod Steps
pub mod Crash
mod Examples
