-- ===== src/Admission.antt =====
-- What a launch or a resize is allowed to take: limits, sizes, quotas and the host's capacity
-- (api/internal/compute/service.go, modify.go, capacity.go and api/internal/site/site.go).
pub mod Limits
pub mod Size
pub mod Bootable
pub mod Usage
pub mod Quota
pub mod Host
pub mod HostBounds
pub mod Vmid
pub mod Modify
pub mod Resizes
mod Examples
