-- ===== src/Launch.antt =====
-- Launching an instance: Service.Run of api/internal/compute/service.go with what it validates and
-- what it resolves.
pub mod Media
pub mod Network
pub mod Validate
pub mod Run
pub mod Admitted
pub mod Again
pub mod Created
mod Examples
