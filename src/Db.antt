-- ===== src/Db.antt =====
-- The data model and the statements of api/internal/db.
pub mod Instance
pub mod Instances
pub mod Keys
pub mod Volume
pub mod Volumes
pub mod Groups
pub mod FirewallWork
