-- ===== src/Groups.antt =====
-- Security groups: the requests of their owners (api/internal/compute/securitygroups.go), and what
-- they owe to the firewalls of instances.
pub mod Rules
pub mod Handlers
pub mod Renders
pub mod Wanted
pub mod Owed
pub mod Changes
pub mod Comings
pub mod Due
pub mod Behind
pub mod Settles
pub mod Follows
mod Examples
