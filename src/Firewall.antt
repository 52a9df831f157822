-- ===== src/Firewall.antt =====
-- The firewall of one virtual machine: what its security groups make of it, and how it is written
-- to the hypervisor (api/internal/compute/firewall.go and api/internal/proxmox/firewall.go).
pub mod Rule
pub mod Render
pub mod Packets
pub mod Traffic
pub mod Node
pub mod Filter
pub mod Applied
pub mod Replace
pub mod Loops
pub mod Exact
mod Examples
mod Runs
