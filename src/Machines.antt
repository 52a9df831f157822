-- ===== src/Machines.antt =====
-- The virtual machines of instances: what a launch, a power action and a terminate do to the
-- hypervisor and to the ledger of addresses (api/internal/compute/worker.go).
pub mod Interface
pub mod Params
pub mod Steps
pub mod Launches
pub mod Spared
mod Examples
