-- ===== src/Lib.antt =====
-- shake-cloud: a small cloud on one Proxmox VE node. This library models the core of its API
-- server, the Go module under api/, and proves properties of it.
--
-- The parts and how they interact. A user's request for an instance is admitted (sizes, quotas, the
-- host) and written to a Postgres table together with the action that is owed. A worker claims one
-- row at a time under a lease, carries the action out on the hypervisor, and records the outcome: the
-- action is finished, tried again later, or given up. Volumes have a table and a worker of the same
-- shape. A reconciler records what the hypervisor shows of settled instances. A change of security
-- groups raises a generation on the rows of the instances it concerns; a third worker claims a row
-- that is behind, renders the rules of its groups, and replaces the machine's own rules by them.
--
-- Prelude: tests, lists, 64-bit integers and texts. Result: Go's errors and the transaction.
-- Db.Instance, Db.Instances (api/internal/db/instances.go): the row, and each SQL statement as a
--   function on the list of rows: InsertInstance is insert_instance, ClaimWork is claim_work, and so
--   on. Db.Keys: what the primary key gives. Db.Volume, Db.Volumes (api/internal/db/volumes.go): the
--   same for volumes. Db.Groups, Db.FirewallWork (api/internal/db/securitygroups.go): groups, rules,
--   members, and the work that is owed to firewalls.
-- Lifecycle.Request (Service.Request of api/internal/compute/service.go), Lifecycle.Backoff and
--   Lifecycle.Worker (backoff, carryOut and process of api/internal/compute/worker.go), and
--   Lifecycle.Reconcile (Reconcile of api/internal/compute/reconcile.go). Observed and
--   Reconciled say what it writes. The other modules of Lifecycle state the diagram of states and what
--   follows for any sequence of writes. What a step
--   does to the hypervisor is here the parameter Effects: any outcome.
-- Machines.Interface, Params, Launches, Steps (api/internal/compute/worker.go): those effects: launch,
--   power, terminate, and the parameters of a new VM. Machines.Spared holds proofs.
-- Launch.Validate, Network, Media and Run (RunRequest, validate, Run, idempotent, launchSubnet of
--   api/internal/compute/service.go; api/internal/compute/images.go and isos.go; SubnetList and
--   Launchable of api/internal/site/site.go): a launch, from its request to the rows it leaves.
--   Launch.Again, Admitted and Created hold proofs.
-- Admission.Limits, Size, Usage, Quota, Host and Vmid (api/internal/compute/service.go, modify.go,
--   capacity.go, api/internal/site/site.go, api/internal/db/limits.go and instances.go): limits and
--   overrides, resolveSpec and ModifyRequest.target, usage sums, checkQuota, checkHost, AllocateVMID.
--   Admission.Modify: Modify of modify.go as a whole. Bootable, HostBounds and Resizes hold proofs.
-- Volumes.Create, Volumes.Requests (api/internal/compute/volumes.go) and Volumes.Worker (processVolume
--   of api/internal/compute/volume_worker.go): CreateVolume, ModifyVolume, DeleteVolume, AttachVolume,
--   DetachVolume, and a round of the volume worker, with the outcome of its step as the parameter
--   VolumeOutcome. Volumes.Created, Granted, Coherence, Keys, Steps, Requested and Reach hold proofs.
-- Disks.Cloud, Keys, Moves, Actions and Returns (api/internal/compute/volume_worker.go): those steps:
--   locate, move, unplug, creating, attaching, detaching, resizing and deleting a disk, and returning
--   the disks of a VM that is to go. Disks.Steps and Crash hold proofs.
-- Groups.Rules and Handlers (api/internal/compute/securitygroups.go): validateRules and the requests
--   about groups. Groups.Behind: their changes and the steps of the firewall's worker, interleaved. The
--   other modules of Groups hold proofs.
-- Firewall.Rule, Render, Replace and Filter (api/internal/compute/firewall.go and
--   api/internal/proxmox/firewall.go): renderFirewall, sameRules, replaceRules, pinAddress, filterNIC
--   and applyFirewall. Firewall.Node is an interface with laws: rules are listed by position, an
--   insertion lands at the top, and a call that fails has had its effect or none. Firewall.Packets says
--   which packets rules are about. The other modules hold proofs.
--
-- Conventions. A table is the list of its rows, and a statement runs alone: row locks that others
-- hold are the parameter `locked` of a claim. Times and durations are nanoseconds, times since
-- Go's zero time. The messages of refusals are left out. A text is a list of bytes where its bytes
-- matter; Postgres refuses a statement with a text that is not UTF-8 (`stored` of Prelude.Texts).
-- An `int` and an `int64` are integers that wrap at 64 bits where the code adds, subtracts or
-- shifts; the sums of Postgres do not wrap. The calls of Proxmox and NetBox are parameters; a step
-- is a function on the state of both, and one that fails keeps what it has changed. A server that
-- stops in the middle of a step is one whose later calls all fail. One firewall worker has a row
-- at a time, since its lease outlives the time it is allotted. No model that runs on fuel can run
-- out of it: a search for a free disk key has as many tries as there are keys in use and one more,
-- a number is printed with 20 digits at most, which a 64-bit number has, and the other fuels are
-- the lengths of the texts and lists that are read.
--
-- Not modelled: failures of the database connection, the HTTP layer, uploads of images and
-- ISOs, buckets, databases, functions and services, the ledger's synchronisation with
-- NetBox, adoption, accounts, audit, keys and sessions, loading and validating the site file, the
-- content of the seed ISO and the host name in it (parameters of a launch), the console relay, the
-- Proxmox HTTP client, and the clients: library, command line, MCP server and Terraform provider.
pub mod Prelude
pub mod Result
pub mod Db
pub mod Lifecycle
pub mod Firewall
pub mod Admission
pub mod Volumes
pub mod Groups
pub mod Launch
pub mod Disks
pub mod Machines
