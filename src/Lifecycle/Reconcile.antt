-- ===== src/Lifecycle/Reconcile.antt =====
-- Service.Reconcile of api/internal/compute/reconcile.go: what the hypervisor shows of settled
-- instances is recorded. The onboot flag, which it sets on the hypervisor alone, is left out.
use shake_cloud.Prelude.{
  ltb, ◌==◌, if◌then◌else◌, length, find, All, codes, ℕ, suc, ◌<◌, String, ◌≡◌, refl, ap, Bool,
  true, false, ◌&&◌, not, Option, none, some, List, [], ◌∷◌, arith, str_eq,
}
use shake_cloud.Result.{Err, Result, err, ok}
use shake_cloud.Db.Instance.{State, running, stopped, state_eq, Instance, is_none}
use shake_cloud.Db.Instances.{Rows, settled_instances, observe_state, note_reason}

-- The fields that the reconciler reads of proxmox.VM.
pub record Vm : Type 0 where
  pub vmid : ℕ
  pub status : String

abbrev pub find_vm : List Vm → Option ℕ → Option Vm
find_vm vms none = none
find_vm vms (some n) = find (λ vm. vm.vmid == n) vms

abbrev pub missing_reason : List ℕ
missing_reason = codes "Server.VMMissing: the VM is not in the cloud pool"

abbrev pub has_prefix : List ℕ → List ℕ → Bool
has_prefix [] s = true
has_prefix (p ∷ ps) [] = false
has_prefix (p ∷ ps) (c ∷ s) = (p == c) && has_prefix ps s

abbrev pub observed_of : String → Option State
observed_of status =
    if str_eq status "running"
    then some running
    else if str_eq status "stopped"
    then some stopped
    else none

abbrev pub shutdown_reason : State → List ℕ
shutdown_reason stopped = codes "Client.InstanceInitiatedShutdown: the VM stopped outside the API"
shutdown_reason _ = []

-- The `switch` on what was observed.
unfoldable pub settle : ℕ → Instance → Option State → Rows → Rows
settle now i none rows = rows
settle now i (some observed) rows =
    if not (state_eq observed i.state)
    then observe_state now i.id i.state observed (shutdown_reason observed) rows
    else if has_prefix (codes "Server.VMMissing") i.state_reason
    then note_reason now i.id [] rows
    else rows

abbrev pub differs : Option State → State → Bool
differs none s = false
differs (some observed) s = not (state_eq observed s)

abbrev pub with_live : ℕ → Instance → Result String → Rows → Option Err × Rows
with_live now i (ok status) rows = (none, settle now i (observed_of status) rows)
with_live now i (err e) rows = (some e, rows)

-- `live` is the status that the machine itself answers.
abbrev pub reconcile_vm : ℕ → (ℕ → Result String) → Instance → Option Vm → Rows → Option Err × Rows
reconcile_vm now live i none rows = (none, note_reason now i.id missing_reason rows)
reconcile_vm now live i (some vm) rows =
    let seen = observed_of vm.status in
    if differs seen i.state
    then with_live now i (live vm.vmid) rows
    else (none, settle now i seen rows)

-- The loop: an error ends it, and what was written stays.
unfoldable pub reconcile_each : ℕ → List Vm → (ℕ → Result String) → Rows → Rows → Option Err × Rows
reconcile_each now vms live [] rows = (none, rows)
reconcile_each now vms live (i ∷ instances) rows =
    let (failure, rows') = reconcile_vm now live i (find_vm vms i.vmid) rows in
    let rest = reconcile_each now vms live instances rows' in
    elim failure [ none ↦ rest | some e ↦ (some e, rows') ]

abbrev pub count_missing : List Vm → Rows → ℕ
count_missing vms [] = 0
count_missing vms (i ∷ instances) =
    let rest = count_missing vms instances in
    if is_none (find_vm vms i.vmid) then suc rest else rest

abbrev pub reconcile_listed :
    ℕ → (ℕ → Result String) → Rows → Rows → Result (List Vm) → Option Err × Rows
reconcile_listed now live instances rows (err e) = (some e, rows)
reconcile_listed now live instances rows (ok vms) =
    let missing = count_missing vms instances in
    if missing == length instances && ltb 1 missing
    then (none, rows)
    else reconcile_each now vms live instances rows

unfoldable pub reconcile : ℕ → Result (List Vm) → (ℕ → Result String) → Rows → Option Err × Rows
unfolding reconcile_each
reconcile now vms live rows =
    let instances = settled_instances now rows in
    if length instances == 0 then (none, rows) else reconcile_listed now live instances rows vms

count_missing-length :
    (vms : List Vm) (instances : Rows)
    → All (λ i. find_vm vms i.vmid ≡ none) instances
    → count_missing vms instances ≡ length instances
count_missing-length vms [] h = refl
count_missing-length vms (i ∷ instances) h =
    rw h.0 (ap suc (count_missing-length vms instances h.1))

blind :
    (instances : Rows) (missing : ℕ) (x y : Option Err × Rows)
    → 1 < length instances
    → missing ≡ length instances
    → (if length instances == 0
        then y
        else if missing == length instances && ltb 1 missing
        then y
        else x)
      ≡ y
blind instances missing x y several e = ground arith

-- When more than one instance is settled and the hypervisor shows none of them, it is not believed:
-- nothing is written, and no error is answered.
pub reconcile_blind :
    (now : ℕ) (vms : List Vm) (live : ℕ → Result String) (rows : Rows)
    → 1 < length (settled_instances now rows)
    → All (λ i. find_vm vms i.vmid ≡ none) (settled_instances now rows)
    → reconcile now (ok vms) live rows ≡ (none, rows)
unfolding reconcile
reconcile_blind now vms live rows several h =
    let instances = settled_instances now rows in
    let none_seen = count_missing-length vms instances h in
    blind instances (count_missing vms instances) (reconcile_each now vms live instances rows)
      (none, rows) several none_seen
