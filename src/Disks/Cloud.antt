-- ===== src/Disks/Cloud.antt =====
-- What the volume worker uses of Proxmox and of the database, as its calls in
-- api/internal/compute/volume_worker.go and api/internal/proxmox/disks.go document it, and its steps:
-- functions on the state of both that may fail, with what they have changed kept.
-- errDiskMissing, errBusy, giveUp with its reason, ErrNotFound, and any other error.
use shake_cloud.Prelude.{ℤ, ℕ, String, Bool, true, false, List}
use shake_cloud.Db.Volume.{Location}
use shake_cloud.Db.Volumes.{Volumes, record_location}
use shake_cloud.Db.Instances.{Rows}
use shake_cloud.Admission.Host.{Storage}
use shake_cloud.Admission.Vmid.{Quarantined}
use shake_cloud.Lifecycle.Reconcile.{Vm}

pub data Fault : Type 0 where
  missing busy absent : Fault
  give_up : String → Fault
  fails_with : String → Fault

pub data Outcome {ℓ} (A : Type ℓ) : Type ℓ where
  fault : Fault → Outcome A
  done : A → Outcome A

abbrev pub Eff {ℓ κ} : Type ℓ → Type κ → Type (ℓ ⊔ κ)
Eff S A = S → Outcome A × S

-- `if err != nil { return err }`, the state kept.
abbrev pub then_do {ℓ κ μ} :
    {S : Type ℓ} {A : Type κ} {B : Type μ} → Outcome A × S → (A → Eff S B) → Outcome B × S
then_do (fault e, s) next = (fault e, s)
then_do (done a, s) next = next a s

infixl 5 ◌>>=◌ ◌>>◌
abbrev pub ◌>>=◌ {ℓ κ μ} :
    {S : Type ℓ} {A : Type κ} {B : Type μ} → Eff S A → (A → Eff S B) → Eff S B
m >>= next = λ s. then_do (m s) next

abbrev pub ◌>>◌ {ℓ κ μ} : {S : Type ℓ} {A : Type κ} {B : Type μ} → Eff S A → Eff S B → Eff S B
m >> next = λ s. then_do (m s) (λ _. next)

abbrev pub give {ℓ κ} : {S : Type ℓ} {A : Type κ} → A → Eff S A
give a s = (done a, s)

abbrev pub stop {ℓ κ} : {S : Type ℓ} {A : Type κ} → Fault → Eff S A
stop e s = (fault e, s)

-- `if test { return refusal }`
abbrev pub refuse_if {ℓ} : {S : Type ℓ} → Bool → Fault → Eff S (Unit {0})
refuse_if true e = stop e
refuse_if false e = give tt

-- A VM's configuration; a value that is not a text is the empty one.
abbrev pub Config : Type 0
Config = List (String × String)

-- A disk of a storage and its size in bytes.
pub record Stored : Type 0 where
  pub vol_id : String
  pub size : ℕ

pub record Cloud : Type 1 where
  pub State : Type 0
  pub vm_config : ℕ → State → Outcome Config
  pub list_vms : State → Outcome (List Vm)
  -- The keys of VMPending.
  pub pending_keys : ℕ → State → Outcome (List String)
  pub list_disks : String → State → Outcome (List Stored)
  pub create_holder : ℕ → Eff State (Unit {0})
  -- ConfigureVM and its task.
  pub configure : ℕ → String → String → Eff State (Unit {0})
  pub unlink : ℕ → String → Bool → Eff State (Unit {0})
  -- MoveDisk and its task.
  pub move_disk : ℕ → String → ℕ → String → Eff State (Unit {0})
  pub resize_disk : ℕ → String → ℤ → Eff State (Unit {0})
  -- A write of the database.
  pub commit : Eff State (Unit {0})

-- The site, and what the worker calls of the clock.
pub record Site : Type 0 where
  pub holder : ℕ
  pub storage : Storage
  pub now : ℕ

module _ (cloud : Cloud) where
  open cloud use {State, commit}

  -- The hypervisor, the tables, and the location that the volume in hand carries.
  pub record World : Type 0 where
    pub state : State
    pub volumes : Volumes
    pub instances : Rows
    pub location : Location
    pub quarantine : List Quarantined

  -- A call that only reads.
  abbrev pub reading {ℓ} : {A : Type ℓ} → (State → Outcome A) → Eff World A
  reading call w = (call w.state, w)

  abbrev pub on_state {ℓ} : {A : Type ℓ} → World → Outcome A × State → Outcome A × World
  on_state w (o, s) = (o, record w { state = s })

  abbrev pub calling {ℓ} : {A : Type ℓ} → Eff State A → Eff World A
  calling call w = on_state w (call w.state)

  abbrev pub located : Eff World Location
  located w = (done w.location, w)

  abbrev pub set_location : Location → Eff World (Unit {0})
  set_location l w = (done tt, record w { location = l })

  abbrev pub write_location : ℕ → String → Location → Eff World (Unit {0})
  write_location now k l w = (done tt, record w { volumes = record_location now k l w.volumes })

  -- `*l = …` and db.RecordLocation, which writes nothing when it fails.
  abbrev pub record_at : Site → String → Location → Eff World (Unit {0})
  record_at site k l = do set_location l; calling commit; write_location site.now k l
