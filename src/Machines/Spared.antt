-- ===== src/Machines/Spared.antt =====
-- What a terminate never deletes (terminate, owns, returnVolumes and refuseToDestroyVolumes of
-- api/internal/compute/worker.go and volume_worker.go).
use shake_cloud.Prelude.{All, ℕ, String, ◌≡◌, true, false}
use shake_cloud.Db.Volumes.{Volumes}
use shake_cloud.Db.Instance.{Instance}
use shake_cloud.Disks.Cloud.{Fault, Outcome, fault, done, Config, Cloud, Site, World, calling}
use shake_cloud.Disks.Moves.{owns}
use shake_cloud.Disks.Returns.{is_recorded}
use shake_cloud.Machines.Interface.{Machines}
use shake_cloud.Machines.Steps.{save_volumes}

module _ (cloud : Cloud) (machines : Machines cloud) where
  open cloud use {vm_config, list_vms}
  open machines use {delete_vm}

  -- No disk that the VM is configured with is recorded by a live volume.
  abbrev pub HoldsNone : ℕ → World cloud → Type 0
  HoldsNone vmid w =
      (config : Config) × (vm_config vmid w.state ≡ done config)
      × All (λ entry. is_recorded w.volumes entry ≡ false) config

  -- The ways in which a VM's removal ends.
  pub data Removal (site : Site) (i : Instance) (vmid : ℕ) (w : World cloud)
      (r : Outcome (Unit {0}) × World cloud) : Type 0 where
    -- Nothing is touched: the VM is not listed, a read failed, or it is not the instance's.
    untouched : r.1 ≡ w → Removal site i vmid w r
    -- The volumes could not be saved, and the VM is not deleted.
    unsaved :
        (status : String) (e : Fault)
        → owns cloud vmid i w ≡ (done true, w)
        → (save_volumes cloud machines site i vmid status w).0 ≡ fault e
        → r ≡ (fault e, (save_volumes cloud machines site i vmid status w).1)
        → Removal site i vmid w r
    -- The VM is deleted, in a world where it holds no volume's disk.
    deleted_empty :
        (w' : World cloud)
        → owns cloud vmid i w ≡ (done true, w)
        → HoldsNone vmid w'
        → r ≡ calling cloud (delete_vm vmid) w'
        → Removal site i vmid w r
