-- ===== src/Disks/Returns.antt =====
-- Saving volumes from a VM that is about to be deleted (returnVolumes and refuseToDestroyVolumes of
-- api/internal/compute/volume_worker.go; VolumesOnVM of api/internal/db/volumes.go).
use Prim.Native.String.{◌++◌ as ◌^^◌}
use shake_cloud.Prelude.{
  ◌||◌, if◌then◌else◌, any, select, contains, codes, ℕ, String, Bool, false, ◌&&◌, not, Option,
  none, some, List, [], ◌∷◌, ◌++◌, str_eq,
}
use shake_cloud.Db.Volume.{Location, Volume}
use shake_cloud.Db.Volumes.{Volumes, is_live_volume, volumes_of_instance, return_to_holder}
use shake_cloud.Db.Instance.{is_none}
use shake_cloud.Disks.Cloud.{
  fails_with, Outcome, fault, done, Eff, ◌>>=◌, ◌>>◌, give, Config, Cloud, Site, World, calling,
  located, set_location,
}
use shake_cloud.Disks.Keys.{before_comma, is_disk_key}
use shake_cloud.Disks.Moves.{volume_by_volid, same_vm, ensure_holder, locate, move, unplug}

abbrev pub is_on_vm : ℕ → Volume → Bool
is_on_vm vmid v =
    is_live_volume v && (same_vm v.location.vmid vmid || same_vm v.location.move_vmid vmid)

-- The order by key is left out: the loop below takes each volume once.
unfoldable pub volumes_on_vm : ℕ → Volumes → Volumes
volumes_on_vm vmid volumes = select (is_on_vm vmid) volumes

abbrev pub without_seen : List String → Volumes → Volumes
without_seen seen [] = []
without_seen seen (v ∷ rows) =
    let skipped = without_seen seen rows in
    let kept = without_seen (v.id ∷ seen) rows in if contains seen v.id then skipped else v ∷ kept

abbrev terminated_reason : String → List ℕ
terminated_reason k =
    codes ("Client.InstanceTerminated: detached when instance " ^^ k ^^ " was terminated")

abbrev of_instance : String → Option String → Bool
of_instance k none = false
of_instance k (some i) = str_eq i k

-- A configured disk that a live volume records.
unfoldable pub is_recorded : Volumes → String × String → Bool
unfolding is_disk_key volume_by_volid
is_recorded volumes (key, value) =
    is_disk_key key
    && not (str_eq (before_comma value) "")
    && not (is_none (volume_by_volid (before_comma value) volumes))

-- The loop of refuseToDestroyVolumes, over what VMConfig answers.
unfoldable pub none_recorded : Volumes → Outcome Config → Outcome (Unit {0})
unfolding is_recorded
none_recorded volumes (fault e) = fault e
none_recorded volumes (done config) =
    if any (is_recorded volumes) config
    then fault (fails_with "the VM still holds a volume's disk; not deleting it")
    else done tt

module _ (cloud : Cloud) where
  open cloud use {vm_config, commit}

  abbrev written : ℕ → String → Location → List ℕ → Eff (World cloud) (Unit {0})
  written now k l reason w =
      (done tt, record w { volumes = return_to_holder now k l reason w.volumes })

  -- The body of the loop, for one volume.
  unfoldable pub return_volume : Site → String → ℕ → Volume → Eff (World cloud) (Unit {0})
  return_volume site instance vmid v = do
    set_location cloud v.location
    locate cloud site v.id
    l ← located cloud
    (if same_vm l.vmid vmid
        then (do unplug cloud site v.id; ensure_holder cloud site; move cloud site v.id site.holder)
        else give tt)
    l' ← located cloud
    if of_instance instance v.instance_id
        then (do calling cloud commit; written site.now v.id l' (terminated_reason instance))
        else give tt

  unfoldable pub return_each : Site → String → ℕ → Volumes → Eff (World cloud) (Unit {0})
  unfolding return_volume
  return_each site instance vmid [] = give tt
  return_each site instance vmid (v ∷ rows) =
      return_volume site instance vmid v >> return_each site instance vmid rows

  -- The last check before a VM is deleted.
  unfoldable pub refuse_to_destroy_volumes : ℕ → Eff (World cloud) (Unit {0})
  unfolding none_recorded
  refuse_to_destroy_volumes vmid w = (none_recorded w.volumes (vm_config vmid w.state), w)

  unfoldable pub return_volumes : Site → String → ℕ → Eff (World cloud) (Unit {0})
  unfolding return_each refuse_to_destroy_volumes
  return_volumes site instance vmid w =
      let on_vm = volumes_on_vm vmid w.volumes in
      let attached = volumes_of_instance instance w.volumes in
      (return_each site instance vmid (without_seen [] (on_vm ++ attached))
          >> refuse_to_destroy_volumes vmid)
        w
