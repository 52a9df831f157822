-- ===== src/Machines/Steps.antt =====
-- The steps of power and terminate (power, setOnboot, volumeExists, growDisk, terminate of
-- api/internal/compute/worker.go). The flag that setOnboot remembers is left out.
use shake_cloud.Prelude.{
  ◌||◌, ◌==◌, if◌then◌else◌, any, ℤ, ltℤ, lookup, contains, ℕ, String, Bool, ◌&&◌, not, Option,
  none, some, List, [], ◌∷◌, str_eq,
}
use shake_cloud.Db.Instance.{Instance}
use shake_cloud.Lifecycle.Reconcile.{Vm, find_vm}
use shake_cloud.Disks.Cloud.{
  fails_with, Outcome, fault, done, Eff, ◌>>=◌, ◌>>◌, give, refuse_if, Cloud, Site, World, reading,
  calling,
}
use shake_cloud.Disks.Moves.{text_or_empty, owns}
use shake_cloud.Disks.Returns.{return_volumes}
use shake_cloud.Machines.Interface.{Address, Machines}

abbrev pub found_status : Option Vm → Option String
found_status none = none
found_status (some vm) = some vm.status

abbrev pub status_of : List Vm → ℕ → Option String
status_of vms vmid = found_status (find_vm vms (some vmid))

abbrev vm_or_fault : Instance → Outcome ℕ
vm_or_fault i = elim i.vmid [
  | none ↦ fault (fails_with "the instance has no VM")
  | some vmid ↦ if i.vm_created then done vmid else fault (fails_with "the instance has no VM")
]

abbrev listed_or_fault : Option String → Outcome String
listed_or_fault none = fault (fails_with "the VM is not in the cloud pool")
listed_or_fault (some status) = done status

module _ (cloud : Cloud) (machines : Machines cloud) where
  open cloud use {list_vms, vm_config, resize_disk}
  open machines use {
    power, delete_vm, update_config, list_isos, delete_volume, addresses_of, delete_ip,
  }

  -- The autostart flag follows what the owner asked for.
  unfoldable pub follow_onboot : ℕ → String → Eff (World cloud) (Unit {0})
  follow_onboot vmid action =
      if str_eq action "start"
      then calling cloud (update_config vmid "onboot" "1")
      else if str_eq action "shutdown"
      then calling cloud (update_config vmid "onboot" "0")
      else give tt

  abbrev pub needs_nothing : String → String → Bool
  needs_nothing action status =
      (str_eq action "start" && str_eq status "running")
      || (str_eq action "shutdown" && str_eq status "stopped")

  -- Service.power
  unfoldable pub power_vm : Instance → String → Eff (World cloud) (Unit {0})
  unfolding follow_onboot
  power_vm i action = do
    vmid ← reading cloud (λ _. vm_or_fault i)
    vms ← reading cloud list_vms
    status ← reading cloud (λ _. listed_or_fault (status_of vms vmid))
    owned ← owns cloud vmid i
    refuse_if (not owned) (fails_with "the VM does not belong to the instance")
    follow_onboot vmid action
    if needs_nothing action status then give tt else calling cloud (power vmid action)

  -- Service.growDisk; `size_gib` reads the size out of a disk's text, in GiB rounded down,
  -- which compares with whole numbers like the size itself.
  unfoldable pub grow_disk : (String → ℤ) → Instance → ℕ → Eff (World cloud) (Unit {0})
  grow_disk size_gib i vmid = do
    config ← reading cloud (vm_config vmid)
    if not (ltℤ (size_gib (text_or_empty (lookup "virtio0" config))) i.root_disk_gib)
        then give tt
        else calling cloud (resize_disk vmid "virtio0" i.root_disk_gib)

  unfoldable pub volume_exists : String → String → Eff (World cloud) Bool
  volume_exists storage volume = do
    isos ← reading cloud (list_isos storage)
    give (contains isos volume)

  -- Stopping a VM and saving its volumes.
  unfoldable pub save_volumes : Site → Instance → ℕ → String → Eff (World cloud) (Unit {0})
  save_volumes site i vmid status = do
    (if str_eq status "running" then calling cloud (power vmid "stop") else give tt)
    return_volumes cloud site i.id vmid

  -- Deleting a VM that the instance owns, with every disk it holds.
  unfoldable pub delete_owned : Site → Instance → ℕ → String → Eff (World cloud) (Unit {0})
  unfolding save_volumes
  delete_owned site i vmid status = do
    save_volumes site i vmid status
    calling cloud (delete_vm vmid)

  -- What is done with a VM of the status, if there is one.
  unfoldable pub remove_listed : Site → Instance → ℕ → Option String → Eff (World cloud) (Unit {0})
  unfolding delete_owned
  remove_listed site i vmid none = give tt
  remove_listed site i vmid (some status) = do
    owned ← owns cloud vmid i
    if owned then delete_owned site i vmid status else give tt

  unfoldable pub remove_vm : Site → Instance → ℕ → Eff (World cloud) (Unit {0})
  unfolding remove_listed
  remove_vm site i vmid = do
    vms ← reading cloud list_vms
    remove_listed site i vmid (status_of vms vmid)

  unfoldable pub remove_seed : Site → Instance → Eff (World cloud) (Unit {0})
  unfolding volume_exists
  remove_seed site i = if str_eq i.seed_volume "" then give tt else (do
    exists ← volume_exists site.storage.images i.seed_volume
    if exists then calling cloud (delete_volume site.storage.images i.seed_volume) else give tt)

  -- The loop over the addresses that carry the instance's ID.
  unfoldable pub release_each : List Address → Eff (World cloud) (Unit {0})
  release_each [] = give tt
  release_each (a ∷ rest) = calling cloud (delete_ip a.id) >> release_each rest

  abbrev pub is_released : List Address → ℕ → Bool
  is_released addresses id = any (λ (a : Address). a.id == id) addresses

  unfoldable pub release_recorded : List Address → Option ℕ → Eff (World cloud) (Unit {0})
  release_recorded addresses none = give tt
  release_recorded addresses (some id) =
      if is_released addresses id then give tt else calling cloud (delete_ip id)

  unfoldable pub release_addresses : Instance → Eff (World cloud) (Unit {0})
  unfolding release_each release_recorded
  release_addresses i = do
    addresses ← reading cloud (addresses_of i.id)
    release_each addresses
    release_recorded addresses i.netbox_ip_id

  abbrev remove_numbered : Site → Instance → Option ℕ → Eff (World cloud) (Unit {0})
  remove_numbered site i none = give tt
  remove_numbered site i (some vmid) = remove_vm site i vmid

  -- Service.terminate
  unfoldable pub terminate_vm : Site → Instance → Eff (World cloud) (Unit {0})
  unfolding remove_vm remove_seed release_addresses
  terminate_vm site i = do remove_numbered site i i.vmid; remove_seed site i; release_addresses i
