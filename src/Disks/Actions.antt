-- ===== src/Disks/Actions.antt =====
-- What the volume worker does for each action (diskSizeGiB, createVolumeDisk, attachVolumeDisk,
-- detachVolumeDisk, resizeVolumeDisk, deleteVolumeDisk and carryOutVolume of
-- api/internal/compute/volume_worker.go).
use Prim.Native.String.{len, slice, find as find_in, ◌++◌ as ◌^^◌}
use shake_cloud.Prelude.{
  ◌||◌, leb, ◌==◌, if◌then◌else◌, find, ℤ, pos, negsuc, ltℤ, contains, ℕ, ◌+◌, ◌/◌, ◌^◌, String,
  Bool, true, ◌&&◌, not, Option, none, some, List, [], ◌∷◌, str_eq,
}
use shake_cloud.Db.Volume.{create, attach, detach, resize, delete, Location, Volume}
use shake_cloud.Db.Instance.{
  shutting_down, terminated, Action, state_eq, Instance, same_action, is_none, has_id,
}
use shake_cloud.Admission.Host.{disk_tier_storage}
use shake_cloud.Disks.Cloud.{
  missing, busy, absent, give_up, fails_with, Outcome, fault, done, Eff, ◌>>=◌, ◌>>◌, give, stop,
  refuse_if, Stored, Cloud, Site, World, reading, calling, located, record_at,
}
use shake_cloud.Disks.Keys.{volid_at, disk_key_of, itoa, free_key, plugged}
use shake_cloud.Disks.Moves.{same_vm, owns, ensure_holder, locate, move, unplug}

-- The storage that a volume ID names, and the usual pool where it names none.
abbrev storage_of : Site → String → String
storage_of site volid =
    let name = slice volid 0 (find_in volid ":") in
    if leb (find_in volid ":") (len volid) && not (str_eq name "")
    then name
    else site.storage.vm_disks

abbrev size_in : String → List Stored → Option ℕ
size_in volid [] = none
size_in volid (d ∷ disks) =
    if str_eq d.vol_id volid then some (d.size / 2 ^ 30) else size_in volid disks

-- VolumeSerial: the first hyphen is left out.
abbrev volume_serial : String → String
volume_serial k = slice k 0 (find_in k "-") ^^ slice k (find_in k "-" + 1) (len k)

abbrev text_of : ℤ → String
text_of (pos n) = itoa n
text_of (negsuc n) = "-" ^^ itoa (n + 1)

abbrev found_instance : Option Instance → Outcome Instance
found_instance none = fault absent
found_instance (some i) = done i

-- VolumeID of an instance: "" is none.
abbrev instance_of : Volume → String
instance_of v = elim v.instance_id [ none ↦ "" | some k ↦ k ]

abbrev device_of : Volume → String
device_of v = elim v.device [ none ↦ "" | some d ↦ d ]

module _ (cloud : Cloud) where
  open cloud use {State, vm_config, pending_keys, list_disks, configure, unlink, resize_disk}

  unfoldable pub disk_size : Site → String → Eff (World cloud) (Option ℕ)
  disk_size site volid = if str_eq volid "" then give none else (do
    disks ← reading cloud (list_disks (storage_of site volid))
    give (size_in volid disks))

  -- Allocation on the holder, when no disk is known.
  unfoldable pub allocate : Site → Volume → Eff (World cloud) (Unit {0})
  allocate site v = do
    config ← reading cloud (vm_config site.holder)
    let key = free_key config "scsi" 0 30
    refuse_if (str_eq key "") (fails_with "no free scsi slot")
    refuse_if (is_none (disk_tier_storage site.storage v.disk_tier)) (give_up "no such disk tier")
    record_at cloud site v.id (record {
      vmid = none;
      config_key = "";
      vol_id = "";
      move_vmid = some site.holder;
      move_key = key;
    })
    calling cloud (
        configure site.holder key (
          elim (disk_tier_storage site.storage v.disk_tier) [ none ↦ "" | some pool ↦ pool ]
          ^^ ":"
          ^^ text_of v.size_gib
          ^^ ",discard=on"))
    locate cloud site v.id
    l ← located cloud
    refuse_if (str_eq l.vol_id "") (fails_with "the holder has no disk after allocating one")

  unfoldable pub create_volume_disk : Site → Volume → Eff (World cloud) (Unit {0})
  unfolding allocate
  create_volume_disk site v = do
    ensure_holder cloud site
    locate cloud site v.id
    l ← located cloud
    (if str_eq l.vol_id "" then allocate site v else give tt)
    unplug cloud site v.id

  abbrev instance_row : String → Eff (World cloud) Instance
  instance_row k w = (found_instance (find (has_id k) w.instances), w)

  -- The `switch` of attachVolumeDisk: the VM to attach to.
  abbrev ready_vm : Instance → Outcome ℕ
  ready_vm i =
      if state_eq i.state terminated || state_eq i.state shutting_down
      then fault (give_up "the instance is being terminated")
      else if not (is_none i.pending_action)
      then fault busy
      else elim i.vmid [
        | none ↦ fault (give_up "the instance has no VM")
        | some vmid ↦ if i.vm_created then done vmid else fault (give_up "the instance has no VM")
      ]

  unfoldable pub plug_in : Site → Volume → ℕ → Location → Eff (World cloud) (Unit {0})
  plug_in site v vmid l = do
    refuse_if (plugged l.config_key) (give_up "the disk is plugged in elsewhere")
    config ← reading cloud (vm_config vmid)
    refuse_if (not (str_eq (volid_at config (device_of v)) ""))
        (give_up "the device is already used on the VM")
    calling cloud (
        configure vmid (device_of v) (
          l.vol_id
          ^^ ",discard=on,serial="
          ^^ volume_serial v.id
          ^^ (if str_eq v.disk_tier "hdd" then ",backup=0" else "")))
    record_at cloud site v.id (record l { config_key = device_of v })

  unfoldable pub attach_volume_disk : Site → Volume → Eff (World cloud) (Unit {0})
  unfolding plug_in
  attach_volume_disk site v = do
    instance ← instance_row (instance_of v)
    vmid ← reading cloud (λ _. ready_vm instance)
    owned ← owns cloud vmid instance
    refuse_if (not owned) (give_up "the VM does not belong to the instance")
    locate cloud site v.id
    l ← located cloud
    (if same_vm l.vmid vmid then give tt else (unplug cloud site v.id >> move cloud site v.id vmid))
    l' ← located cloud
    (if str_eq l'.config_key (device_of v) then give tt else plug_in site v vmid l')
    waiting ← reading cloud (pending_keys vmid)
    refuse_if (contains waiting (device_of v)) (fails_with "the guest has not taken the device")

  abbrev may_unplug : Instance → Bool
  may_unplug i = is_none i.pending_action || same_action i.pending_action (some Action.terminate)

  unfoldable pub detach_volume_disk : Site → Volume → Eff (World cloud) (Unit {0})
  detach_volume_disk site v = do
    locate cloud site v.id
    l ← located cloud
    if is_none l.vmid || same_vm l.vmid site.holder then unplug cloud site v.id else (do
      (if plugged l.config_key
          then (do
            instance ← instance_row (instance_of v)
            refuse_if (not (may_unplug instance)) busy
            unplug cloud site v.id)
          else give tt)
      ensure_holder cloud site
      move cloud site v.id site.holder)

  -- Proxmox resizes plugged disks only.
  unfoldable pub plug_for_resize : Site → Volume → ℕ → Location → Eff (World cloud) (Unit {0})
  plug_for_resize site v vmid l = do
    refuse_if (not (vmid == site.holder)) busy
    config ← reading cloud (vm_config site.holder)
    let key = free_key config "scsi" 0 30
    refuse_if (str_eq key "") (fails_with "no free scsi slot")
    calling cloud (configure site.holder key (l.vol_id ^^ ",discard=on"))
    record_at cloud site v.id (record l { config_key = key })

  abbrev vm_of : Location → Outcome ℕ
  vm_of l = elim l.vmid [ none ↦ fault (give_up "the volume has no disk") | some vmid ↦ done vmid ]

  abbrev measured_or : Option ℕ → Outcome ℕ
  measured_or none = fault (fails_with "the disk was not found on its storage")
  measured_or (some size) = done size

  unfoldable pub resize_volume_disk : Site → Volume → Eff (World cloud) (Unit {0})
  unfolding disk_size plug_for_resize
  resize_volume_disk site v = do
    locate cloud site v.id
    l ← located cloud
    vmid ← reading cloud (λ _. vm_of l)
    found ← disk_size site l.vol_id
    current ← reading cloud (λ _. measured_or found)
    (if ltℤ (pos current) v.size_gib
        then (do
          (if plugged l.config_key then give tt else plug_for_resize site v vmid l)
          l' ← located cloud
          calling cloud (resize_disk vmid l'.config_key v.size_gib))
        else give tt)
    (if vmid == site.holder then unplug cloud site v.id else give tt)

  -- Once the disk is found, or there is none.
  unfoldable pub destroy : Site → Location → Eff (World cloud) (Unit {0})
  destroy site l = if str_eq l.vol_id "" then give tt else (do
    refuse_if (not (same_vm l.vmid site.holder)) (fails_with "the disk is not on the holder")
    calling cloud (unlink site.holder l.config_key true)
    config ← reading cloud (vm_config site.holder)
    refuse_if (not (str_eq (disk_key_of config l.vol_id) ""))
        (fails_with "the disk is still on the holder"))

  -- The measure after a disk was not where it was recorded.
  abbrev gone_or : Outcome (Option ℕ) × World cloud → Outcome (Unit {0}) × World cloud
  gone_or (done none, w) = (done tt, w)
  gone_or (o, w) = (fault missing, w)

  -- What follows the location of the disk.
  unfoldable pub delete_located :
      Site → Outcome (Unit {0}) × World cloud → Outcome (Unit {0}) × World cloud
  unfolding destroy disk_size
  delete_located site (fault missing, w) = gone_or (disk_size site w.location.vol_id w)
  delete_located site (fault busy, w) = (fault busy, w)
  delete_located site (fault absent, w) = (fault absent, w)
  delete_located site (fault (give_up reason), w) = (fault (give_up reason), w)
  delete_located site (fault (fails_with text), w) = (fault (fails_with text), w)
  delete_located site (done u, w) = destroy site w.location w

  unfoldable pub delete_volume_disk : Site → Volume → Eff (World cloud) (Unit {0})
  unfolding delete_located
  delete_volume_disk site v w = delete_located site (locate cloud site v.id w)

  unfoldable pub carry_out_volume : Site → Volume → Eff (World cloud) (Unit {0})
  unfolding create_volume_disk attach_volume_disk detach_volume_disk resize_volume_disk
      delete_volume_disk
  carry_out_volume site v = elim v.pending_action [
    | some create ↦ create_volume_disk site v
    | some attach ↦ attach_volume_disk site v
    | some detach ↦ detach_volume_disk site v
    | some resize ↦ resize_volume_disk site v
    | some delete ↦ delete_volume_disk site v
    | none ↦ stop (fails_with "unknown volume action")
  ]
