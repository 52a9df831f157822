-- ===== src/Machines/Launches.antt =====
-- The steps of a launch (resourcesOf, launch, address, uploadSeed, instanceDiskStorage, createVM and
-- moveVMID of api/internal/compute/worker.go). The cache of range numbers is left out, and the seed
-- ISO's content is a parameter.
use Prim.Native.String.{◌++◌ as ◌^^◌}
use shake_cloud.Prelude.{
  if◌then◌else◌, ℤ, ℕ, String, Bool, true, false, not, Option, none, some, List, [], ◌∷◌, map,
  str_eq,
}
use shake_cloud.Db.Instance.{Instance, is_none}
use shake_cloud.Db.Instances.{Rows, Resources, record_resources}
use shake_cloud.Admission.Host.{disk_tier_storage}
use shake_cloud.Lifecycle.Reconcile.{Vm}
use shake_cloud.Disks.Cloud.{
  Fault, give_up, fails_with, Outcome, fault, done, Eff, ◌>>=◌, ◌>>◌, give, stop, Config, Cloud,
  Site, World, reading, calling,
}
use shake_cloud.Disks.Moves.{contains_text, owns}
use shake_cloud.Machines.Interface.{Address, Machines}
use shake_cloud.Admission.Vmid.{Quarantined, allocate_vmid, quarantine_vmid, skip_vmids}
use shake_cloud.Launch.Media.{Image, Iso}
use shake_cloud.Launch.Network.{Network, instance_subnet}
use shake_cloud.Machines.Params.{vm_params, install_vm_params}
use shake_cloud.Machines.Steps.{status_of, grow_disk, volume_exists}
use shake_cloud.Result.{Result, err, ok}

abbrev pub resources_of : Instance → Resources
resources_of i = record {
  vmid = i.vmid;
  vm_created = i.vm_created;
  ip_address = i.ip_address;
  netbox_ip_id = i.netbox_ip_id;
  seed_volume = i.seed_volume;
}

-- The site, with what images and ISOs resolve to.
pub record Ground : Type 0 where
  pub site : Site
  pub network : Network
  pub masked : String → String
  pub node_pool : String
  pub vmid_from : ℕ
  pub vmid_to : ℕ
  pub probes : List ℕ
  pub image : String → Outcome Image
  pub iso : String → Outcome Iso
  pub size_gib : String → ℤ

abbrev pub of_result : Result ℕ → Outcome ℕ
of_result (err e) = fault (fails_with "no VMID is free")
of_result (ok n) = done n

abbrev number_or_fault : Option ℕ → Outcome ℕ
number_or_fault none = fault (fails_with "the instance has no VMID")
number_or_fault (some n) = done n

abbrev pool_or_fault : Option String → Outcome String
pool_or_fault none = fault (fails_with "this deployment does not have the disk tier")
pool_or_fault (some pool) = done pool

-- strings.Contains(err.Error(), "already exists")
abbrev is_taken : Fault → Bool
is_taken (fails_with text) = contains_text text "already exists"
is_taken (give_up text) = contains_text text "already exists"
is_taken other = false

module _ (cloud : Cloud) (machines : Machines cloud) where
  open cloud use {list_vms, commit}
  open machines use {
    vm_status, power, create_vm, delete_volume, upload_iso, addresses_of, range_id, allocate_ip,
    hostname, seed_iso,
  }

  abbrev write_resources : ℕ → String → Resources → Eff (World cloud) (Unit {0})
  write_resources now k r w =
      (done tt, record w { instances = record_resources now k r w.instances })

  -- The closure `record`.
  abbrev pub save : Site → Instance → Resources → Eff (World cloud) (Unit {0})
  save site i r = calling cloud commit >> write_resources site.now i.id r

  -- An address that an interrupted attempt took is taken again.
  unfoldable pub address : Ground → Instance → Eff (World cloud) Address
  address g i = do
    existing ← reading cloud (addresses_of i.id)
    elim existing [
      | a ∷ rest ↦ give a
      | [] ↦ (do
        range ←
            reading cloud (range_id (instance_subnet g.masked g.network i.subnet).ip_range_start)
        calling cloud (allocate_ip range i.id (hostname i)))
    ]

  unfoldable pub upload_seed : Ground → Instance → String → Eff (World cloud) String
  upload_seed g i ip_address = do
    iso ← reading cloud (λ _. seed_iso i ip_address)
    let storage = g.site.storage.images
    let name = "shakecloud-" ^^ i.id ^^ ".iso"
    let volume = storage ^^ ":iso/" ^^ name
    exists ← volume_exists cloud machines storage volume
    (if exists then calling cloud (delete_volume storage volume) else give tt)
    calling cloud (upload_iso storage name iso)
    give volume

  abbrev tables : Eff (World cloud) (Rows × List Quarantined)
  tables w = (done (w.instances, w.quarantine), w)

  abbrev write_quarantine : ℕ → String → Eff (World cloud) (Unit {0})
  write_quarantine n reason w =
      (done tt, record w { quarantine = quarantine_vmid n reason w.quarantine })

  -- The transaction: nothing is written if no other number is free. It always ends in an error, so
  -- that the launch is tried again.
  unfoldable pub move_vmid :
      Ground → Instance → Resources → List Vm → ℕ → String → Eff (World cloud) (Unit {0})
  move_vmid g i r visible old reason = do
    (rows, quarantine) ← tables
    vmid ← reading cloud (λ _. of_result (
        allocate_vmid g.vmid_from g.vmid_to
          (skip_vmids g.site.holder g.probes (map (λ (vm : Vm). vm.vmid) visible)) rows
          (quarantine_vmid old reason quarantine)))
    calling cloud commit
    write_quarantine old reason
    write_resources g.site.now i.id (record r { vmid = some vmid })
    stop (fails_with "the VMID was taken; moved to another")

  -- The parameters of the new VM.
  unfoldable pub new_params : Ground → Instance → Resources → ℕ → Eff (World cloud) Config
  new_params g i r vmid = do
    pool ← reading cloud (λ _. pool_or_fault (disk_tier_storage g.site.storage i.disk_tier))
    let tag = (instance_subnet g.masked g.network i.subnet).bridge_tag
    if not (str_eq i.install_iso_id "")
        then (do
          install ← reading cloud (λ _. g.iso i.install_iso_id)
          driver ←
              (if str_eq i.driver_iso_id ""
                then give ""
                else (do d ← reading cloud (λ _. g.iso i.driver_iso_id); give d.volume))
          give (
              install_vm_params g.network g.node_pool (hostname i) tag i vmid r.seed_volume
                install.volume driver pool))
        else (do
          image ← reading cloud (λ _. g.image i.image_id)
          give (
              vm_params g.network g.node_pool (hostname i) tag i vmid r.seed_volume image.volume
                image.os pool))

  -- CreateVM, and what follows its error.
  abbrev created_or :
      Ground
      → Instance
      → Resources
      → List Vm
      → ℕ
      → Outcome (Unit {0}) × World cloud
      → Outcome (Unit {0}) × World cloud
  created_or g i r visible vmid (done u, w) = (done u, w)
  created_or g i r visible vmid (fault e, w) =
      if is_taken e
      then move_vmid g i r visible vmid
          "Proxmox reports the VMID already exists outside the cloud pool" w
      else (fault e, w)

  unfoldable pub create_instance_vm :
      Ground → Instance → Resources → ℕ → Eff (World cloud) (Unit {0})
  unfolding new_params move_vmid
  create_instance_vm g i r vmid = do
    params ← new_params g i r vmid
    vms ← reading cloud list_vms
    if not (is_none (status_of vms vmid))
        then (do
          owned ← owns cloud vmid i
          if owned
              then give tt
              else move_vmid g i r vms vmid "occupied by a VM the API did not create")
        else (λ w. created_or g i r vms vmid (calling cloud (create_vm params) w))

  abbrev with_address : Resources → Address → Resources
  with_address r a = record r { ip_address = a.address; netbox_ip_id = some a.id }

  -- Each step is skipped when an earlier attempt recorded its result.
  unfoldable pub addressed : Ground → Instance → Resources → Eff (World cloud) Resources
  unfolding address
  addressed g i r =
      if is_none r.netbox_ip_id
      then (do a ← address g i; save g.site i (with_address r a); give (with_address r a))
      else give r

  unfoldable pub seeded : Ground → Instance → Resources → Eff (World cloud) Resources
  unfolding upload_seed
  seeded g i r =
      if str_eq r.seed_volume ""
      then (do
        volume ← upload_seed g i r.ip_address
        save g.site i (record r { seed_volume = volume })
        give (record r { seed_volume = volume }))
      else give r

  unfoldable pub with_vm : Ground → Instance → Resources → Eff (World cloud) ℕ
  unfolding create_instance_vm
  with_vm g i r = do
    vmid ← reading cloud (λ _. number_or_fault r.vmid)
    (if r.vm_created
        then give tt
        else (do create_instance_vm g i r vmid; save g.site i (record r { vm_created = true })))
    give vmid

  -- Service.launch; `write_firewall` is Service.writeFirewall.
  unfoldable pub launch_vm :
      (String → Eff (World cloud) (Unit {0})) → Ground → Instance → Eff (World cloud) (Unit {0})
  unfolding addressed seeded with_vm
  launch_vm write_firewall g i = do
    r ← addressed g i (resources_of i)
    r' ← seeded g i r
    vmid ← with_vm g i r'
    grow_disk cloud machines g.size_gib i vmid
    write_firewall i.id
    status ← reading cloud (vm_status vmid)
    if str_eq status "running" then give tt else calling cloud (power vmid "start")
