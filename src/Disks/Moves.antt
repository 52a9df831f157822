-- ===== src/Disks/Moves.antt =====
-- Finding and moving a volume's disk (ensureHolder, volIDClaimed, locate, move and unplug of
-- api/internal/compute/volume_worker.go; VolumeByVolID of api/internal/db/volumes.go).
use Prim.Native.String.{len, find as find_in}
use shake_cloud.Prelude.{
  leb, ◌==◌, if◌then◌else◌, any, find, lookup, contains, ℕ, String, Bool, true, false, ◌&&◌, not,
  Option, none, some, str_eq,
}
use shake_cloud.Db.Volume.{Location, Volume}
use shake_cloud.Db.Volumes.{Volumes, is_live_volume}
use shake_cloud.Db.Instance.{Instance, is_none}
use shake_cloud.Disks.Cloud.{
  missing, give_up, fails_with, Outcome, fault, done, Eff, ◌>>=◌, ◌>>◌, give, refuse_if, Config,
  Cloud, Site, World, reading, calling, located, record_at,
}
use shake_cloud.Disks.Keys.{volid_at, disk_key_of, free_key, is_unused, plugged}
use shake_cloud.Lifecycle.Reconcile.{Vm}

abbrev pub text_or_empty : Option String → String
text_or_empty none = ""
text_or_empty (some s) = s

-- strings.Contains
abbrev pub contains_text : String → String → Bool
contains_text s t = leb (find_in s t) (len s)

abbrev pub has_marker : Config → Bool
has_marker config =
    contains_text (text_or_empty (lookup "description" config)) "shake-cloud volume holder"

-- A live volume that records the disk.
abbrev pub records_disk : String → Volume → Bool
records_disk volid v = str_eq v.location.vol_id volid && is_live_volume v

unfoldable pub volume_by_volid : String → Volumes → Option Volume
volume_by_volid volid volumes = find (records_disk volid) volumes

abbrev pub same_vm : Option ℕ → ℕ → Bool
same_vm none n = false
same_vm (some m) n = m == n

-- volIDClaimed
abbrev pub volid_claimed : String → String → Volumes → Bool
volid_claimed volid except volumes = elim (volume_by_volid volid volumes) [
  | none ↦ false
  | some other ↦ not (str_eq other.id except)
]

module _ (cloud : Cloud) where
  open cloud use {vm_config, list_vms, create_holder, pending_keys, unlink, move_disk}

  -- An adopted VM is owned; any other says whose it is in its description.
  unfoldable pub owns : ℕ → Instance → Eff (World cloud) Bool
  owns vmid i = if i.adopted then give true else (do
    config ← reading cloud (vm_config vmid)
    give (contains_text (text_or_empty (lookup "description" config)) i.id))

  unfoldable pub ensure_holder : Site → Eff (World cloud) (Unit {0})
  ensure_holder site = do
    vms ← reading cloud list_vms
    if any (λ (vm : Vm). vm.vmid == site.holder) vms
        then (do
          config ← reading cloud (vm_config site.holder)
          refuse_if (not (has_marker config)) (give_up "the VMID is taken"))
        else calling cloud (create_holder site.holder)

  abbrev volumes_of : Eff (World cloud) Volumes
  volumes_of w = (done w.volumes, w)

  -- The disk is under a key of the VM that the row names.
  abbrev pub found_at : Site → String → Location → String → Eff (World cloud) Bool
  found_at site k l key =
      if str_eq key ""
      then give false
      else if str_eq key l.config_key && is_none l.move_vmid
      then give true
      else (record_at cloud site k (record l { config_key = key; move_vmid = none; move_key = "" })
          >> give true)

  abbrev pub found_here : Site → String → Location → Option ℕ → Eff (World cloud) Bool
  found_here site k l none = give false
  found_here site k l (some vmid) = if str_eq l.vol_id "" then give false else (do
    config ← reading cloud (vm_config vmid)
    found_at site k l (disk_key_of config l.vol_id))

  -- The disk is under the key of the VM that a move was going to.
  abbrev pub arrived : Site → String → Location → ℕ → String → Eff (World cloud) Bool
  arrived site k l vmid volid = if str_eq volid "" then give false else (do
    volumes ← volumes_of
    if volid_claimed volid k volumes
        then give false
        else (record_at cloud site k (record {
          vmid = some vmid;
          config_key = l.move_key;
          vol_id = volid;
          move_vmid = none;
          move_key = "";
        })
            >> give true))

  abbrev pub found_there : Site → String → Location → Option ℕ → Eff (World cloud) Bool
  found_there site k l none = give false
  found_there site k l (some vmid) = if str_eq l.move_key "" then give false else (do
    config ← reading cloud (vm_config vmid)
    arrived site k l vmid (volid_at config l.move_key))

  unfoldable pub locate : Site → String → Eff (World cloud) (Unit {0})
  locate site k = do
    l ← located cloud
    here ← found_here site k l l.vmid
    if here then give tt else (do
      there ← found_there site k l l.move_vmid
      if there then give tt else refuse_if (not (str_eq l.vol_id "")) missing)

  abbrev pub only_unused : Location → Outcome ℕ
  only_unused l = elim l.vmid [
    | none ↦ fault (fails_with "not an unused disk that can move")
    | some source ↦
        if is_unused l.config_key
        then done source
        else fault (fails_with "not an unused disk that can move")
  ]

  -- What follows the call that moves the disk.
  unfoldable pub after_move : Site → String → ℕ → String → Eff (World cloud) (Unit {0})
  after_move site k target key = do
    moved ← reading cloud (vm_config target)
    let volid = volid_at moved key
    refuse_if (str_eq volid "") (fails_with "the disk did not arrive")
    record_at cloud site k (record {
      vmid = some target;
      config_key = key;
      vol_id = volid;
      move_vmid = none;
      move_key = "";
    })

  -- What follows the check of where the disk is.
  unfoldable pub move_from : Site → String → ℕ → Location → ℕ → Eff (World cloud) (Unit {0})
  unfolding after_move
  move_from site k target l source = do
    config ← reading cloud (vm_config target)
    let key = free_key config "unused" 0 255
    refuse_if (str_eq key "") (fails_with "no free unused slot")
    record_at cloud site k (record l { move_vmid = some target; move_key = key })
    calling cloud (move_disk source l.config_key target key)
    after_move site k target key

  unfoldable pub move : Site → String → ℕ → Eff (World cloud) (Unit {0})
  unfolding move_from
  move site k target = do
    l ← located cloud
    source ← reading cloud (λ _. only_unused l)
    move_from site k target l source

  unfoldable pub unplug_from : Site → String → Location → Option ℕ → Eff (World cloud) (Unit {0})
  unplug_from site k l none = give tt
  unplug_from site k l (some vmid) = if not (plugged l.config_key) then give tt else (do
    calling cloud (unlink vmid l.config_key false)
    waiting ← reading cloud (pending_keys vmid)
    refuse_if (contains waiting l.config_key) (fails_with "the guest has not released the disk")
    config ← reading cloud (vm_config vmid)
    let key = disk_key_of config l.vol_id
    refuse_if (not (is_unused key)) (fails_with "the disk is still plugged in")
    record_at cloud site k (record l { config_key = key }))

  unfoldable pub unplug : Site → String → Eff (World cloud) (Unit {0})
  unfolding unplug_from
  unplug site k = do l ← located cloud; unplug_from site k l l.vmid
