-- ===== src/Admission/Examples.antt =====
-- Admissions on a small site.
use shake_cloud.Prelude.{
  if◌then◌else◌, pos, ◌+ℤ◌, ◌-ℤ◌, ◌≤ℤ◌, wrap64, lookup, ℕ, ◌+◌, ◌*◌, ◌^◌, ◌≤◌, ◌<◌, String, ◌≡◌,
  refl, ◌⊎◌, true, false, none, some, List, [], ◌∷◌, arith,
}
use shake_cloud.Result.{no_vmid, Result, ok}
use shake_cloud.Db.Instance.{State, running, stopped, terminated, Instance}
use shake_cloud.Db.Instances.{Rows}
use shake_cloud.Admission.Limits.{Limits}
use shake_cloud.Admission.Size.{
  InstanceType, Spec, SizeRequest, ModifyRequest, or_default, validate_spec, resolve_spec,
}
use shake_cloud.Admission.Usage.{account_usage, live_memory_mib}
use shake_cloud.Admission.Quota.{check_quota, IsAdmitted, check_quota-admits}
use shake_cloud.Admission.Host.{
  NodeStatus, StorageStatus, Storage, Proxmox, check_disk_pool, check_host, disk_tier_storage,
  disk_tier_pool, tier_of_storage,
}
use shake_cloud.Admission.HostBounds.{
  tier_of_storage-disk_tier, IsBelow, check_host-leaves, check_host_wraps,
}
use shake_cloud.Admission.Bootable.{IsBootable, resolve_spec-IsBootable}
use shake_cloud.Admission.Modify.{Machine}
use shake_cloud.Admission.Vmid.{
  is_free, allocate_vmid, quarantine_vmid, allocate_vmid-least, allocate_vmid-none,
  quarantined_stays,
}

abbrev limits : Limits
limits = record {
  account_quota = record {
    instances = pos 4;
    vcpus = pos 8;
    memory_mib = pos 8192;
    root_disk_gib = pos 200;
    volumes = pos 16;
    volume_gib = pos 1000;
  };
  root_disk_gib = record { least = pos 10; most = pos 100; usual = pos 20 };
  volume_size_gib = record { least = pos 1; most = pos 500 };
  capacity = record {
    memory_budget_mib = pos 8192;
    node_memory_reserve_mib = pos 4096;
    vm_disk_max_used_percent = pos 80;
    image_store_min_free_mib = pos 2048;
    max_image_gib = pos 0;
  };
}

abbrev types : List (String × InstanceType)
types =
    ("small", record { cpu_cores = pos 2; memory_mib = pos 2048; memory_min_mib = pos 1024 }) ∷ []

-- The preset, with more memory than it has.
abbrev asked : SizeRequest
asked = record {
  instance_type = "small";
  vcpus = none;
  memory_mib = some (pos 4096);
  memory_min_mib = none;
  ballooning = none;
}

abbrev given : Spec
given = record {
  cpu_cores = pos 2;
  memory_mib = pos 4096;
  memory_min_mib = pos 1024;
  ballooning = true;
  type_name = "";
}

resolve_spec-IsBootable_example :
    IsBootable given
    × (given.cpu_cores ≡ or_default none given.cpu_cores)
    × (given.memory_mib ≡ or_default (some (pos 4096)) given.memory_mib)
    × (given.ballooning ≡ or_default none true)
    × (given.memory_min_mib
        ≡ (if given.ballooning then or_default none given.memory_min_mib else pos 0))
unfolding resolve_spec validate_spec lookup
resolve_spec-IsBootable_example = resolve_spec-IsBootable types asked refl

abbrev reshaped : ModifyRequest
reshaped = record {
  vcpus = none;
  memory_mib = some (pos 1024);
  memory_min_mib = none;
  ballooning = none;
  root_disk_gib = some (pos 30);
}

abbrev instance_of : String → State → Instance
instance_of k s = record {
  id = k;
  account_id = "a1";
  owner_username = "ann";
  client_token = k;
  request_sha256 = [];
  name = "web";
  image_id = "img-debian";
  guest_os = "";
  install_iso_id = "";
  driver_iso_id = "";
  instance_type = "";
  cpu_cores = pos 2;
  memory_mib = pos 4096;
  memory_min_mib = pos 1024;
  ballooning = true;
  root_disk_gib = pos 20;
  disk_tier = "ssd";
  subnet = "";
  user_data = "";
  key_name = "";
  key_public_key = "";
  tags = [];
  state = s;
  pending_action = none;
  state_reason = [];
  last_error = [];
  attempts = 0;
  next_attempt_at = 5;
  lease_until = none;
  vmid = some 9000;
  vm_created = false;
  mac_address = "";
  ip_address = "";
  netbox_ip_id = none;
  seed_volume = "";
  launch_time = 1;
  terminated_at = none;
  updated_at = 1;
  adopted = false;
  firewall_generation = 0;
  firewall_applied = 0;
  firewall_last_error = "";
  firewall_next_attempt_at = 0;
  firewall_lease_until = none;
}

abbrev rows : Rows
rows = instance_of "i-1" running ∷ instance_of "i-2" terminated ∷ []

check_quota-admits_example :
    IsAdmitted limits
      (account_usage "a1" (instance_of "i-3" running ∷ rows) [])
      (live_memory_mib (instance_of "i-3" running ∷ rows))
unfolding check_quota account_usage live_memory_mib ◌+ℤ◌ wrap64
check_quota-admits_example =
    check_quota-admits "a1" given (pos 20) (instance_of "i-3" running) limits rows [] refl refl
      (refl, refl, refl)
      (
        (omega arith, omega arith),
        (omega arith, omega arith),
        (omega arith, omega arith),
        (omega arith, omega arith),
        (omega arith, omega arith),
      )

-- 9000 is held, 9001 is the volume holder's, 9002 is quarantined.
allocate_vmid-least_example :
    (9000 ≤ 9003)
    × (9003 ≤ 9004)
    × (is_free (9001 ∷ []) rows (quarantine_vmid 9002 "left over" []) 9003 ≡ true)
    × ((w : ℕ)
        → 9000 ≤ w
        → w < 9003
        → is_free (9001 ∷ []) rows (quarantine_vmid 9002 "left over" []) w ≡ false)
unfolding allocate_vmid quarantine_vmid
allocate_vmid-least_example =
    allocate_vmid-least 9000 9004 (9001 ∷ []) rows (quarantine_vmid 9002 "left over" []) refl

allocate_vmid-none_example :
    (no_vmid ≡ no_vmid) × ((w : ℕ) → 9000 ≤ w → w ≤ 9001 → is_free (9001 ∷ []) rows [] w ≡ false)
unfolding allocate_vmid
allocate_vmid-none_example = allocate_vmid-none 9000 9001 (9001 ∷ []) rows [] refl

quarantined_stays_example : is_free [] rows (quarantine_vmid 9002 "left over" []) 9002 ≡ false
quarantined_stays_example = quarantined_stays 9002 "left over" [] rows []

abbrev status : NodeStatus
status = record { cpus = pos 16; available = pos (2 ^ 35) }

abbrev pool_status : String → Result StorageStatus
pool_status pool = ok (record { total = pos 1000; used = pos 500; avail = pos (2 ^ 40) })

abbrev pve : Proxmox
pve = record { node_status = ok status; storage_status = pool_status }

check_host-leaves_example :
    (2 ^ 20 * 4096 + 2 ^ 20 * 4096 ≤ 2 ^ 35)
    × ((pos 16 ≤ℤ pos 0) ⊎ (pos 2 ≤ℤ pos 16))
    × IsBelow 80 500 1000
unfolding check_host check_disk_pool wrap64 ◌-ℤ◌
check_host-leaves_example =
    check_host-leaves pve "images" given 4096 4096 (2 ^ 35) limits "local-lvm" 80 500 1000 refl refl
      refl refl refl refl (omega arith) (omega arith) (omega arith) (omega arith) (omega arith)

check_host_wraps_example :
    check_host pve "images" given (pos (2 ^ 44 * 3)) limits "local-lvm"
    ≡ check_host pve "images" given (pos 0) limits "local-lvm"
check_host_wraps_example = check_host_wraps pve "images" given 3 limits "local-lvm"

abbrev storage : Storage
storage = record { vm_disks = "local-lvm"; vm_disks_hdd = "bulk"; images = "images" }

tier_of_storage-disk_tier_example : tier_of_storage storage "bulk" ≡ "hdd"
unfolding disk_tier_pool disk_tier_storage
tier_of_storage-disk_tier_example = tier_of_storage-disk_tier storage "hdd" refl refl

-- A stopped machine whose memory is taken back to 1 GiB and whose disk grows. The table has another
-- row when the size is recorded.
abbrev halted : Instance
halted = record (instance_of "i-1" stopped) { vm_created = true }

abbrev shrunk : Instance
shrunk = record halted {
  cpu_cores = pos 2;
  memory_mib = pos 1024;
  memory_min_mib = pos 512;
  ballooning = true;
  root_disk_gib = pos 30;
  instance_type = "";
  updated_at = 9;
}

abbrev machine : Machine
machine = record {
  owns = λ vmid i. ok true;
  update_config = λ vmid s. ok tt;
  resize_disk = λ vmid z. ok tt;
}

abbrev unaudited : Instance → Result (Unit {0})
unaudited i = ok tt

abbrev by_then : Rows
by_then = instance_of "i-2" running ∷ halted ∷ []
