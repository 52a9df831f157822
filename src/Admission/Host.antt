-- ===== src/Admission/Host.antt =====
-- What the machine can take (Service.checkHost and Service.checkDiskPool of
-- api/internal/compute/service.go, DiskTierStorage of api/internal/site/site.go). What Proxmox
-- reports is a parameter. An int64 wraps at 64 bits.
use shake_cloud.Prelude.{
  ℕ, ◌*◌, ◌-◌, ◌^◌, suc, ℤ, pos, negsuc, ◌-ℤ◌, wrap64, ltℤ, String, Bool, ◌&&◌, not, Option, none,
  some, str_eq, if◌then◌else◌, wrap64,
}
use shake_cloud.Result.{Result, ok, err, Err, refuse, unless, ◌>>=◌, ◌>>◌}
use shake_cloud.Admission.Limits.{Limits}
use shake_cloud.Admission.Size.{Spec, invalid_parameter}

-- The fields that the check reads of proxmox.NodeStatus and proxmox.StorageStatus.
pub record NodeStatus : Type 0 where
  pub cpus : ℤ
  pub available : ℤ  -- bytes

pub record StorageStatus : Type 0 where
  pub total : ℤ
  pub used : ℤ
  pub avail : ℤ

-- The pools of a site.
pub record Storage : Type 0 where
  pub vm_disks : String
  pub vm_disks_hdd : String
  pub images : String

-- What Proxmox answers; a failed call is an error that `unavailable` wraps.
pub record Proxmox : Type 0 where
  pub node_status : Result NodeStatus
  pub storage_status : String → Result StorageStatus

abbrev pub times : ℕ → ℤ → ℤ
times k (pos n) = pos (k * n)
times k (negsuc n) = negsuc (k * suc n - 1)

-- Go's `int64(z) << 20`.
abbrev pub shift_20 : ℤ → ℤ
shift_20 z = wrap64 (times (2 ^ 20) z)

-- Go's product of two int64.
abbrev pub mulℤ : ℤ → ℤ → ℤ
mulℤ (pos n) z = times n z
mulℤ (negsuc n) z = pos 0 -ℤ times (suc n) z

abbrev pub no_capacity : Err
no_capacity = refuse 503 "InsufficientInstanceCapacity"

-- `threshold > 0 && Total > 0 && Used*100 >= threshold*Total`
abbrev pub too_full : ℤ → StorageStatus → Bool
too_full threshold disks =
    ltℤ (pos 0) threshold
    && (ltℤ (pos 0) disks.total
        && not (ltℤ (wrap64 (times 100 disks.used)) (wrap64 (mulℤ threshold disks.total))))

unfoldable pub check_disk_pool : Proxmox → Limits → String → Result (Unit {0})
check_disk_pool pve limits storage = pve.storage_status storage >>= λ disks.
    unless (too_full limits.capacity.vm_disk_max_used_percent disks) no_capacity

-- `threads > 0 && spec.CPUCores > threads`
abbrev pub too_many_vcpus : ℤ → ℤ → Bool
too_many_vcpus threads vcpus = ltℤ (pos 0) threads && ltℤ threads vcpus

-- `Available-int64(memoryNeededMiB)<<20 < int64(reserve)<<20`
abbrev pub too_little_memory : ℤ → ℤ → ℤ → Bool
too_little_memory available needed reserve =
    ltℤ (wrap64 (available -ℤ shift_20 needed)) (shift_20 reserve)

unfoldable pub check_host : Proxmox → String → Spec → ℤ → Limits → String → Result (Unit {0})
check_host pve images_store spec memory_needed limits disk_storage = pve.node_status >>= λ status.
    unless (too_many_vcpus status.cpus spec.cpu_cores) invalid_parameter
    >> unless
        (too_little_memory status.available memory_needed limits.capacity.node_memory_reserve_mib)
        no_capacity
    >> check_disk_pool pve limits disk_storage
    >> (pve.storage_status images_store >>= λ images.
        unless (ltℤ images.avail (shift_20 limits.capacity.image_store_min_free_mib)) no_capacity)

abbrev pub some_pool : String → Option String
some_pool pool = if str_eq pool "" then none else some pool

unfoldable pub disk_tier_storage : Storage → String → Option String
disk_tier_storage s tier =
    if str_eq tier ""
    then some_pool s.vm_disks
    else if str_eq tier "ssd"
    then some_pool s.vm_disks
    else if str_eq tier "hdd"
    then some_pool s.vm_disks_hdd
    else none

-- Service.diskTierStorage: the pool, or a refusal at admission.
unfoldable pub disk_tier_pool : Storage → String → Result String
disk_tier_pool s tier = elim (disk_tier_storage s tier) [
  | none ↦ err invalid_parameter
  | some pool ↦ ok pool
]

-- TierOfStorage
unfoldable pub tier_of_storage : Storage → String → String
tier_of_storage s pool = if not (str_eq pool "") && str_eq pool s.vm_disks_hdd then "hdd" else "ssd"
