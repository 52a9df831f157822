-- ===== src/Admission/Limits.antt =====
-- Limits and their overrides (type Limits of api/internal/site/site.go, LimitOverrides of
-- api/internal/db/limits.go, WithOverrides of api/internal/compute/service.go and ValidateLimits of
-- api/internal/compute/capacity.go).
use shake_cloud.Prelude.{ℕ, ℤ, pos, ltℤ, String, Bool, ◌||◌, not, Option, none, some}
use shake_cloud.Result.{Result, Err, refuse, unless, ◌>>◌}

pub record Quota : Type 0 where
  pub instances : ℤ
  pub vcpus : ℤ
  pub memory_mib : ℤ
  pub root_disk_gib : ℤ
  pub volumes : ℤ
  pub volume_gib : ℤ

pub record DiskSizes : Type 0 where
  pub least : ℤ  -- Min
  pub most : ℤ  -- Max
  pub usual : ℤ  -- Default

pub record VolumeSizes : Type 0 where
  pub least : ℤ
  pub most : ℤ

pub record Capacity : Type 0 where
  pub memory_budget_mib : ℤ
  pub node_memory_reserve_mib : ℤ
  pub vm_disk_max_used_percent : ℤ
  pub image_store_min_free_mib : ℤ
  pub max_image_gib : ℤ

pub record Limits : Type 0 where
  pub account_quota : Quota
  pub root_disk_gib : DiskSizes
  pub volume_size_gib : VolumeSizes
  pub capacity : Capacity

pub record LimitOverrides : Type 0 where
  pub account_instances : Option ℤ
  pub account_vcpus : Option ℤ
  pub account_memory_mib : Option ℤ
  pub account_root_disk_gib : Option ℤ
  pub root_disk_min_gib : Option ℤ
  pub root_disk_default_gib : Option ℤ
  pub root_disk_max_gib : Option ℤ
  pub memory_budget_mib : Option ℤ
  pub node_memory_reserve_mib : Option ℤ
  pub vm_disk_max_used_percent : Option ℤ
  pub image_store_min_free_mib : Option ℤ
  pub max_image_gib : Option ℤ
  pub account_volumes : Option ℤ
  pub account_volume_gib : Option ℤ
  pub volume_min_gib : Option ℤ
  pub volume_max_gib : Option ℤ
  pub updated_at : Option ℕ
  pub updated_by : String

-- The closure `set` of WithOverrides.
abbrev pub set : ℤ → Option ℤ → ℤ
set default none = default
set default (some z) = z

unfoldable pub with_overrides : Limits → LimitOverrides → Limits
with_overrides l o = record {
  account_quota = record {
    instances = set l.account_quota.instances o.account_instances;
    vcpus = set l.account_quota.vcpus o.account_vcpus;
    memory_mib = set l.account_quota.memory_mib o.account_memory_mib;
    root_disk_gib = set l.account_quota.root_disk_gib o.account_root_disk_gib;
    volumes = set l.account_quota.volumes o.account_volumes;
    volume_gib = set l.account_quota.volume_gib o.account_volume_gib;
  };
  root_disk_gib = record {
    least = set l.root_disk_gib.least o.root_disk_min_gib;
    most = set l.root_disk_gib.most o.root_disk_max_gib;
    usual = set l.root_disk_gib.usual o.root_disk_default_gib;
  };
  volume_size_gib = record {
    least = set l.volume_size_gib.least o.volume_min_gib;
    most = set l.volume_size_gib.most o.volume_max_gib;
  };
  capacity = record {
    memory_budget_mib = set l.capacity.memory_budget_mib o.memory_budget_mib;
    node_memory_reserve_mib = set l.capacity.node_memory_reserve_mib o.node_memory_reserve_mib;
    vm_disk_max_used_percent = set l.capacity.vm_disk_max_used_percent o.vm_disk_max_used_percent;
    image_store_min_free_mib = set l.capacity.image_store_min_free_mib o.image_store_min_free_mib;
    max_image_gib = set l.capacity.max_image_gib o.max_image_gib;
  };
}

abbrev pub validation_error : Err
validation_error = refuse 400 "ValidationError"

abbrev negative : ℤ → Bool
negative z = ltℤ z (pos 0)

abbrev negative_quota : Quota → Bool
negative_quota q =
    negative q.instances
    || negative q.vcpus
    || negative q.memory_mib
    || negative q.root_disk_gib
    || negative q.volumes
    || negative q.volume_gib

abbrev bad_volume_sizes : VolumeSizes → Bool
bad_volume_sizes v = not (ltℤ (pos 0) v.least) || ltℤ v.most v.least

abbrev no_disk : DiskSizes → Bool
no_disk d = not (ltℤ (pos 0) d.least) || not (ltℤ (pos 0) d.usual) || not (ltℤ (pos 0) d.most)

abbrev disorder : DiskSizes → Bool
disorder d = ltℤ d.usual d.least || ltℤ d.most d.usual

abbrev negative_capacity : Capacity → Bool
negative_capacity c =
    negative c.memory_budget_mib
    || negative c.node_memory_reserve_mib
    || negative c.image_store_min_free_mib
    || negative c.max_image_gib

abbrev bad_percent : Capacity → Bool
bad_percent c = negative c.vm_disk_max_used_percent || ltℤ (pos 100) c.vm_disk_max_used_percent

unfoldable pub validate_limits : Limits → Result (Unit {0})
validate_limits l =
    unless (negative_quota l.account_quota) validation_error
    >> unless (bad_volume_sizes l.volume_size_gib) validation_error
    >> unless (no_disk l.root_disk_gib) validation_error
    >> unless (disorder l.root_disk_gib) validation_error
    >> unless (negative_capacity l.capacity) validation_error
    >> unless (bad_percent l.capacity) validation_error
