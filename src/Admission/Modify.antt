-- ===== src/Admission/Modify.antt =====
-- Service.Modify of api/internal/compute/modify.go. The calls of the hypervisor are parameters.
use shake_cloud.Prelude.{
  ℤ, ℕ, pos, eqℤ, ltℤ, ◌-ℤ◌, wrap64, String, Bool, true, false, ◌&&◌, ◌||◌, not, Option, none, some,
  str_eq, if◌then◌else◌,
}
use shake_cloud.Result.{Result, ok, err, ◌>>=◌, ◌>>◌, unless, not_found}
use shake_cloud.Db.Instance.{
  stopped, terminated, terminate, Instance, state_eq, same_action, is_none,
}
use shake_cloud.Db.Instances.{Rows, get_instance, set_spec}
use shake_cloud.Db.Volumes.{Volumes}
use shake_cloud.Lifecycle.Request.{missing_instance, incorrect_state}
use shake_cloud.Admission.Limits.{Limits}
use shake_cloud.Admission.Size.{
  Spec, ModifyRequest, target, spec_of, validate_spec, invalid_parameter, or_default, maxℤ,
}
use shake_cloud.Admission.Quota.{check_quota}
use shake_cloud.Admission.Host.{Storage, Proxmox, check_host, disk_tier_storage}

-- ModifyRequest.empty
abbrev pub is_empty : ModifyRequest → Bool
is_empty r =
    is_none r.vcpus
    && is_none r.memory_mib
    && is_none r.memory_min_mib
    && is_none r.ballooning
    && is_none r.root_disk_gib

abbrev same_bool : Bool → Bool → Bool
same_bool true b = b
same_bool false b = not b

-- Go's `==` on two sizes.
abbrev pub same_spec : Spec → Spec → Bool
same_spec a b =
    eqℤ a.cpu_cores b.cpu_cores
    && eqℤ a.memory_mib b.memory_mib
    && eqℤ a.memory_min_mib b.memory_min_mib
    && same_bool a.ballooning b.ballooning
    && str_eq a.type_name b.type_name

-- What the handler calls of the hypervisor, besides its status.
pub record Machine : Type 0 where
  pub owns : ℕ → Instance → Result Bool
  pub update_config : ℕ → Spec → Result (Unit {0})
  pub resize_disk : ℕ → ℤ → Result (Unit {0})

abbrev pub found_or_404 : Result Instance → Result Instance
found_or_404 (err not_found) = err missing_instance
found_or_404 r = r

abbrev pub wanted_disk : ModifyRequest → Instance → ℤ
wanted_disk r i = or_default r.root_disk_gib i.root_disk_gib

-- The checks of the disk, which are made only if the request names one.
abbrev pub disk_checked : ModifyRequest → Instance → Limits → Result (Unit {0})
disk_checked r i limits =
    unless (not (is_none r.root_disk_gib) && ltℤ (wanted_disk r i) i.root_disk_gib)
      invalid_parameter
    >> unless (not (is_none r.root_disk_gib) && ltℤ limits.root_disk_gib.most (wanted_disk r i))
        invalid_parameter

-- The `switch` on the state of the instance.
abbrev pub state_checked : Spec → Instance → Result (Unit {0})
state_checked to i =
    unless (state_eq i.state terminated || same_action i.pending_action (some terminate))
      incorrect_state
    >> unless (not (is_none i.pending_action)) incorrect_state
    >> unless (not (same_spec to (spec_of i)) && not (state_eq i.state stopped)) incorrect_state
    >> unless (is_none i.vmid || not i.vm_created) incorrect_state

abbrev pool_of : Storage → Option String → String
pool_of s none = s.vm_disks
pool_of s (some pool) = pool

abbrev owned_or_409 : Result Bool → Result (Unit {0})
owned_or_409 (ok true) = ok tt
owned_or_409 (ok false) = err incorrect_state
owned_or_409 (err e) = err e

abbrev when : Bool → Result (Unit {0}) → Result (Unit {0})
when true m = m
when false m = ok tt

abbrev pub with_machine : Machine → Spec → ℤ → Instance → Option ℕ → Result (Unit {0})
with_machine m to disk i none = err incorrect_state
with_machine m to disk i (some vmid) =
    owned_or_409 (m.owns vmid i)
    >> when
        (not (eqℤ to.cpu_cores i.cpu_cores)
          || not (eqℤ to.memory_mib i.memory_mib)
          || not (eqℤ to.memory_min_mib i.memory_min_mib))
        (m.update_config vmid to)
    >> when (ltℤ i.root_disk_gib disk) (m.resize_disk vmid disk)

-- What the resize asks of the host, of the account and of the hypervisor.
abbrev pub admitted :
    Proxmox
    → Machine
    → Storage
    → String
    → Limits
    → Spec
    → ℤ
    → Instance
    → Rows
    → Volumes
    → Result (Unit {0})
admitted pve m storage images limits to disk i rows volumes =
    check_host pve images to (maxℤ (pos 0) (wrap64 (to.memory_mib -ℤ i.memory_mib))) limits
      (pool_of storage (disk_tier_storage storage i.disk_tier))
    >> check_quota i.account_id to disk limits (some i) rows volumes
    >> with_machine m to disk i i.vmid

abbrev pub recorded_size :
    ℕ → String → Spec → ℤ → (Instance → Result (Unit {0})) → Rows → Result (Instance × Rows)
recorded_size now k to disk audit rows =
    set_spec now k to.cpu_cores to.memory_mib to.memory_min_mib to.ballooning disk rows >>= λ c.
    audit c.0 >> ok c

-- An instance that has the size already is returned unchanged. Other requests may come between the
-- transactions: `counted` is the table when the quota is checked, and `rows` when the size is recorded.
unfoldable pub modify_instance :
    ℕ
    → Proxmox
    → Machine
    → Storage
    → String
    → Limits
    → String
    → ModifyRequest
    → (Instance → Result (Unit {0}))
    → Rows
    → Rows
    → Volumes
    → Instance
    → Result (Instance × Rows)
modify_instance now pve m storage images limits k r audit counted rows volumes i =
    let to = target r (spec_of i) in
    let disk = wanted_disk r i in
    validate_spec to
    >> disk_checked r i limits
    >> (if same_spec to (spec_of i) && eqℤ disk i.root_disk_gib
        then ok (i, rows)
        else (state_checked to i
            >> admitted pve m storage images limits to disk i counted volumes
            >> recorded_size now k to disk audit rows))

-- `seen` is the table when the instance is read.
unfoldable pub modify :
    ℕ
    → Proxmox
    → Machine
    → Storage
    → String
    → Limits
    → String
    → ModifyRequest
    → (Instance → Result (Unit {0}))
    → Rows
    → Rows
    → Rows
    → Volumes
    → Result (Instance × Rows)
unfolding modify_instance
modify now pve m storage images limits k r audit seen counted rows volumes =
    unless (is_empty r) invalid_parameter
    >> (found_or_404 (get_instance k seen)
        >>= modify_instance now pve m storage images limits k r audit counted rows volumes)
