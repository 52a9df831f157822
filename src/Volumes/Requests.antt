-- ===== src/Volumes/Requests.antt =====
-- ModifyVolume, DeleteVolume, AttachVolume and DetachVolume of api/internal/compute/volumes.go.
use shake_cloud.Prelude.{
  ℕ, ℤ, pos, ltℤ, ◌-ℤ◌, wrap64, String, ◌&&◌, ◌||◌, not, Bool, true, false, Option, none, some,
  List, [], ◌∷◌, any, find, str_eq, contains, if◌then◌else◌,
}
use shake_cloud.Result.{
  Err, Result, ok, err, ◌>>=◌, ◌>>◌, unless, refuse, not_found, begin_func, is_ok,
}
use shake_cloud.Db.Instance.{Instance, running, stopped, state_eq, is_none}
use shake_cloud.Db.Instances.{Rows, lock_instance}
use shake_cloud.Db.Volume.{
  available, in_use, deleted, error, attached, detach, delete, Volume, volume_state_eq,
  same_volume_action,
}
use shake_cloud.Db.Volumes.{
  Volumes, lock_volume, volumes_of_instance, request_attach, request_detach, request_resize,
  request_delete,
}
use shake_cloud.Lifecycle.Request.{missing_instance, incorrect_state}
use shake_cloud.Admission.Limits.{Limits}
use shake_cloud.Admission.Size.{invalid_parameter}
use shake_cloud.Admission.Usage.{account_usage}
use shake_cloud.Admission.Quota.{over}
use shake_cloud.Admission.Host.{Storage, Proxmox, check_disk_pool, disk_tier_storage}

abbrev pub volume_not_found : Err
volume_not_found = refuse 404 "InvalidVolume.NotFound"

abbrev pub incorrect_volume : Err
incorrect_volume = refuse 409 "IncorrectState"

-- A volume that the caller may not touch answers like one that does not exist.
abbrev pub visible_volume : (Volume → Bool) → Result Volume → Result Volume
visible_volume authorize (ok v) = if authorize v then ok v else err volume_not_found
visible_volume authorize (err not_found) = err volume_not_found
visible_volume authorize (err e) = err e

abbrev pub Audit : Type 0
Audit = Volume → Result (Unit {0})

abbrev pub audited : Audit → Result (Volume × Volumes) → Result (Volume × Volumes)
audited audit changed = changed >>= λ c. audit c.0 >> ok c

abbrev pub is_owed : Volume → Bool
is_owed v = not (is_none v.pending_action)

abbrev pub is_attached : Volume → Bool
is_attached v = elim v.attachment_state [ some attached ↦ true | _ ↦ false ]

-- A volume that is gone, or on its way, is returned unchanged.
unfoldable pub delete_checked : ℕ → String → Audit → Volumes → Volume → Result (Volume × Volumes)
delete_checked now k audit rows v =
    if volume_state_eq v.state deleted || same_volume_action v.pending_action (some delete)
    then ok (v, rows)
    else (unless (not (is_none v.instance_id)) (refuse 409 "VolumeInUse")
        >> unless
            ((not (volume_state_eq v.state available) && not (volume_state_eq v.state error))
              || is_owed v)
            incorrect_volume
        >> audited audit (request_delete now k rows))

unfoldable pub detach_checked : ℕ → String → Audit → Volumes → Volume → Result (Volume × Volumes)
detach_checked now k audit rows v =
    if same_volume_action v.pending_action (some detach)
    then ok (v, rows)
    else (unless (is_none v.instance_id) incorrect_volume
        >> unless (not (is_attached v) || is_owed v) incorrect_volume
        >> audited audit (request_detach now k rows))

-- The transaction of a request, and whether the worker was woken.
abbrev pub in_transaction :
    String
    → (Volume → Bool)
    → Volumes
    → (Volume → Result (Volume × Volumes))
    → Result Volume × Volumes × Bool
in_transaction k authorize rows checked =
    let (result, rows') =
      begin_func rows (visible_volume authorize (lock_volume k rows) >>= checked) in
    (result, rows', is_ok result)

unfoldable pub delete_volume :
    ℕ → String → (Volume → Bool) → Audit → Volumes → Result Volume × Volumes × Bool
unfolding delete_checked
delete_volume now k authorize audit rows =
    in_transaction k authorize rows (delete_checked now k audit rows)

unfoldable pub detach_volume :
    ℕ → String → (Volume → Bool) → Audit → Volumes → Result Volume × Volumes × Bool
unfolding detach_checked
detach_volume now k authorize audit rows =
    in_transaction k authorize rows (detach_checked now k audit rows)

-- checkVolumeQuota
unfoldable pub check_volume_quota : String → ℤ → ℤ → Limits → Rows → Volumes → Result (Unit {0})
check_volume_quota account add_volumes add_gib limits instances rows =
    let usage = account_usage account instances rows in
    unless (over limits.account_quota.volumes usage.volumes add_volumes)
      (refuse 409 "VolumeLimitExceeded")
    >> unless (over limits.account_quota.volume_gib usage.volume_gib add_gib)
        (refuse 409 "VolumeLimitExceeded")

unfoldable pub modify_checked :
    ℕ → String → ℤ → Limits → Rows → Audit → Volumes → Volume → Result (Volume × Volumes)
unfolding check_volume_quota
modify_checked now k size limits instances audit rows v =
    unless
      ((not (volume_state_eq v.state available) && not (volume_state_eq v.state in_use))
        || is_owed v)
      incorrect_volume
    >> unless (not (ltℤ v.size_gib size)) invalid_parameter
    >> check_volume_quota v.account_id (pos 0) (wrap64 (size -ℤ v.size_gib)) limits instances rows
    >> audited audit (request_resize now k size rows)

abbrev pub pool_or_default : Storage → Option String → String
pool_or_default s none = s.vm_disks
pool_or_default s (some pool) = pool

-- The measure of the volume's own pool; a missing volume is left to the transaction.
abbrev pub measure : Proxmox → Storage → Limits → Result Volume → Result (Unit {0})
measure pve s limits (ok v) =
    check_disk_pool pve limits (pool_or_default s (disk_tier_storage s v.disk_tier))
measure pve s limits (err not_found) = ok tt
measure pve s limits (err e) = err e

abbrev pub refused : Volumes → Err → Result Volume × Volumes × Bool
refused rows e = (err e, rows, false)

abbrev pub or_refused :
    Volumes → Result (Unit {0}) → (Result Volume × Volumes × Bool) → Result Volume × Volumes × Bool
or_refused rows (ok u) run = run
or_refused rows (err e) run = refused rows e

unfoldable pub modify_volume :
    ℕ
    → Proxmox
    → Storage
    → Limits
    → String
    → ℤ
    → (Volume → Bool)
    → Audit
    → Rows
    → Volumes
    → Result Volume × Volumes × Bool
unfolding modify_checked
modify_volume now pve s limits k size authorize audit instances rows =
    or_refused rows
      (unless (ltℤ limits.volume_size_gib.most size) invalid_parameter
        >> measure pve s limits (lock_volume k rows))
      (in_transaction k authorize rows (modify_checked now k size limits instances audit rows))

-- virtio1 to virtio15, in the order of the loop; the names that `volumeDevice` matches.
abbrev pub devices : List String
devices =
    "virtio1" ∷ "virtio2" ∷ "virtio3" ∷ "virtio4" ∷ "virtio5" ∷ "virtio6" ∷ "virtio7" ∷ "virtio8"
    ∷ "virtio9" ∷ "virtio10" ∷ "virtio11" ∷ "virtio12" ∷ "virtio13" ∷ "virtio14" ∷ "virtio15" ∷ []

abbrev pub uses : String → Volume → Bool
uses device v = elim v.device [ none ↦ false | some d ↦ str_eq d device ]

-- Some volume of the instance is on the device.
abbrev pub is_used : Volumes → String → Bool
is_used attached_to device = any (uses device) attached_to

abbrev pub or_limit : Option String → Result String
or_limit none = err (refuse 409 "AttachmentLimitExceeded")
or_limit (some d) = ok d

-- The device that was asked for, or the lowest free one.
unfoldable pub pick_device : Option String → Volumes → Result String
pick_device none attached_to = or_limit (find (λ d. not (is_used attached_to d)) devices)
pick_device (some d) attached_to = if is_used attached_to d then err invalid_parameter else ok d

abbrev pub found_instance : Result Instance → Result Instance
found_instance (err not_found) = err missing_instance
found_instance r = r

unfoldable pub attach_checked :
    ℕ
    → String
    → String
    → Option String
    → Audit
    → Rows
    → Volumes
    → Volume
    → Result (Volume × Volumes)
unfolding pick_device
attach_checked now k instance_id device audit instances rows v =
    unless (not (volume_state_eq v.state available) || is_owed v || not (is_none v.instance_id))
      incorrect_volume
    >> (found_instance (lock_instance instance_id instances) >>= λ instance.
        unless (not (str_eq instance.account_id v.account_id)) invalid_parameter
        >> unless
            ((not (state_eq instance.state running) && not (state_eq instance.state stopped))
              || not (is_none instance.pending_action))
            incorrect_state
        >> (pick_device device (volumes_of_instance instance_id rows) >>= λ d.
            audited audit (request_attach now k instance_id d rows)))

abbrev pub bad_device : Option String → Bool
bad_device none = false
bad_device (some d) = not (contains devices d)

unfoldable pub attach_volume :
    ℕ
    → String
    → String
    → Option String
    → (Volume → Bool)
    → Audit
    → Rows
    → Volumes
    → Result Volume × Volumes × Bool
unfolding attach_checked
attach_volume now k instance_id device authorize audit instances rows =
    or_refused rows (unless (bad_device device) invalid_parameter) (
      in_transaction k authorize rows
        (attach_checked now k instance_id device audit instances rows))
