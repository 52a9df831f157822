-- ===== src/Volumes/Create.antt =====
-- CreateVolume, volumeRequestHash and idempotentVolume of api/internal/compute/volumes.go. The hash of
-- a request (SHA-256 of its JSON) is a parameter.
use shake_cloud.Prelude.{
  ◌||◌, if◌then◌else◌, ℤ, pos, ltℤ, codes, ℕ, String, Bool, true, false, ◌&&◌, not, Option, none,
  some, List, [], str_eq,
}
use shake_cloud.Result.{refuse, not_found, Result, err, ok, ◌>>=◌, ◌>>◌, unless, begin_func}
use shake_cloud.Db.Instances.{Rows}
use shake_cloud.Db.Volume.{creating, create, Volume}
use shake_cloud.Db.Volumes.{
  Volumes, volume_by_client_token, live_volume_count, no_location, insert_volume,
}
use shake_cloud.Volumes.Requests.{Audit, audited, check_volume_quota}
use shake_cloud.Admission.Size.{invalid_parameter}
use shake_cloud.Admission.Limits.{Limits}
use shake_cloud.Admission.Host.{Storage, Proxmox, check_disk_pool, disk_tier_pool}
use shake_cloud.Launch.Validate.{is_empty_text, validate_tags, is_token}
use shake_cloud.Launch.Run.{bytes_eq}

pub record CreateVolumeRequest : Type 0 where
  pub size_gib : ℤ
  pub disk_tier : String
  pub client_token : String
  pub tags : List (String × String)

-- The numbers of the site, what the hypervisor answers, and the hash.
pub record Workshop : Type 0 where
  pub storage : Storage
  pub limits : Limits
  pub pve : Proxmox
  pub hash : CreateVolumeRequest → List ℕ

-- The token is left out.
abbrev pub volume_request_hash : (CreateVolumeRequest → List ℕ) → CreateVolumeRequest → List ℕ
volume_request_hash hash r = hash (record r { client_token = "" })

unfoldable pub idempotent_volume : Volume → List ℕ → Result (Volume × Bool)
idempotent_volume existing hash =
    unless (not (bytes_eq existing.request_sha256 hash)) (refuse 409 "IdempotentParameterMismatch")
    >> ok (existing, false)

abbrev pub tiered : CreateVolumeRequest → CreateVolumeRequest
tiered r = record r { disk_tier = if str_eq r.disk_tier "" then "ssd" else r.disk_tier }

-- The checks that read no table: the pool of the tier, and the request with its tier.
unfoldable pub volume_checked :
    Storage → Limits → CreateVolumeRequest → Result (String × CreateVolumeRequest)
volume_checked s limits r =
    unless
      (ltℤ r.size_gib limits.volume_size_gib.least || ltℤ limits.volume_size_gib.most r.size_gib)
      invalid_parameter
    >> (disk_tier_pool s (tiered r).disk_tier >>= λ pool.
        unless (not (is_empty_text r.client_token) && not (is_token (codes r.client_token)))
          invalid_parameter
        >> (validate_tags r.tags >> ok (pool, tiered r)))

-- The volume of an earlier request with the token. No token matches none.
unfoldable pub earlier_volume : String → String → Volumes → Result (Option Volume)
earlier_volume account token rows =
    if str_eq token ""
    then ok none
    else elim (volume_by_client_token account token rows) as (λ _. Result (Option Volume)) [
      | ok v ↦ ok (some v)
      | err e ↦ elim e [ not_found ↦ ok none | other ↦ err other ]
    ]

-- The row that is inserted; insert_volume sets the columns that InsertVolume does not take.
abbrev pub volume_row : String → String → CreateVolumeRequest → List ℕ → Volume
volume_row k account r hash = record {
  id = k;
  account_id = account;
  owner_username = "";
  client_token = r.client_token;
  request_sha256 = hash;
  size_gib = r.size_gib;
  disk_tier = r.disk_tier;
  tags = r.tags;
  state = creating;
  instance_id = none;
  device = none;
  attachment_state = none;
  pending_action = some create;
  state_reason = [];
  last_error = [];
  attempts = 0;
  next_attempt_at = 0;
  lease_until = none;
  location = no_location;
  created_at = 0;
  deleted_at = none;
  updated_at = 0;
}

-- Proxmox numbers unused disks unused0 to unused255.
abbrev pub holder_slots : ℤ
holder_slots = pos 256

-- The transaction, when no earlier request has the token. `k` is the new ID, which is random.
unfoldable pub admit_volume :
    ℕ
    → Limits
    → String
    → String
    → CreateVolumeRequest
    → List ℕ
    → Audit
    → Rows
    → Volumes
    → Result ((Volume × Bool) × Volumes)
admit_volume now limits k account r hash audit instances rows =
    check_volume_quota account (pos 1) r.size_gib limits instances rows
    >> (unless (not (ltℤ (live_volume_count rows) holder_slots))
          (refuse 503 "InsufficientVolumeCapacity")
        >> (audited audit (insert_volume now (volume_row k account r hash) rows) >>= λ c.
            ok ((c.0, true), c.1)))

-- Under the capacity lock: another request with the token may have come first.
unfoldable pub admit_volume_once :
    ℕ
    → Limits
    → String
    → String
    → CreateVolumeRequest
    → List ℕ
    → Audit
    → Rows
    → Volumes
    → Result ((Volume × Bool) × Volumes)
unfolding earlier_volume admit_volume
admit_volume_once now limits k account r hash audit instances rows =
    earlier_volume account r.client_token rows >>= λ found. elim found [
      | some existing ↦ ok ((existing, false), rows)
      | none ↦ admit_volume now limits k account r hash audit instances rows
    ]

abbrev pub answered_volume : List ℕ → Result (Volume × Bool) → Result (Volume × Bool)
answered_volume hash (err e) = err e
answered_volume hash (ok (v, created)) = if created then ok (v, true) else idempotent_volume v hash

abbrev pub replied_volume :
    List ℕ
    → Volumes
    → Option Volume
    → Result ((Volume × Bool) × Volumes)
    → Result (Volume × Bool) × Volumes
replied_volume hash rows (some existing) inserted = (idempotent_volume existing hash, rows)
replied_volume hash rows none inserted =
    let (result, rows') = begin_func rows inserted in (answered_volume hash result, rows')

-- CreateVolume after its checks and its first lookup. The worker is woken when it created.
unfoldable pub create_after :
    ℕ
    → Workshop
    → String
    → String
    → Audit
    → Rows
    → Volumes
    → Result ((String × CreateVolumeRequest) × Option Volume)
    → Result (Volume × Bool) × Volumes
unfolding admit_volume_once
create_after now shop k account audit instances rows (err e) = (err e, rows)
create_after now shop k account audit instances rows (ok ((pool, r), found)) =
    let hash = volume_request_hash shop.hash r in
    replied_volume hash rows found (
      check_disk_pool shop.pve shop.limits pool
      >> admit_volume_once now shop.limits k account r hash audit instances rows)

-- `seen` is the table at the first lookup, `rows` when the transaction starts. The table after it
-- comes with the answer.
unfoldable pub create_volume :
    ℕ
    → Workshop
    → String
    → String
    → CreateVolumeRequest
    → Audit
    → Rows
    → Volumes
    → Volumes
    → Result (Volume × Bool) × Volumes
unfolding create_after volume_checked earlier_volume
create_volume now shop k account r audit instances seen rows =
    create_after now shop k account audit instances rows (
      volume_checked shop.storage shop.limits r >>= λ c.
      earlier_volume account c.1.client_token seen >>= λ found. ok (c, found))
