-- ===== src/Volumes/Orders.antt =====
-- A volume that is created on a small site.
use shake_cloud.Prelude.{pos, pos_part, ◌+ℤ◌, wrap64, ◌≡◌, refl, true, false, [], ◌∷◌, arith}
use shake_cloud.Result.{refuse, not_found, err, ok}
use shake_cloud.Db.Volume.{Volume}
use shake_cloud.Db.Volumes.{volume_by_client_token, live_volume_count, new_volume, insert_volume}
use shake_cloud.Volumes.Requests.{Audit, check_volume_quota}
use shake_cloud.Admission.Size.{invalid_parameter}
use shake_cloud.Admission.Limits.{Limits}
use shake_cloud.Admission.Usage.{account_usage}
use shake_cloud.Admission.Host.{
  StorageStatus, Storage, check_disk_pool, disk_tier_storage, disk_tier_pool,
}
use shake_cloud.Launch.Validate.{validate_tags}
use shake_cloud.Volumes.Create.{
  CreateVolumeRequest, Workshop, idempotent_volume, tiered, volume_checked, earlier_volume,
  volume_row, create_volume,
}
use shake_cloud.Volumes.Granted.{Granted, create_volume-Granted}

abbrev small_limits : Limits
small_limits = record {
  account_quota = record {
    instances = pos 5;
    vcpus = pos 16;
    memory_mib = pos 16384;
    root_disk_gib = pos 200;
    volumes = pos 2;
    volume_gib = pos 100;
  };
  root_disk_gib = record { least = pos 8; most = pos 100; usual = pos 20 };
  volume_size_gib = record { least = pos 1; most = pos 100 };
  capacity = record {
    memory_budget_mib = pos 32768;
    node_memory_reserve_mib = pos 2048;
    vm_disk_max_used_percent = pos 90;
    image_store_min_free_mib = pos 1024;
    max_image_gib = pos 10;
  };
}

abbrev half_full : StorageStatus
half_full = record { total = pos 100; used = pos 50; avail = pos 50 }

abbrev pools : Storage
pools = record { vm_disks = "ssd-pool"; vm_disks_hdd = ""; images = "local" }

abbrev shop : Workshop
shop = record {
  storage = pools;
  limits = small_limits;
  pve = record { node_status = err not_found; storage_status = λ _. ok half_full };
  hash = λ r. pos_part r.size_gib ∷ [];
}

abbrev order : CreateVolumeRequest
order = record { size_gib = pos 20; disk_tier = ""; client_token = "t1"; tags = [] }

abbrev first_row : Volume
first_row = new_volume 7 (volume_row "vol-1" "a1" (tiered order) (20 ∷ []))

abbrev no_audit : Audit
no_audit v = ok tt

first_order :
    create_volume 7 shop "vol-1" "a1" order no_audit [] [] []
    ≡ (ok (first_row, true), first_row ∷ [])
unfolding create_volume volume_checked earlier_volume check_volume_quota account_usage
    disk_tier_pool disk_tier_storage check_disk_pool validate_tags insert_volume live_volume_count
    volume_by_client_token wrap64 ◌+ℤ◌
first_order = refl

create_volume-Granted_example : Granted small_limits "a1" order [] [] first_row (first_row ∷ [])
unfolding account_usage ◌+ℤ◌
create_volume-Granted_example =
    create_volume-Granted 7 shop "vol-1" "a1" order no_audit [] [] [] first_order
      (omega arith, omega arith) (omega arith, omega arith)

-- A tier that the site does not have.
no_tier :
    create_volume 7 shop "vol-1" "a1" (record order { disk_tier = "hdd" }) no_audit [] [] []
    ≡ (err invalid_parameter, [])
unfolding create_volume volume_checked disk_tier_pool disk_tier_storage
no_tier = refl

-- The same request again, and another one with its token.
same_request :
    create_volume 9 shop "vol-2" "a1" order no_audit [] (first_row ∷ []) (first_row ∷ [])
    ≡ (ok (first_row, false), first_row ∷ [])
unfolding create_volume volume_checked earlier_volume disk_tier_pool disk_tier_storage validate_tags
    volume_by_client_token idempotent_volume
same_request = refl

other_request :
    create_volume 9 shop "vol-2" "a1"
      (record order { size_gib = pos 30 })
      no_audit
      []
      (first_row ∷ [])
      (first_row ∷ [])
    ≡ (err (refuse 409 "IdempotentParameterMismatch"), first_row ∷ [])
unfolding create_volume volume_checked earlier_volume disk_tier_pool disk_tier_storage validate_tags
    volume_by_client_token idempotent_volume
other_request = refl
