-- ===== src/Volumes/Examples.antt =====
-- An attach and a delete on a small table of volumes.
use shake_cloud.Prelude.{pos, String, ◌≡◌, refl, Bool, true, Option, none, some, [], ◌∷◌}
use shake_cloud.Result.{Result, ok}
use shake_cloud.Db.Volume.{VolumeState, available, in_use, Attachment, attached, Volume}
use shake_cloud.Db.Volumes.{Volumes, no_location, lock_volume}
use shake_cloud.Volumes.Requests.{delete_volume, delete_checked}
use shake_cloud.Volumes.Steps.{IsSoundVolumes}
use shake_cloud.Volumes.Reach.{deletes, at_start, then_write, VolumeReach-IsSoundVolumes}

abbrev volume_in : String → VolumeState → Option String → Option String → Option Attachment → Volume
volume_in k s i d a = record {
  id = k;
  account_id = "a1";
  owner_username = "ann";
  client_token = "";
  request_sha256 = [];
  size_gib = pos 10;
  disk_tier = "ssd";
  tags = [];
  state = s;
  instance_id = i;
  device = d;
  attachment_state = a;
  pending_action = none;
  state_reason = [];
  last_error = [];
  attempts = 0;
  next_attempt_at = 0;
  lease_until = none;
  location = no_location;
  created_at = 0;
  deleted_at = none;
  updated_at = 0;
}

-- One volume is free, and one is on an instance.
abbrev both : Volumes
both =
    volume_in "vol-1" available none none none
    ∷ volume_in "vol-2" in_use (some "i-1") (some "virtio1") (some attached)
    ∷ []

both-IsSoundVolumes : IsSoundVolumes both
both-IsSoundVolumes = record {
  keyed = (refl, (refl, tt));
  coherent = ((tt, refl, refl), ((tt, refl, refl), tt));
}

abbrev anyone : Volume → Bool
anyone v = true

abbrev unaudited : Volume → Result (Unit {0})
unaudited v = ok tt

VolumeReach-IsSoundVolumes_example :
    IsSoundVolumes (delete_volume 9 "vol-1" anyone unaudited both).1
VolumeReach-IsSoundVolumes_example =
    VolumeReach-IsSoundVolumes both-IsSoundVolumes
      (then_write at_start (deletes 9 "vol-1" anyone unaudited refl))

-- The volume on the instance is not deleted.
kept : (delete_volume 9 "vol-2" anyone unaudited both).1 ≡ both
unfolding delete_volume delete_checked lock_volume
kept = refl
