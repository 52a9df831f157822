-- ===== src/Disks/Examples.antt =====
-- A move of a disk between two machines of a small hypervisor.
use shake_cloud.Prelude.{
  ◌==◌, if◌then◌else◌, Bool-cases, pos, lookup, ℕ, String, ◌≡◌, refl, ◌⊎◌, inl, inr, Bool, true,
  false, ◌&&◌, not, Option, none, some, [], ◌∷◌, arith, str_eq,
}
use shake_cloud.Db.Volume.{in_use, attached, detach, Location, Volume}
use shake_cloud.Db.Volumes.{record_location}
use shake_cloud.Disks.Cloud.{busy, fault, done, Config, Cloud, Site, World}
use shake_cloud.Disks.Keys.{volid_at, itoa_from, free_key}
use shake_cloud.Disks.Moves.{move}
use shake_cloud.Disks.Crash.{Tracking, Ends, move_tracks}

-- The one disk is on 9000, and once it has moved, on 9999.
abbrev small_config : ℕ → Bool → Config
small_config n moved =
    if moved
    then (if n == 9999 then ("unused0", "ssd:vm-9999-disk-0") ∷ [] else [])
    else (if n == 9000 then ("unused0", "ssd:vm-9000-disk-0") ∷ [] else [])

abbrev fits : ℕ → String → ℕ → String → Bool → Bool
fits source from target to moved =
    not moved && source == 9000 && str_eq from "unused0" && target == 9999 && str_eq to "unused0"

abbrev small : Cloud
small = record {
  State = Bool;
  vm_config = λ n moved. done (small_config n moved);
  list_vms = λ moved. done [];
  pending_keys = λ n moved. done [];
  list_disks = λ storage moved. done [];
  create_holder = λ n moved. (done tt, moved);
  configure = λ n key value moved. (fault busy, moved);
  unlink = λ n key force moved. (fault busy, moved);
  move_disk = λ source from target to moved.
      if fits source from target to moved then (done tt, true) else (fault busy, moved);
  resize_disk = λ n key size moved. (fault busy, moved);
  commit = λ moved. (done tt, moved);
}

abbrev small_disk : Bool → ℕ → String → Option ℕ
small_disk moved n key =
    if (if moved then n == 9999 else n == 9000) && str_eq key "unused0" then some 1 else none

small_either :
    (s : Bool) (source : ℕ) (from : String) (target : ℕ) (to : String) (d : ℕ)
    → small_disk s source from ≡ some d
    → (small_disk (small.move_disk source from target to s).1 source from ≡ some d)
      ⊎ (small_disk (small.move_disk source from target to s).1 target to ≡ some d)
small_either s source from target to d h = elim (Bool-cases (fits source from target to s)) [
  | inl e ↦ inr (ground (arith, h, e))
  | inr e ↦ inl (rw e h)
]

small_done :
    (s : Bool) (source : ℕ) (from : String) (target : ℕ) (to : String) (d : ℕ)
    → small_disk s source from ≡ some d
    → (small.move_disk source from target to s).0 ≡ done tt
    → small_disk (small.move_disk source from target to s).1 target to ≡ some d
small_done s source from target to d h k = ground (arith, h, k)

abbrev small_tracking : Tracking small
small_tracking = record {
  Disk = ℕ;
  disk_at = small_disk;
  commit_keeps = λ s n key. refl;
  move_either = small_either;
  move_done = small_done;
}

abbrev at_9000 : Location
at_9000 = record {
  vmid = some 9000;
  config_key = "unused0";
  vol_id = "ssd:vm-9000-disk-0";
  move_vmid = none;
  move_key = "";
}

abbrev vol : Volume
vol = record {
  id = "vol-1";
  account_id = "a1";
  owner_username = "ann";
  client_token = "t";
  request_sha256 = [];
  size_gib = pos 10;
  disk_tier = "ssd";
  tags = [];
  state = in_use;
  instance_id = some "i-1";
  device = some "scsi1";
  attachment_state = some attached;
  pending_action = some detach;
  state_reason = [];
  last_error = [];
  attempts = 0;
  next_attempt_at = 0;
  lease_until = none;
  location = at_9000;
  created_at = 0;
  deleted_at = none;
  updated_at = 0;
}

abbrev small_world : World small
small_world = record {
  state = false;
  volumes = vol ∷ [];
  instances = [];
  location = at_9000;
  quarantine = [];
}

abbrev small_site : Site
small_site = record {
  holder = 9999;
  storage = record { vm_disks = "ssd"; vm_disks_hdd = ""; images = "store" };
  now = 7;
}

-- The move succeeds.
small_moves : (move small small_site "vol-1" 9999 small_world).0 ≡ done tt
unfolding move volid_at lookup free_key itoa_from record_location
small_moves = refl

move_tracks_example :
    Ends small small_tracking "vol-1" 1 9999 (move small small_site "vol-1" 9999 small_world)
move_tracks_example =
    move_tracks small small_tracking small_site "vol-1" 1 9999 9000 small_world vol refl refl refl
      refl
