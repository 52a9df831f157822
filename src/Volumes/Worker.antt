-- ===== src/Volumes/Worker.antt =====
-- Service.processVolume and workVolumeOnce of api/internal/compute/volume_worker.go.
use shake_cloud.Prelude.{
  ℕ, ℤ, ◌+◌, Bool, true, false, ◌||◌, Option, none, some, List, ◌++◌, ltb, if◌then◌else◌, codes,
  String, ◌*◌,
}
use shake_cloud.Result.{Result, err, ok}
use shake_cloud.Db.Volume.{
  VolumeAction, create, attach, detach, resize, delete, Volume, same_volume_action,
}
use shake_cloud.Db.Volumes.{
  Volumes, claim_volume_work, finish_volume_action, release_volume_lease, retry_volume_later,
  give_up_create, give_up_attach, give_up_resize,
}
use shake_cloud.Lifecycle.Backoff.{backoff, add_duration}
use shake_cloud.Lifecycle.Worker.{Setting, truncate}

-- What carrying the action out came to: done, an error, or an error of type giveUp.
pub data VolumeOutcome : Type 0 where
  carried : VolumeOutcome
  fault : List ℕ → VolumeOutcome
  permanent : List ℕ → VolumeOutcome

-- The rows, and whether the worker was woken.
abbrev pub recorded_volume : Bool × Volumes → Volumes × Bool
recorded_volume (true, rows) = (rows, false)
recorded_volume (false, rows) = (rows, true)

-- Detaches and deletes are never abandoned.
abbrev pub is_kept_trying : Volume → Bool
is_kept_trying v =
    same_volume_action v.pending_action (some detach)
    || same_volume_action v.pending_action (some delete)

abbrev pub measured : Volume → Option ℤ → ℤ
measured v none = v.size_gib
measured v (some size) = size

-- `size` is what the disk measures, if it was found.
abbrev pub give_up_volume :
    Setting → Volume → Option ℤ → List ℕ → Option VolumeAction → Volumes → Volumes × Bool
give_up_volume c v size reason (some create) rows = (give_up_create c.now v.id reason rows, false)
give_up_volume c v size reason (some attach) rows = (give_up_attach c.now v.id reason rows, true)
give_up_volume c v size reason (some resize) rows =
    (give_up_resize c.now v.id (measured v size) reason rows, false)
give_up_volume c v size reason action rows = (rows, false)

unfoldable pub retry_volume : Setting → Volume → List ℕ → Volumes → Volumes × Bool
retry_volume c v text rows = (
  retry_volume_later c.now v.id v.pending_action (truncate text 500)
      (add_duration c.clock (backoff c.overflow c.retry_delay (v.attempts + 1))) rows,
  false,
)

-- `v` is the volume as it was claimed.
unfoldable pub process_volume :
    Setting → Volume → VolumeOutcome → Option ℤ → Volumes → Volumes × Bool
unfolding retry_volume
process_volume c v carried size rows =
    recorded_volume (finish_volume_action c.now v.id v.pending_action rows)
process_volume c v (fault text) size rows =
    if c.cancelled
    then (release_volume_lease v.id rows, false)
    else if ltb (v.attempts + 1) c.max_attempts || is_kept_trying v
    then retry_volume c v text rows
    else give_up_volume c v size (codes "Server.InternalError: " ++ truncate text 500)
        v.pending_action rows
process_volume c v (permanent reason) size rows =
    if c.cancelled
    then (release_volume_lease v.id rows, false)
    else if is_kept_trying v
    then retry_volume c v reason rows
    else give_up_volume c v size reason v.pending_action rows

abbrev claimed_volume :
    Setting
    → (Volume → VolumeOutcome × Option ℤ)
    → Volumes
    → Result (Volume × Volumes)
    → Volumes × Bool
claimed_volume c carry_out rows (err e) = (rows, false)
claimed_volume c carry_out rows (ok (v, rows')) =
    ((process_volume c v (carry_out v).0 (carry_out v).1 rows').0, true)

-- Claim and round, with no other write between them; whether there was work. A lease lasts 15
-- minutes.
unfoldable pub work_volume_once :
    Setting → (String → Bool) → (Volume → VolumeOutcome × Option ℤ) → Volumes → Volumes × Bool
unfolding process_volume
work_volume_once c locked carry_out rows =
    claimed_volume c carry_out rows (claim_volume_work c.now (15 * 60 * 1000000000) locked rows)
