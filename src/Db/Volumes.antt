-- ===== src/Db/Volumes.antt =====
-- The statements on the table of volumes (api/internal/db/volumes.go). `now` is the database's
-- clock.
use Prim.Native.String.{compare}
use text.Mathlib.Text.{is_lt}
use shake_cloud.Prelude.{
  ℕ, ℤ, pos, ◌+◌, leb, ltb, ◌==◌, ◌&&◌, ◌||◌, not, String, Bool, true, false, Option, none, some,
  List, [], ◌∷◌, any, find, select, update_where, str_eq, if◌then◌else◌, length, stored,
}
use shake_cloud.Result.{Result, ok, err, not_found, failed}
use shake_cloud.Db.Instance.{is_none}
use shake_cloud.Db.Instances.{lease_free}
use shake_cloud.Db.Volume.{
  VolumeState, creating, available, in_use, deleting, deleted, error, Attachment, attaching,
  attached, detaching, VolumeAction, create, attach, detach, resize, delete, Location, Volume,
  volume_state_eq, has_volume_id, has_volume_action,
}

abbrev pub Volumes : Type 0
Volumes = List Volume

abbrev pub or_no_volume : Option Volume → Result Volume
or_no_volume none = err not_found
or_no_volume (some v) = ok v

-- The row lock has no effect on the values: transactions are taken one at a time.
unfoldable pub lock_volume : String → Volumes → Result Volume
lock_volume k rows = or_no_volume (find (has_volume_id k) rows)

unfoldable pub volume_by_client_token : String → String → Volumes → Result Volume
volume_by_client_token account token rows =
    or_no_volume (find (λ v. str_eq v.account_id account && str_eq v.client_token token) rows)

abbrev pub is_live_volume : Volume → Bool
is_live_volume v = not (volume_state_eq v.state deleted)

unfoldable pub live_volume_count : Volumes → ℤ
live_volume_count rows = pos (length (select is_live_volume rows))

-- `instance_id = $1`: NULL equals nothing.
abbrev pub is_on : String → Volume → Bool
is_on instance v = elim v.instance_id [ none ↦ false | some i ↦ str_eq i instance ]

-- The order by device is left out: the one caller reads the devices as a set.
unfoldable pub volumes_of_instance : String → Volumes → Volumes
volumes_of_instance instance rows = select (is_on instance) rows

-- The key, and a client token within an account.
abbrev pub volume_collides : Volume → Volume → Bool
volume_collides new v =
    str_eq v.id new.id
    || (not (str_eq new.client_token "")
        && str_eq v.account_id new.account_id
        && str_eq v.client_token new.client_token)

abbrev pub no_location : Location
no_location = record { vmid = none; config_key = ""; vol_id = ""; move_vmid = none; move_key = "" }

abbrev pub new_volume : ℕ → Volume → Volume
new_volume now new = record new {
  state = creating;
  pending_action = some create;
  instance_id = none;
  device = none;
  attachment_state = none;
  state_reason = [];
  last_error = [];
  attempts = 0;
  next_attempt_at = now;
  lease_until = none;
  location = no_location;
  created_at = now;
  deleted_at = none;
  updated_at = now;
  disk_tier = if str_eq new.disk_tier "" then "ssd" else new.disk_tier;
}

unfoldable pub insert_volume : ℕ → Volume → Volumes → Result (Volume × Volumes)
insert_volume now new rows =
    if any (volume_collides new) rows
    then err (failed "unique violation")
    else ok (new_volume now new, new_volume now new ∷ rows)

-- `UPDATE … WHERE volume_id = $1 RETURNING …`
abbrev pub volume_returning : String → (Volume → Volume) → Volumes → Result (Volume × Volumes)
volume_returning k f rows =
    let rows' = update_where (has_volume_id k) f rows in
    elim (find (has_volume_id k) rows') [ none ↦ err not_found | some v ↦ ok (v, rows') ]

abbrev pub asked_attach : ℕ → String → String → Volume → Volume
asked_attach now instance device v = record v {
  instance_id = some instance;
  device = some device;
  attachment_state = some attaching;
  pending_action = some attach;
  state_reason = [];
  attempts = 0;
  last_error = [];
  next_attempt_at = now;
  updated_at = now;
}

unfoldable pub request_attach : ℕ → String → String → String → Volumes → Result (Volume × Volumes)
request_attach now k instance device = volume_returning k (asked_attach now instance device)

abbrev pub asked_detach : ℕ → Volume → Volume
asked_detach now v = record v {
  attachment_state = some detaching;
  pending_action = some detach;
  state_reason = [];
  attempts = 0;
  last_error = [];
  next_attempt_at = now;
  updated_at = now;
}

unfoldable pub request_detach : ℕ → String → Volumes → Result (Volume × Volumes)
request_detach now k = volume_returning k (asked_detach now)

abbrev pub asked_resize : ℕ → ℤ → Volume → Volume
asked_resize now size v = record v {
  size_gib = size;
  pending_action = some resize;
  state_reason = [];
  attempts = 0;
  last_error = [];
  next_attempt_at = now;
  updated_at = now;
}

unfoldable pub request_resize : ℕ → String → ℤ → Volumes → Result (Volume × Volumes)
request_resize now k size = volume_returning k (asked_resize now size)

abbrev pub asked_delete : ℕ → Volume → Volume
asked_delete now v = record v {
  state = deleting;
  pending_action = some delete;
  state_reason = [];
  attempts = 0;
  last_error = [];
  next_attempt_at = now;
  updated_at = now;
}

unfoldable pub request_delete : ℕ → String → Volumes → Result (Volume × Volumes)
request_delete now k = volume_returning k (asked_delete now)

unfoldable pub release_volume_lease : String → Volumes → Volumes
release_volume_lease k = update_where (has_volume_id k) (λ v. record v { lease_until = none })

-- The CASEs of FinishVolumeAction.
abbrev pub state_after : Option VolumeAction → VolumeState → VolumeState
state_after (some create) s = available
state_after (some attach) s = in_use
state_after (some detach) s = available
state_after (some delete) s = deleted
state_after _ s = s

abbrev pub attachment_after : Option VolumeAction → Option Attachment → Option Attachment
attachment_after (some attach) a = some attached
attachment_after (some detach) a = none
attachment_after _ a = a

abbrev pub unless_detach : Option VolumeAction → Option String → Option String
unless_detach (some detach) s = none
unless_detach _ s = s

abbrev pub deleted_after : ℕ → Option VolumeAction → Option ℕ → Option ℕ
deleted_after now (some delete) t = some now
deleted_after now _ t = t

abbrev pub finished_volume : ℕ → Option VolumeAction → Volume → Volume
finished_volume now a v = record v {
  pending_action = none;
  attempts = 0;
  last_error = [];
  lease_until = none;
  state_reason = [];
  updated_at = now;
  state = state_after a v.state;
  attachment_state = attachment_after a v.attachment_state;
  instance_id = unless_detach a v.instance_id;
  device = unless_detach a v.device;
  deleted_at = deleted_after now a v.deleted_at;
}

unfoldable pub finish_volume_action : ℕ → String → Option VolumeAction → Volumes → Bool × Volumes
unfolding release_volume_lease
finish_volume_action now k a rows =
    if any (has_volume_action k a) rows
    then (true, update_where (has_volume_action k a) (finished_volume now a) rows)
    else (false, release_volume_lease k rows)

abbrev pub retried_volume : ℕ → List ℕ → ℕ → Volume → Volume
retried_volume now message at v = record v {
  attempts = v.attempts + 1;
  last_error = message;
  next_attempt_at = at;
  lease_until = none;
  updated_at = now;
}

unfoldable pub retry_volume_later :
    ℕ → String → Option VolumeAction → List ℕ → ℕ → Volumes → Volumes
retry_volume_later now k a message at rows =
    stored message (update_where (has_volume_action k a) (retried_volume now message at) rows) rows

abbrev pub create_given_up : ℕ → List ℕ → Volume → Volume
create_given_up now reason v = record v {
  state = error;
  pending_action = none;
  state_reason = reason;
  attempts = 0;
  lease_until = none;
  updated_at = now;
}

unfoldable pub give_up_create : ℕ → String → List ℕ → Volumes → Volumes
give_up_create now k reason rows =
    stored reason
      (update_where (has_volume_action k (some create)) (create_given_up now reason) rows) rows

abbrev pub attach_given_up : ℕ → List ℕ → Volume → Volume
attach_given_up now reason v = record v {
  attachment_state = some detaching;
  pending_action = some detach;
  state_reason = reason;
  attempts = 0;
  next_attempt_at = now;
  lease_until = none;
  updated_at = now;
}

unfoldable pub give_up_attach : ℕ → String → List ℕ → Volumes → Volumes
give_up_attach now k reason rows =
    stored reason
      (update_where (has_volume_action k (some attach)) (attach_given_up now reason) rows) rows

abbrev pub resize_given_up : ℕ → ℤ → List ℕ → Volume → Volume
resize_given_up now size reason v = record v {
  size_gib = size;
  pending_action = none;
  state_reason = reason;
  attempts = 0;
  lease_until = none;
  updated_at = now;
}

unfoldable pub give_up_resize : ℕ → String → ℤ → List ℕ → Volumes → Volumes
give_up_resize now k size reason rows =
    stored reason
      (update_where (has_volume_action k (some resize)) (resize_given_up now size reason) rows) rows

unfoldable pub record_location : ℕ → String → Location → Volumes → Volumes
record_location now k l =
    update_where (has_volume_id k) (λ v. record v { location = l; updated_at = now })

abbrev pub moves_between : Option VolumeAction → Bool
moves_between (some attach) = true
moves_between (some detach) = true
moves_between _ = false

abbrev pub returned : ℕ → Location → List ℕ → Volume → Volume
returned now l reason v = record v {
  instance_id = none;
  device = none;
  attachment_state = none;
  state = if volume_state_eq v.state in_use then available else v.state;
  pending_action = if moves_between v.pending_action then none else v.pending_action;
  attempts = if moves_between v.pending_action then 0 else v.attempts;
  location = record l { move_vmid = none; move_key = "" };
  state_reason = reason;
  updated_at = now;
}

unfoldable pub return_to_holder : ℕ → String → Location → List ℕ → Volumes → Volumes
return_to_holder now k l reason = update_where (has_volume_id k) (returned now l reason)

abbrev pub volume_is_due : ℕ → Volume → Bool
volume_is_due now v =
    not (is_none v.pending_action) && leb v.next_attempt_at now && lease_free now v.lease_until

abbrev pub volume_before : Volume → Volume → Bool
volume_before a b =
    ltb a.next_attempt_at b.next_attempt_at
    || (a.next_attempt_at == b.next_attempt_at && is_lt (compare a.id b.id))

unfoldable pub first_of_volumes : Volumes → Option Volume
first_of_volumes [] = none
first_of_volumes (v ∷ rows) = elim (first_of_volumes rows) [
  | none ↦ some v
  | some w ↦ if volume_before w v then some w else some v
]

-- `locked` are the rows that other transactions hold (SKIP LOCKED).
unfoldable pub claim_volume_work : ℕ → ℕ → (String → Bool) → Volumes → Result (Volume × Volumes)
unfolding first_of_volumes
claim_volume_work now lease locked rows =
    elim (first_of_volumes (select (λ v. volume_is_due now v && not (locked v.id)) rows)) [
      | none ↦ err not_found
      | some v ↦ volume_returning v.id (λ w. record w { lease_until = some (now + lease) }) rows
    ]
