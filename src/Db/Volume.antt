-- ===== src/Db/Volume.antt =====
-- The volume row (api/internal/db/volumes.go and the column of
-- api/internal/db/migrations/0006_volumes_and_security_groups.sql that only SQL reads).
use shake_cloud.Prelude.{ℕ, ℤ, String, Bool, true, false, ◌&&◌, Option, some, List, str_eq}

pub data VolumeState : Type 0 where
  creating available in_use deleting deleted error : VolumeState

pub data Attachment : Type 0 where
  attaching attached detaching : Attachment

-- The values that the column `pending_action` may hold when it is not NULL.
pub data VolumeAction : Type 0 where
  create attach detach resize delete : VolumeAction

abbrev pub volume_state_eq : VolumeState → VolumeState → Bool
volume_state_eq creating creating = true
volume_state_eq available available = true
volume_state_eq in_use in_use = true
volume_state_eq deleting deleting = true
volume_state_eq deleted deleted = true
volume_state_eq error error = true
volume_state_eq _ _ = false

abbrev pub volume_action_eq : VolumeAction → VolumeAction → Bool
volume_action_eq create create = true
volume_action_eq attach attach = true
volume_action_eq detach detach = true
volume_action_eq resize resize = true
volume_action_eq delete delete = true
volume_action_eq _ _ = false

pub record Location : Type 0 where
  pub vmid : Option ℕ
  pub config_key : String
  pub vol_id : String
  pub move_vmid : Option ℕ
  pub move_key : String

pub record Volume : Type 0 where
  pub id : String
  pub account_id : String
  pub owner_username : String
  pub client_token : String
  pub request_sha256 : List ℕ
  pub size_gib : ℤ
  pub disk_tier : String
  pub tags : List (String × String)
  pub state : VolumeState
  pub instance_id : Option String  -- "" is none
  pub device : Option String  -- "" is none
  pub attachment_state : Option Attachment  -- "" is none
  pub pending_action : Option VolumeAction  -- "" is none
  pub state_reason : List ℕ
  pub last_error : List ℕ
  pub attempts : ℕ
  pub next_attempt_at : ℕ
  pub lease_until : Option ℕ  -- a column that the Go struct leaves out
  pub location : Location
  pub created_at : ℕ
  pub deleted_at : Option ℕ
  pub updated_at : ℕ

-- `pending_action = $2`: NULL equals nothing.
abbrev pub same_volume_action : Option VolumeAction → Option VolumeAction → Bool
same_volume_action (some a) (some b) = volume_action_eq a b
same_volume_action _ _ = false

-- `volume_id = $1`.
abbrev pub has_volume_id : String → Volume → Bool
has_volume_id k v = str_eq v.id k

-- `volume_id = $1 AND pending_action = $2`.
abbrev pub has_volume_action : String → Option VolumeAction → Volume → Bool
has_volume_action k a v = has_volume_id k v && same_volume_action v.pending_action a
