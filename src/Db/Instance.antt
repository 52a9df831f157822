-- ===== src/Db/Instance.antt =====
-- The instance row (api/internal/db/instances.go and the columns of
-- api/internal/db/migrations/0002_instances.sql that only SQL reads).
use shake_cloud.Prelude.{
  ℕ, ℤ, String, ◌≡◌, Bool, true, false, Option, none, some, List, str_eq, arith,
}

-- The values that the column `state` may hold.
pub data State : Type 0 where
  pending running stopping stopped shutting_down terminated : State

-- The values that the column `pending_action` may hold when it is not NULL.
pub data Action : Type 0 where
  launch start stop reboot terminate : Action

abbrev pub state_eq : State → State → Bool
state_eq pending pending = true
state_eq running running = true
state_eq stopping stopping = true
state_eq stopped stopped = true
state_eq shutting_down shutting_down = true
state_eq terminated terminated = true
state_eq _ _ = false

abbrev pub action_eq : Action → Action → Bool
action_eq launch launch = true
action_eq start start = true
action_eq stop stop = true
action_eq reboot reboot = true
action_eq terminate terminate = true
action_eq _ _ = false

pub state_eq_sound : (s t : State) → state_eq s t ≡ true → s ≡ t
state_eq_sound s t h = ground arith

pub record Instance : Type 0 where
  pub id : String
  pub account_id : String
  pub owner_username : String
  pub client_token : String
  pub request_sha256 : List ℕ
  pub name : String
  pub image_id : String
  pub guest_os : String
  pub install_iso_id : String
  pub driver_iso_id : String
  pub instance_type : String
  pub cpu_cores : ℤ
  pub memory_mib : ℤ
  pub memory_min_mib : ℤ
  pub ballooning : Bool
  pub root_disk_gib : ℤ
  pub disk_tier : String
  pub subnet : String
  pub user_data : String
  pub key_name : String
  pub key_public_key : String
  pub tags : List (String × String)
  pub state : State
  pub pending_action : Option Action  -- "" is none
  pub state_reason : List ℕ  -- bytes, since the code cuts and prefixes them
  pub last_error : List ℕ
  pub attempts : ℕ
  pub next_attempt_at : ℕ
  pub lease_until : Option ℕ  -- a column that the Go struct leaves out
  pub vmid : Option ℕ
  pub vm_created : Bool
  pub mac_address : String
  pub ip_address : String
  pub netbox_ip_id : Option ℕ
  pub seed_volume : String
  pub launch_time : ℕ
  pub terminated_at : Option ℕ
  pub updated_at : ℕ
  pub adopted : Bool
  pub firewall_generation : ℕ
  pub firewall_applied : ℕ
  pub firewall_last_error : String
  pub firewall_next_attempt_at : ℕ  -- a column that the Go struct leaves out
  pub firewall_lease_until : Option ℕ  -- a column that the Go struct leaves out

-- `state <> 'terminated'`.
abbrev pub is_live : Instance → Bool
is_live i = elim i.state [ terminated ↦ false | _ ↦ true ]

-- `pending_action = $2`: NULL equals nothing, and `none` is the parameter "", which no row holds.
abbrev pub same_action : Option Action → Option Action → Bool
same_action (some a) (some b) = action_eq a b
same_action _ _ = false

abbrev pub is_none {ℓ} : {A : Type ℓ} → Option A → Bool
is_none none = true
is_none (some a) = false

-- `instance_id = $1`.
abbrev pub has_id : String → Instance → Bool
has_id k i = str_eq i.id k
