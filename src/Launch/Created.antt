-- ===== src/Launch/Created.antt =====
-- What a launch that created an instance has checked, and what it left (Run of
-- api/internal/compute/service.go).
-- The number is in the range of the site, and no machine and no other live instance has it.
use shake_cloud.Prelude.{ℕ, ◌≤◌, String, ◌≡◌, true, false, none, some, List}
use shake_cloud.Result.{Result, ok}
use shake_cloud.Db.Instance.{pending, launch, Instance}
use shake_cloud.Db.Instances.{Rows, get_instance}
use shake_cloud.Db.Groups.{Tables, instance_groups}
use shake_cloud.Db.FirewallWork.{is_behind}
use shake_cloud.Groups.Handlers.{resolve_groups}
use shake_cloud.Admission.Size.{Spec}
use shake_cloud.Admission.Quota.{check_quota, Sized}
use shake_cloud.Admission.Vmid.{is_free, skip_vmids}
use shake_cloud.Launch.Validate.{RunRequest, validate}
use shake_cloud.Launch.Run.{Launchpad, Drawn}

abbrev pub IsFreshNumber : Launchpad → List ℕ → Rows → ℕ → Type 0
IsFreshNumber pad visible rows n =
    (pad.vmid_from ≤ n)
    × (n ≤ pad.vmid_to)
    × (is_free (skip_vmids pad.volume_holder pad.probes visible) rows pad.quarantine n ≡ true)

-- What resolving the groups of a launch leaves of the instances.
abbrev KeepsRows : Tables → Result (List String × Tables) → Type 0
KeepsRows t r = (c : List String × Tables) → r ≡ ok c → c.1.instances ≡ t.instances

-- What a launch has checked of the tables `t`, and what it left in `t'`.
pub record Creates (now : ℕ) (pad : Launchpad) (drawn : Drawn) (account : String) (r : RunRequest)
    (t : Tables) (i : Instance) (t' : Tables) : Type 0 where
  pub spec : Spec
  pub filled_in : RunRequest
  pub visible : List ℕ
  pub number : ℕ
  pub groups : List String
  pub with_groups : Tables
  pub valid : validate pad.catalogue pad.limits r ≡ ok (spec, filled_in)
  pub quota :
      check_quota account spec filled_in.root_disk_gib pad.limits none t.instances pad.volumes
      ≡ ok tt
  pub listed : pad.visible ≡ ok visible
  pub fresh_number : IsFreshNumber pad visible t.instances number
  pub has_number : i.vmid ≡ some number
  pub of_account : i.account_id ≡ account
  pub is_pending : i.state ≡ pending
  pub is_asked : i.pending_action ≡ some launch
  pub no_vm : i.vm_created ≡ false
  pub sized : Sized i spec filled_in.root_disk_gib
  pub stands : get_instance i.id t'.instances ≡ ok i
  pub resolved :
      resolve_groups now drawn.fresh account filled_in.security_group_ids t
      ≡ ok (groups, with_groups)
  pub attached : instance_groups i.id t' ≡ groups
  pub firewall_owed : is_behind i ≡ true
