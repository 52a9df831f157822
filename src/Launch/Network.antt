-- ===== src/Launch/Network.antt =====
-- Subnets (SubnetList, Subnet and Launchable of api/internal/site/site.go; launchSubnet,
-- instanceSubnet and subnetName of api/internal/compute/service.go). The text of the network that an
-- address range is in comes from Go's net/netip, a parameter.
use Prim.Native.String.{len, slice}
use text.Mathlib.Text.{starts_with}
use shake_cloud.Prelude.{
  ◌||◌, if◌then◌else◌, find, ℤ, pos, eqℤ, String, Bool, true, false, ◌&&◌, not, Option, none, some,
  List, [], ◌∷◌, str_eq,
}
use shake_cloud.Result.{refuse, Result, err, ok, ◌>>◌, unless}
use shake_cloud.Admission.Size.{invalid_parameter}

pub record Subnet : Type 0 where
  pub name : String
  pub prefix : String
  pub gateway : String
  pub vlan_id : ℤ
  pub bridge_tag : ℤ
  pub ip_range_start : String
  pub is_default : Bool
  pub description : String

pub record Network : Type 0 where
  pub bridge : String
  pub gateway : String
  pub dns_servers : List String
  pub ip_range_start : String
  pub vlan_id : ℤ
  pub bridge_vlan_aware : Bool
  pub subnets : List Subnet

unfoldable pub subnet_list : (String → String) → Network → List Subnet
subnet_list masked n = elim n.subnets [
  | s ∷ rest ↦ s ∷ rest
  | [] ↦
      record {
        name = "server";
        prefix = masked n.ip_range_start;
        gateway = n.gateway;
        vlan_id = n.vlan_id;
        bridge_tag = n.vlan_id;
        ip_range_start = n.ip_range_start;
        is_default = true;
        description = "";
      }
      ∷ []
]

abbrev pub is_named : String → Subnet → Bool
is_named name s = (str_eq name "" && s.is_default) || (not (str_eq name "") && str_eq s.name name)

unfoldable pub subnet_of : (String → String) → Network → String → Option Subnet
unfolding subnet_list
subnet_of masked n name = find (is_named name) (subnet_list masked n)

unfoldable pub is_launchable : Network → Subnet → Bool
is_launchable n s =
    not (str_eq s.ip_range_start "") && (eqℤ s.bridge_tag (pos 0) || n.bridge_vlan_aware)

-- `strings.TrimPrefix(id, "subnet-")`
unfoldable pub subnet_name : String → String
subnet_name id = if starts_with id "subnet-" then slice id 7 (len id) else id

abbrev checked_subnet : Network → Option Subnet → Result Subnet
checked_subnet n none = err (refuse 400 "InvalidSubnetID.NotFound")
checked_subnet n (some s) =
    unless (not (is_launchable n s)) (refuse 400 "InvalidSubnet.NotLaunchable") >> ok s

unfoldable pub launch_subnet : (String → String) → Network → String → Result Subnet
unfolding subnet_of is_launchable subnet_name
launch_subnet masked n id =
    unless (not (str_eq id "") && not (starts_with id "subnet-")) invalid_parameter
    >> checked_subnet n (subnet_of masked n (subnet_name id))

abbrev zero_subnet : Subnet
zero_subnet = record {
  name = "";
  prefix = "";
  gateway = "";
  vlan_id = pos 0;
  bridge_tag = pos 0;
  ip_range_start = "";
  is_default = false;
  description = "";
}

abbrev or_zero : Option Subnet → Subnet
or_zero none = zero_subnet
or_zero (some s) = s

-- The subnet of an instance that exists: the default one, if its name is gone.
unfoldable pub instance_subnet : (String → String) → Network → String → Subnet
unfolding subnet_of
instance_subnet masked n name = elim (subnet_of masked n name) [
  | some s ↦ s
  | none ↦ or_zero (subnet_of masked n "")
]
