-- ===== src/Firewall/Runs.antt =====
-- A run of the firewall's worker on a small hypervisor.
use shake_cloud.Prelude.{pos, ◌≡◌, refl, true, false, none, some, List, [], ◌∷◌, map}
use shake_cloud.Disks.Cloud.{done}
use shake_cloud.Disks.Steps.{done-injective}
use shake_cloud.Db.Instance.{running, Instance}
use shake_cloud.Db.Groups.{Tables, rules_of_groups, instance_groups}
use shake_cloud.Firewall.Rule.{one_port, shakecloud, FirewallRule}
use shake_cloud.Firewall.Node.{bare}
use shake_cloud.Firewall.Replace.{replace_rules}
use shake_cloud.Firewall.Render.{render_firewall}
use shake_cloud.Firewall.Filter.{Filter, filtered_nic, without_first, apply_firewall}
use shake_cloud.Groups.Wanted.{wanted}
use shake_cloud.Firewall.Applied.{IsKeeping, apply_firewall-exact}
use shake_cloud.Firewall.Examples.{number, node}

abbrev its_filter : Filter node
its_filter = record {
  owns = λ s. done true;
  listed = λ s. done (node.rules s);
  set_options = λ o s. (done tt, s);
  ip_sets = λ s. done [];
  create_set = λ name s. (done tt, s);
  entries = λ name s. done [];
  add_entry = λ name entry s. (done tt, s);
  delete_entry = λ name entry s. (done tt, s);
  net0 = λ s. done "virtio=m,bridge=b,firewall=0";
  update_net0 = λ text s. (done tt, s);
}

filtered_nic_test :
    filtered_nic "virtio=m,bridge=b,firewall=0,tag=3" ≡ some "virtio=m,bridge=b,firewall=1,tag=3"
unfolding filtered_nic
filtered_nic_test = refl

its_filter-IsKeeping : IsKeeping node its_filter
its_filter-IsKeeping = record {
  listed_rules = λ s l h. done-injective h;
  options_keep = λ o s. refl;
  create_keep = λ name s. refl;
  add_keep = λ name entry s. refl;
  delete_keep = λ name entry s. refl;
  nic_keep = λ text s. refl;
}

abbrev guarded : Instance
guarded = record {
  id = "i-1";
  account_id = "a1";
  owner_username = "ann";
  client_token = "";
  request_sha256 = [];
  name = "web";
  image_id = "debian";
  guest_os = "";
  install_iso_id = "";
  driver_iso_id = "";
  instance_type = "small";
  cpu_cores = pos 2;
  memory_mib = pos 2048;
  memory_min_mib = pos 512;
  ballooning = true;
  root_disk_gib = pos 20;
  disk_tier = "ssd";
  subnet = "";
  user_data = "";
  key_name = "";
  key_public_key = "";
  tags = [];
  state = running;
  pending_action = none;
  state_reason = [];
  last_error = [];
  attempts = 0;
  next_attempt_at = 5;
  lease_until = none;
  vmid = some 9000;
  vm_created = true;
  mac_address = "";
  ip_address = "10.0.0.5/24";
  netbox_ip_id = none;
  seed_volume = "";
  launch_time = 1;
  terminated_at = none;
  updated_at = 1;
  adopted = false;
  firewall_generation = 1;
  firewall_applied = 0;
  firewall_last_error = "";
  firewall_next_attempt_at = 0;
  firewall_lease_until = none;
}

abbrev guarding : Tables
guarding = record {
  instances = guarded ∷ [];
  groups = [];
  rules =
      record {
        id = "sgr-1";
        group_id = "sg-1";
        direction = "ingress";
        protocol = "tcp";
        from_port = some 22;
        to_port = some 22;
        cidr = "10.0.0.0/8";
        description = "";
        created_at = 0;
      }
      ∷ [];
  members = record { instance_id = "i-1"; group_id = "sg-1" } ∷ [];
}

abbrev ssh_in : FirewallRule
ssh_in = record {
  pos = 0;
  kind = "in";
  action = "ACCEPT";
  proto = "tcp";
  dport = one_port 22;
  source = "10.0.0.0/8";
  dest = "";
  enable = 1;
  comment = shakecloud "sg-1" "sgr-1";
}

applied_once :
    apply_firewall node its_filter "" guarded guarding (9, []) ≡ (done tt, (8, ssh_in ∷ []))
unfolding apply_firewall filtered_nic instance_groups rules_of_groups render_firewall replace_rules
    without_first
applied_once = refl

apply_firewall-exact_example :
    (out : List FirewallRule) × (render_firewall (wanted "i-1" guarding) ≡ some out)
    × (map bare (number 0 (ssh_in ∷ [])) ≡ out)
apply_firewall-exact_example =
    apply_firewall-exact node its_filter its_filter-IsKeeping "" guarded guarding (9, [])
      (8, ssh_in ∷ []) applied_once
