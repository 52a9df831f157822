-- ===== src/Groups/Examples.antt =====
-- Rules of a group, and a firewall that is brought up to them.
use shake_cloud.Prelude.{
  find, pos, String, ◌≡◌, refl, true, false, Option, none, some, List, [], ◌∷◌, arith,
}
use shake_cloud.Result.{ok}
use shake_cloud.Db.Instance.{running, Instance, has_id}
use shake_cloud.Firewall.Rule.{SecurityGroupRule, FirewallRule}
use shake_cloud.Firewall.Render.{render_firewall}
use shake_cloud.Db.FirewallWork.{
  first_behind, claim_firewall_work, applied, record_firewall_applied,
}
use shake_cloud.Groups.Rules.{RuleRequest, Prefix, validate_rules}
use shake_cloud.Groups.Wanted.{wanted}
use shake_cloud.Groups.Renders.{validate_rules-renders}
use shake_cloud.Groups.Due.{fire_leased}
use shake_cloud.Groups.Behind.{
  idle, claimed_at, read_rules, written, World, with_instances, claims_firewall, reads, writes,
  records, Steps, no_step, then_step, IsSettling,
}
use shake_cloud.Groups.Follows.{firewall_follows}

abbrev parsed : String → Option Prefix
parsed text = some (record { shown = text; is_4 = true; has_host_bits = false })

abbrev ssh : RuleRequest
ssh = record {
  protocol = "tcp";
  from_port = some (pos 22);
  to_port = some (pos 22);
  cidr = "10.0.0.0/8";
  description = "";
}

abbrev ssh_rule : SecurityGroupRule
ssh_rule = record {
  id = "sgr-1";
  group_id = "sg-1";
  direction = "ingress";
  protocol = "tcp";
  from_port = some 22;
  to_port = some 22;
  cidr = "10.0.0.0/8";
  description = "";
  created_at = 0;
}

validated_ssh :
    validate_rules parsed (λ n. "sgr-1") "sg-1" "ingress" (ssh ∷ []) ≡ ok (ssh_rule ∷ [])
unfolding validate_rules
validated_ssh = refl

validate_rules-renders_example :
    (out : List FirewallRule) × (render_firewall (ssh_rule ∷ []) ≡ some out)
validate_rules-renders_example =
    validate_rules-renders parsed (λ n. "sgr-1") "sg-1" "ingress" (ssh ∷ []) validated_ssh

abbrev box : Instance
box = record {
  id = "i-1";
  account_id = "a1";
  owner_username = "ann";
  client_token = "";
  request_sha256 = [];
  name = "web";
  image_id = "debian";
  guest_os = "";
  install_iso_id = "";
  driver_iso_id = "";
  instance_type = "small";
  cpu_cores = pos 2;
  memory_mib = pos 2048;
  memory_min_mib = pos 512;
  ballooning = true;
  root_disk_gib = pos 20;
  disk_tier = "ssd";
  subnet = "";
  user_data = "";
  key_name = "";
  key_public_key = "";
  tags = [];
  state = running;
  pending_action = none;
  state_reason = [];
  last_error = [];
  attempts = 0;
  next_attempt_at = 5;
  lease_until = none;
  vmid = some 9000;
  vm_created = true;
  mac_address = "";
  ip_address = "";
  netbox_ip_id = none;
  seed_volume = "";
  launch_time = 1;
  terminated_at = none;
  updated_at = 1;
  adopted = false;
  firewall_generation = 1;
  firewall_applied = 0;
  firewall_last_error = "";
  firewall_next_attempt_at = 0;
  firewall_lease_until = none;
}

-- The instance is in the group, and its firewall was never written.
abbrev unwritten : World
unwritten = record {
  tables = record {
    instances = box ∷ [];
    groups =
        record {
          id = "sg-1";
          account_id = "a1";
          owner_username = "ann";
          name = "web";
          description = "";
          is_default = false;
          created_at = 0;
          updated_at = 0;
        }
        ∷ [];
    rules = ssh_rule ∷ [];
    members = record { instance_id = "i-1"; group_id = "sg-1" } ∷ [];
  };
  on_vm = some [];
  phase = idle;
}

abbrev free_box : Instance
free_box = fire_leased 5 300 box

abbrev claimed_world : World
claimed_world = record unwritten {
  tables = with_instances (free_box ∷ []) unwritten.tables;
  phase = claimed_at 1;
}

abbrev read_world : World
read_world = record claimed_world { phase = read_rules 1 (wanted "i-1" claimed_world.tables) }

abbrev written_world : World
written_world = record read_world {
  on_vm = render_firewall (wanted "i-1" claimed_world.tables);
  phase = written 1;
}

abbrev applied_world : World
applied_world = record written_world {
  tables =
      with_instances (record_firewall_applied "i-1" 1 written_world.tables.instances)
        written_world.tables;
  phase = idle;
}

claims_box :
    claim_firewall_work 5 300 (λ k. false) unwritten.tables.instances ≡ ok (free_box, free_box ∷ [])
unfolding claim_firewall_work first_behind
claims_box = refl

firewall_round : Steps "i-1" unwritten applied_world
firewall_round =
    then_step
      (then_step
        (then_step
          (then_step no_step
            (claims_firewall 5 300 (λ k. false) free_box (free_box ∷ []) refl refl claims_box refl))
          (reads 1 refl refl))
        (writes 1 (wanted "i-1" claimed_world.tables) refl refl))
      (records 1 refl refl)

starts_settled : IsSettling "i-1" unwritten
starts_settled = record {
  keyed = (refl, tt);
  rows_settle = ((λ mine. (refl, (omega arith, λ level. absurd (omega (arith, level))))), tt);
}

box_applied : find (has_id "i-1") applied_world.tables.instances ≡ some (applied 1 free_box)
unfolding record_firewall_applied
box_applied = refl

firewall_follows_example : applied_world.on_vm ≡ render_firewall (wanted "i-1" applied_world.tables)
firewall_follows_example =
    firewall_follows "i-1" unwritten applied_world (applied 1 free_box) starts_settled
      firewall_round refl box_applied refl
