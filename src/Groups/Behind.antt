-- ===== src/Groups/Behind.antt =====
-- The VM firewall of one instance follows its groups: changes of groups and the steps of the
-- firewall's worker (workFirewallOnce of api/internal/compute/firewall.go), in any order.
-- How far a worker is: nothing, the row was claimed at a generation, the rules were read, written.
use shake_cloud.Prelude.{
  All, contains, ℕ, ◌≤◌, ◌<◌, String, ◌≡◌, ◌≢◌, Bool, true, false, Option, List,
}
use shake_cloud.Result.{Result, ok}
use shake_cloud.Db.Instance.{Instance, is_live, has_id}
use shake_cloud.Db.Instances.{Rows}
use shake_cloud.Firewall.Rule.{SecurityGroupRule, FirewallRule}
use shake_cloud.Firewall.Render.{render_firewall}
use shake_cloud.Db.Keys.{IsKeyed}
use shake_cloud.Db.Groups.{SecurityGroup, Tables, instance_groups}
use shake_cloud.Db.FirewallWork.{claim_firewall_work, record_firewall_applied, firewall_retry_later}
use shake_cloud.Groups.Rules.{RuleRequest, Prefix}
use shake_cloud.Groups.Handlers.{
  Fresh, create_security_group, delete_security_group, authorize_rules, revoke_rule,
  set_instance_security_groups,
}
use shake_cloud.Groups.Wanted.{wanted}

pub data Phase : Type 0 where
  idle : Phase
  claimed_at : ℕ → Phase
  read_rules : ℕ → List SecurityGroupRule → Phase
  written : ℕ → Phase

-- The tables, the rules on the VM (`none` panicked), and the worker.
pub record World : Type 0 where
  pub tables : Tables
  pub on_vm : Option (List FirewallRule)
  pub phase : Phase

abbrev pub with_instances : Rows → Tables → Tables
with_instances rows t = record t { instances = rows }

-- One step. A failure and a crash leave any rules on the VM. One worker at a time is on the
-- instance: the lease outlives the time that a worker is given.
pub data Step (k : String) (w w' : World) : Type 0 where
  authorizes :
      (now : ℕ) (parse : String → Option Prefix) (new_id : ℕ → String) (group direction : String)
      (requests : List RuleRequest) (authorize : SecurityGroup → Bool)
      (audit : SecurityGroup → List SecurityGroupRule → Result (Unit {0})) (g : SecurityGroup)
      (t : Tables)
      → authorize_rules now parse new_id group direction requests authorize audit w.tables
        ≡ ok (g, t)
      → w' ≡ record w { tables = t }
      → Step k w w'
  revokes :
      (now : ℕ) (group rule : String) (authorize : SecurityGroup → Bool)
      (audit : SecurityGroup → Result (Unit {0})) (g : SecurityGroup) (t : Tables)
      → revoke_rule now group rule authorize audit w.tables ≡ ok (g, t)
      → w' ≡ record w { tables = t }
      → Step k w w'
  attaches_groups :
      (now : ℕ) (fresh : Fresh) (j : String) (ids : List String) (authorize : Instance → Bool)
      (audit : Instance → Result (Unit {0})) (i : Instance) (t : Tables)
      → set_instance_security_groups now fresh j ids authorize audit w.tables ≡ ok (i, t)
      → w' ≡ record w { tables = t }
      → Step k w w'
  creates_group :
      (now : ℕ) (fresh : Fresh) (account name description : String)
      (audit : SecurityGroup → Result (Unit {0})) (g : SecurityGroup) (t : Tables)
      → contains (instance_groups k w.tables) fresh.group ≡ false
      → contains (instance_groups k w.tables) fresh.default_group ≡ false
      → create_security_group now fresh account name description audit w.tables ≡ ok (g, t)
      → w' ≡ record w { tables = t }
      → Step k w w'
  deletes_group :
      (group : String) (authorize : SecurityGroup → Bool)
      (audit : SecurityGroup → Result (Unit {0})) (t : Tables)
      → delete_security_group group authorize audit w.tables ≡ ok t
      → w' ≡ record w { tables = t }
      → Step k w w'
  claims_firewall :
      (now lease : ℕ) (locked : String → Bool) (i : Instance) (rows : Rows)
      → w.phase ≡ idle
      → has_id k i ≡ true
      → claim_firewall_work now lease locked w.tables.instances ≡ ok (i, rows)
      → w' ≡ record w {
        tables = with_instances rows w.tables;
        phase = claimed_at i.firewall_generation;
      }
      → Step k w w'
  reads :
      (g : ℕ)
      → w.phase ≡ claimed_at g
      → w' ≡ record w { phase = read_rules g (wanted k w.tables) }
      → Step k w w'
  writes :
      (g : ℕ) (rules : List SecurityGroupRule)
      → w.phase ≡ read_rules g rules
      → w' ≡ record w { on_vm = render_firewall rules; phase = written g }
      → Step k w w'
  records :
      (g : ℕ)
      → w.phase ≡ written g
      → w' ≡ record w {
        tables = with_instances (record_firewall_applied k g w.tables.instances) w.tables;
        phase = idle;
      }
      → Step k w w'
  fails :
      (message : String) (next : ℕ) (left : Option (List FirewallRule))
      → w.phase ≢ idle
      → w' ≡ record w {
        tables = with_instances (firewall_retry_later k message next w.tables.instances) w.tables;
        on_vm = left;
        phase = idle;
      }
      → Step k w w'
  crashes :
      (left : Option (List FirewallRule))
      → w.phase ≢ idle
      → w' ≡ record w { on_vm = left; phase = idle }
      → Step k w w'

pub data Steps (k : String) (w : World) : World → Type 0 where
  no_step : Steps k w w
  then_step : {w' w'' : World} → Steps k w w' → Step k w' w'' → Steps k w w''

-- What holds of the row, the rules that it should have, and those that the VM has.
abbrev pub Follows : Phase → List SecurityGroupRule → Option (List FirewallRule) → Instance → Type 0
Follows idle rules on_vm i =
    (i.firewall_applied ≤ i.firewall_generation)
    × (i.firewall_applied ≡ i.firewall_generation → on_vm ≡ render_firewall rules)
Follows (claimed_at g) rules on_vm i = (i.firewall_applied < g) × (g ≤ i.firewall_generation)
Follows (read_rules g read) rules on_vm i =
    (i.firewall_applied < g)
    × (g ≤ i.firewall_generation)
    × (g ≡ i.firewall_generation → read ≡ rules)
Follows (written g) rules on_vm i =
    (i.firewall_applied < g)
    × (g ≤ i.firewall_generation)
    × (g ≡ i.firewall_generation → on_vm ≡ render_firewall rules)

abbrev pub Settles : String → World → Instance → Type 0
Settles k w i =
    has_id k i ≡ true → (is_live i ≡ true) × Follows w.phase (wanted k w.tables) w.on_vm i

pub record IsSettling (k : String) (w : World) : Type 0 where
  pub keyed : IsKeyed w.tables.instances
  pub rows_settle : All (Settles k w) w.tables.instances
