-- ===== src/Firewall/Rule.antt =====
-- The rules of a security group and the rules of a VM firewall.
use shake_cloud.Prelude.{
  ℕ, String, ◌≡◌, refl, Bool, true, false, ◌&&◌, Option, str_eq, eq_iff, arith, ◌==◌,
}

-- `cidr` is a netip.Prefix, by its text.
pub record SecurityGroupRule : Type 0 where
  pub id : String
  pub group_id : String
  pub direction : String
  pub protocol : String
  pub from_port : Option ℕ
  pub to_port : Option ℕ
  pub cidr : String
  pub description : String
  pub created_at : ℕ

-- proxmox.FirewallRule. `dport` and `comment` are built from parts, and are kept as the parts:
-- a port, a range of ports or any other text, and the group and the rule that the comment names.
pub data Dport : Type 0 where
  any_port : Dport
  one_port : ℕ → Dport
  port_range : ℕ → ℕ → Dport
  other_ports : String → Dport

pub data Comment : Type 0 where
  no_comment : Comment
  shakecloud : String → String → Comment
  other_comment : String → Comment

pub record FirewallRule : Type 0 where
  pub pos : ℕ
  pub kind : String
  pub action : String
  pub proto : String
  pub dport : Dport
  pub source : String
  pub dest : String
  pub enable : ℕ
  pub comment : Comment

abbrev pub dport_eq : Dport → Dport → Bool
dport_eq any_port any_port = true
dport_eq (one_port a) (one_port b) = a == b
dport_eq (port_range a b) (port_range c d) = a == c && b == d
dport_eq (other_ports a) (other_ports b) = str_eq a b
dport_eq _ _ = false

abbrev pub comment_eq : Comment → Comment → Bool
comment_eq no_comment no_comment = true
comment_eq (shakecloud a b) (shakecloud c d) = str_eq a c && str_eq b d
comment_eq (other_comment a) (other_comment b) = str_eq a b
comment_eq _ _ = false

-- Go's `==` on two rules.
unfoldable pub rule_eq : FirewallRule → FirewallRule → Bool
rule_eq a b =
    a.pos == b.pos
    && str_eq a.kind b.kind
    && str_eq a.action b.action
    && str_eq a.proto b.proto
    && dport_eq a.dport b.dport
    && str_eq a.source b.source
    && str_eq a.dest b.dest
    && a.enable == b.enable
    && comment_eq a.comment b.comment

dport_eq_sound : (a b : Dport) → dport_eq a b ≡ true → a ≡ b
dport_eq_sound any_port any_port h = refl
dport_eq_sound (one_port a) (one_port b) h = ground arith
dport_eq_sound (port_range a b) (port_range c d) h = ground arith
dport_eq_sound (other_ports a) (other_ports b) h = ground (arith, eq_iff a b)
dport_eq_sound a b h = cc

comment_eq_sound : (a b : Comment) → comment_eq a b ≡ true → a ≡ b
comment_eq_sound no_comment no_comment h = refl
comment_eq_sound (shakecloud a b) (shakecloud c d) h = ground (arith, eq_iff a c, eq_iff b d)
comment_eq_sound (other_comment a) (other_comment b) h = ground (arith, eq_iff a b)
comment_eq_sound a b h = cc

pub rule_eq_sound : (a b : FirewallRule) → rule_eq a b ≡ true → a ≡ b
unfolding rule_eq
rule_eq_sound a b h = ground (
  arith,
  eq_iff a.kind b.kind,
  eq_iff a.action b.action,
  eq_iff a.proto b.proto,
  dport_eq_sound a.dport b.dport,
  eq_iff a.source b.source,
  eq_iff a.dest b.dest,
  comment_eq_sound a.comment b.comment,
)
