-- ===== src/Firewall/Render.antt =====
-- renderFirewall of api/internal/compute/firewall.go.
use shake_cloud.Prelude.{
  ℕ, String, ◌&&◌, ◌||◌, Option, none, some, List, [], ◌∷◌, any, str_eq, ◌==◌, if◌then◌else◌,
}
use shake_cloud.Firewall.Rule.{
  SecurityGroupRule, FirewallRule, Dport, any_port, one_port, port_range, no_comment, shakecloud,
  rule_eq,
}

-- The ports of a tcp or udp rule. `none` is the panic of dereferencing a nil port.
abbrev pub dport_of : Option ℕ → Option ℕ → Option Dport
dport_of (some from) (some to) = some (
    if from == 0 && to == 65535
    then any_port
    else if to == from
    then one_port from
    else port_range from to)
dport_of _ _ = none

-- Direction, source and destination.
abbrev pub directed : SecurityGroupRule → FirewallRule
directed r =
    if str_eq r.direction "ingress"
    then record {
      pos = 0;
      kind = "in";
      action = "ACCEPT";
      proto = "";
      dport = any_port;
      source = r.cidr;
      dest = "";
      enable = 1;
      comment = no_comment;
    }
    else record {
      pos = 0;
      kind = "out";
      action = "ACCEPT";
      proto = "";
      dport = any_port;
      source = "";
      dest = r.cidr;
      enable = 1;
      comment = no_comment;
    }

abbrev pub with_ports : FirewallRule → String → Option Dport → Option FirewallRule
with_ports rule proto none = none
with_ports rule proto (some d) = some (record rule { proto = proto; dport = d })

-- One group rule without its comment.
unfoldable pub render_rule : SecurityGroupRule → Option FirewallRule
render_rule r =
    let rule = directed r in
    if str_eq r.protocol "tcp" || str_eq r.protocol "udp"
    then with_ports rule r.protocol (dport_of r.from_port r.to_port)
    else if str_eq r.protocol "icmp"
    then some (record rule { proto = "icmp" })
    else if str_eq r.protocol "icmpv6"
    then some (record rule { proto = "ipv6-icmp" })
    else some rule

abbrev pub commented : SecurityGroupRule → FirewallRule → FirewallRule
commented r rule = record rule { comment = shakecloud r.group_id r.id }

abbrev pub cons_rule : FirewallRule → Option (List FirewallRule) → Option (List FirewallRule)
cons_rule rule none = none
cons_rule rule (some out) = some (rule ∷ out)

abbrev pub or_panic :
    Option FirewallRule → (FirewallRule → Option (List FirewallRule)) → Option (List FirewallRule)
or_panic none k = none
or_panic (some rule) k = k rule

-- The loop; `seen` are the rules rendered so far, without their comments.
unfoldable pub render_from : List FirewallRule → List SecurityGroupRule → Option (List FirewallRule)
unfolding render_rule
render_from seen [] = some []
render_from seen (r ∷ rules) = or_panic (render_rule r) λ rule.
    let skipped = render_from seen rules in
    let added = render_from (rule ∷ seen) rules in
    if any (rule_eq rule) seen then skipped else cons_rule (commented r rule) added

unfoldable pub render_firewall : List SecurityGroupRule → Option (List FirewallRule)
unfolding render_from
render_firewall rules = render_from [] rules
