-- ===== src/Firewall/Packets.antt =====
-- Which packets rules let through: the rules of security groups, as their fields say, and the rules
-- of a VM firewall, as Proxmox VE reads their fields.
use shake_cloud.Prelude.{
  leb, ◌==◌, if◌then◌else◌, any, ℕ, String, Bool, true, false, ◌&&◌, not, Option, some, List,
  str_eq,
}
use shake_cloud.Firewall.Rule.{
  SecurityGroupRule, Dport, any_port, one_port, port_range, other_ports, FirewallRule,
}

pub data Transport : Type 0 where
  tcp udp icmp icmpv6 other : Transport

abbrev pub transport_eq : Transport → Transport → Bool
transport_eq tcp tcp = true
transport_eq udp udp = true
transport_eq icmp icmp = true
transport_eq icmpv6 icmpv6 = true
transport_eq other other = true
transport_eq _ _ = false

-- A packet to the VM (`inbound`) or from it. `port` is the port that it is sent to, if it has one.
pub record Packet (Address : Type 0) : Type 0 where
  pub inbound : Bool
  pub transport : Transport
  pub port : ℕ
  pub source : Address
  pub dest : Address

abbrev pub in_range : Option ℕ → Option ℕ → ℕ → Bool
in_range (some from) (some to) port = leb from port && leb port to
in_range _ _ port = false

-- The field `proto` of a VM's rule; none is every protocol.
abbrev pub has_proto : Transport → String → Bool
has_proto t proto =
    if str_eq proto "tcp"
    then transport_eq t tcp
    else if str_eq proto "udp"
    then transport_eq t udp
    else if str_eq proto "icmp"
    then transport_eq t icmp
    else if str_eq proto "ipv6-icmp"
    then transport_eq t icmpv6
    else str_eq proto ""

-- The field `dport`, the ports that a packet is sent to. `listing text port`: the text, such as a list
-- of ports, names the port.
abbrev pub has_dport : (String → ℕ → Bool) → ℕ → Dport → Bool
has_dport listing port any_port = true
has_dport listing port (one_port n) = port == n
has_dport listing port (port_range from to) = leb from port && leb port to
has_dport listing port (other_ports text) = listing text port

-- `inside cidr a`: the prefix with this text contains the address.
module _ {Address : Type 0} (inside : String → Address → Bool) where
  -- The far end of the packet is in the rule's prefix.
  abbrev pub concerns : Packet Address → SecurityGroupRule → Bool
  concerns p r =
      if str_eq r.direction "ingress"
      then p.inbound && inside r.cidr p.source
      else not p.inbound && inside r.cidr p.dest

  -- The protocol that the rule names, and its ports where it has them; any other name is every
  -- protocol.
  abbrev pub speaks : Packet Address → SecurityGroupRule → Bool
  speaks p r =
      if str_eq r.protocol "tcp"
      then transport_eq p.transport tcp && in_range r.from_port r.to_port p.port
      else if str_eq r.protocol "udp"
      then transport_eq p.transport udp && in_range r.from_port r.to_port p.port
      else if str_eq r.protocol "icmp"
      then transport_eq p.transport icmp
      else if str_eq r.protocol "icmpv6"
      then transport_eq p.transport icmpv6
      else true

  abbrev pub permits : Packet Address → SecurityGroupRule → Bool
  permits p r = concerns p r && speaks p r

  abbrev pub grants : Packet Address → List SecurityGroupRule → Bool
  grants p rules = any (permits p) rules

module _ {Address : Type 0} (inside : String → Address → Bool) (listing : String → ℕ → Bool) where
  -- The rule is on, accepts, and is of the packet's direction and addresses.
  abbrev pub heads : Packet Address → FirewallRule → Bool
  heads p r =
      not (r.enable == 0)
      && str_eq r.action "ACCEPT"
      && str_eq r.kind (if p.inbound then "in" else "out")
      && inside r.source p.source
      && inside r.dest p.dest

  abbrev pub accepts : Packet Address → FirewallRule → Bool
  accepts p r = heads p r && (has_proto p.transport r.proto && has_dport listing p.port r.dport)

  -- Some rule lets the packet through: without one, both policies drop it.
  abbrev pub lets_through : Packet Address → List FirewallRule → Bool
  lets_through p rules = any (accepts p) rules
