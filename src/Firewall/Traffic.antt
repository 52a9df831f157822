-- ===== src/Firewall/Traffic.antt =====
-- Which packets a rendered firewall lets through (renderFirewall of api/internal/compute/firewall.go).
use mathlib.Core.Path.{ap₂}
use shake_cloud.Prelude.{
  ◌||◌, leb, ◌==◌, if◌then◌else◌, Bool-cases, Option-cases, any, ℕ, ◌≤◌, String, ◌≡◌, refl, sym, ap,
  ◌∙◌, subst, inl, inr, Bool, true, false, ◌&&◌, not, Option, none, some, List, [], ◌∷◌, map, arith,
  str_eq,
}
use shake_cloud.Firewall.Rule.{
  SecurityGroupRule, Dport, any_port, one_port, port_range, no_comment, FirewallRule, rule_eq,
  rule_eq_sound,
}
use shake_cloud.Firewall.Node.{bare}
use shake_cloud.Firewall.Render.{
  dport_of, directed, with_ports, render_rule, commented, cons_rule, render_from, render_firewall,
}
use shake_cloud.Firewall.Packets.{
  Packet, in_range, has_proto, has_dport, concerns, permits, grants, heads, accepts, lets_through,
}

abbrev plain : FirewallRule → FirewallRule
plain r = record r { comment = no_comment }

render_rule-plain :
    (r : SecurityGroupRule) {rule : FirewallRule}
    → render_rule r ≡ some rule
    → (plain rule ≡ rule) × (bare rule ≡ rule)
unfolding render_rule
render_rule-plain r h = (ground arith, ground arith)

or-skip :
    (a g s r : Bool) → (g ≡ true → s ≡ true) → (a || s) ≡ (r || s) → (a || s) ≡ ((g || r) || s)
or-skip a g s r h e = ground arith

or-add : (a g s r : Bool) → (a || (g || s)) ≡ (r || (g || s)) → ((g || a) || s) ≡ ((g || r) || s)
or-add a g s r e = ground arith

cons_rule-some :
    (rule : FirewallRule) (o : Option (List FirewallRule)) {out : List FirewallRule}
    → cons_rule rule o ≡ some out
    → (rest : List FirewallRule) × (o ≡ some rest) × (out ≡ rule ∷ rest)
cons_rule-some rule none h = cc
cons_rule-some rule (some rest) h = (rest, refl, ground arith)

same_dport : {a b : Dport} → ◌≡◌ {A = Option Dport} (some a) (some b) → a ≡ b
same_dport h = cc

inbound-head : (b x : Bool) → (str_eq "in" (if b then "in" else "out") && x && true) ≡ (b && x)
inbound-head true x = ground arith
inbound-head false x = refl

outbound-head :
    (b x : Bool) → (str_eq "out" (if b then "in" else "out") && true && x) ≡ (not b && x)
outbound-head true x = refl
outbound-head false x = refl

same_rule : {a b : FirewallRule} → ◌≡◌ {A = Option FirewallRule} (some a) (some b) → a ≡ b
same_rule h = cc

and-true : (a b : Bool) → (a && (b && true)) ≡ (a && b)
and-true a b = ground arith

or-right : (a : Bool) {b : Bool} → b ≡ true → (a || b) ≡ true
or-right a {b} h = ground arith

or-false : (b : Bool) → (b || false) ≡ b
or-false b = ground arith

module _ {Address : Type 0} (inside : String → Address → Bool) (listing : String → ℕ → Bool)
    (anywhere : (a : Address) → inside "" a ≡ true) where
  range-has_dport :
      (a b port : ℕ)
      → port ≤ 65535
      → has_dport listing port
          (if a == 0 && b == 65535 then any_port else if b == a then one_port a else port_range a b)
        ≡ (leb a port && leb port b)
  range-has_dport a b port small = elim (Bool-cases (a == 0 && b == 65535)) [
    | inl e ↦ rw e (ground arith)
    | inr e ↦ elim (Bool-cases (b == a)) [
      | inl f ↦ rw (e, f) (ground arith)
      | inr f ↦ rw (e, f) refl
    ]
  ]

  ports-has_dport :
      (from to : Option ℕ) (port : ℕ) {d : Dport}
      → port ≤ 65535
      → dport_of from to ≡ some d
      → has_dport listing port d ≡ in_range from to port
  ports-has_dport (some a) (some b) port small h =
      let same = same_dport h in
      subst (λ (x : Dport). has_dport listing port x ≡ (leb a port && leb port b)) same
        (range-has_dport a b port small)
  ports-has_dport (some a) none port small h = cc
  ports-has_dport none to port small h = cc

  directed-heads :
      (p : Packet Address) (r : SecurityGroupRule)
      → heads inside listing p (directed r) ≡ concerns inside p r
  directed-heads p r = elim (Bool-cases (str_eq r.direction "ingress")) [
    | inl e ↦ rw (e, anywhere p.dest) (inbound-head p.inbound (inside r.cidr p.source))
    | inr e ↦ rw (e, anywhere p.source) (outbound-head p.inbound (inside r.cidr p.dest))
  ]

  directed-any :
      (p : Packet Address) (r : SecurityGroupRule)
      → (has_proto p.transport (directed r).proto ≡ true)
        × (has_dport listing p.port (directed r).dport ≡ true)
  directed-any p r = elim (Bool-cases (str_eq r.direction "ingress")) [
    | inl e ↦ rw e (refl, refl)
    | inr e ↦ rw e (refl, refl)
  ]

  with_ports-some :
      (rule : FirewallRule) (proto : String) (o : Option Dport) {out : FirewallRule}
      → with_ports rule proto o ≡ some out
      → (d : Dport) × (o ≡ some d) × (record rule { proto = proto; dport = d } ≡ out)
  with_ports-some rule proto none h = cc
  with_ports-some rule proto (some d) h = (d, refl, ground arith)

  -- A rendered rule accepts what the group's rule permits.
  render_rule-accepts :
      (p : Packet Address) (r : SecurityGroupRule) {rule : FirewallRule}
      → p.port ≤ 65535
      → render_rule r ≡ some rule
      → accepts inside listing p rule ≡ permits inside p r
  unfolding render_rule
  render_rule-accepts p r {rule} small h = elim (Bool-cases (str_eq r.protocol "tcp")) [
    | inl e ↦
        let (d, ports, same) = with_ports-some (directed r) r.protocol _ (rw e at h) in
        let range = ports-has_dport r.from_port r.to_port p.port small ports in
        rw (sym same) (rw (directed-heads p r, e, range) refl)
    | inr e ↦ elim (Bool-cases (str_eq r.protocol "udp")) [
      | inl f ↦
          let (d, ports, same) = with_ports-some (directed r) r.protocol _ (rw (e, f) at h) in
          let range = ports-has_dport r.from_port r.to_port p.port small ports in
          rw (sym same) (rw (directed-heads p r, e, f, range) refl)
      | inr f ↦ elim (Bool-cases (str_eq r.protocol "icmp")) [
        | inl g ↦
            let same = same_rule (rw (e, f, g) at h) in
            rw (sym same) (rw (directed-heads p r, e, f, g, (directed-any p r).1) (and-true _ _))
        | inr g ↦ elim (Bool-cases (str_eq r.protocol "icmpv6")) [
          | inl k ↦
              let same = same_rule (rw (e, f, g, k) at h) in
              rw (sym same)
                (rw (directed-heads p r, e, f, g, k, (directed-any p r).1) (and-true _ _))
          | inr k ↦
              let same = same_rule (rw (e, f, g, k) at h) in
              rw (sym same) (
                rw (directed-heads p r, e, f, g, k, (directed-any p r).1, (directed-any p r).0)
                  refl)
        ]
      ]
    ]
  ]

  -- A rule that was seen lets through what its repetition would.
  accepts-seen :
      (p : Packet Address) (rule : FirewallRule) (seen : List FirewallRule)
      → any (rule_eq rule) seen ≡ true
      → accepts inside listing p rule ≡ true
      → lets_through inside listing p seen ≡ true
  accepts-seen p rule [] h e = cc
  accepts-seen p rule (x ∷ seen) h e = elim (Bool-cases (rule_eq rule x)) [
    | inl f ↦
        let here =
          subst (λ (y : FirewallRule). accepts inside listing p y ≡ true) (rule_eq_sound rule x f)
            e in
        rw here refl
    | inr f ↦ or-right (accepts inside listing p x) (accepts-seen p rule seen (rw f at h) e)
  ]

  -- With the rules seen so far, the loop's output lets through what the groups' rules permit.
  render_from-lets_through :
      (p : Packet Address) (seen : List FirewallRule) (rules : List SecurityGroupRule)
      {out : List FirewallRule}
      → p.port ≤ 65535
      → render_from seen rules ≡ some out
      → (lets_through inside listing p out || lets_through inside listing p seen)
        ≡ (grants inside p rules || lets_through inside listing p seen)
  unfolding render_from
  render_from-lets_through p seen [] {out} small h =
      let e : ◌≡◌ {A = List FirewallRule} [] out = ground arith in
      subst
        (λ (o : List FirewallRule).
          (lets_through inside listing p o || lets_through inside listing p seen)
          ≡ lets_through inside listing p seen)
        e refl
  render_from-lets_through p seen (r ∷ rules) {out} small h = elim (Option-cases (render_rule r)) [
    | inl e ↦ cc (rw e at h)
    | inr (rule, e) ↦
        let h1 = rw e at h in
        let same = render_rule-accepts p r small e in
        elim (Bool-cases (any (rule_eq rule) seen)) [
          | inl s ↦ rw (sym same) (
              or-skip (lets_through inside listing p out) (accepts inside listing p rule)
                (lets_through inside listing p seen) (grants inside p rules)
                (accepts-seen p rule seen s)
                (render_from-lets_through p seen rules small (rw s at h1)))
          | inr s ↦
              let (rest, f, shape) =
                cons_rule-some (commented r rule) (render_from (rule ∷ seen) rules) (rw s at h1) in
              let ih = render_from-lets_through p (rule ∷ seen) rules small f in
              rw shape (
                rw (sym same) (
                  or-add (lets_through inside listing p rest) (accepts inside listing p rule)
                    (lets_through inside listing p seen) (grants inside p rules) ih))
        ]
  ]

  -- The rendered firewall lets a packet through just when some rule of the groups permits it, for
  -- packets to ports below 65536, if the rendering does not panic on a missing port. Which addresses a
  -- prefix contains is any relation under which a rule without an address is for all of them.
  pub render_firewall-lets_through :
      (p : Packet Address) (rules : List SecurityGroupRule) {out : List FirewallRule}
      → p.port ≤ 65535
      → render_firewall rules ≡ some out
      → lets_through inside listing p out ≡ grants inside p rules
  unfolding render_firewall
  render_firewall-lets_through p rules {out} small h =
      sym (or-false (lets_through inside listing p out))
      ∙ render_from-lets_through p [] rules small h
      ∙ or-false (grants inside p rules)

render_from-bare :
    (seen : List FirewallRule) (rules : List SecurityGroupRule) {out : List FirewallRule}
    → render_from seen rules ≡ some out
    → map bare out ≡ out
unfolding render_from
render_from-bare seen [] h = ground arith
render_from-bare seen (r ∷ rules) {out} h = elim (Option-cases (render_rule r)) [
  | inl e ↦ cc (rw e at h)
  | inr (rule, e) ↦
      let h1 = rw e at h in
      elim (Bool-cases (any (rule_eq rule) seen)) [
        | inl s ↦ render_from-bare seen rules (rw s at h1)
        | inr s ↦
            let (rest, f, shape) =
              cons_rule-some (commented r rule) (render_from (rule ∷ seen) rules) (rw s at h1) in
            let ih = render_from-bare (rule ∷ seen) rules f in
            rw shape (ap₂ (λ x xs. x ∷ xs) (ap (commented r) (render_rule-plain r e).1) ih)
      ]
]

-- Rendered rules carry no position, as a replacement sends them.
pub render_firewall-bare :
    (rules : List SecurityGroupRule) {out : List FirewallRule}
    → render_firewall rules ≡ some out
    → map bare out ≡ out
unfolding render_firewall
render_firewall-bare rules h = render_from-bare [] rules h
