-- ===== src/Groups/Renders.antt =====
-- Rules that are validated can be rendered (validateRules of
-- api/internal/compute/securitygroups.go and renderFirewall of firewall.go).
use shake_cloud.Prelude.{
  ◌||◌, ◌==◌, Bool-cases, Option-cases, length, any, All, All-map, ℤ, pos_part, ℕ, ◌≤◌, String, ◌≡◌,
  refl, subst, ◌⊎◌, inl, inr, Bool, true, false, Option, none, some, List, [], ◌∷◌, arith,
}
use shake_cloud.Result.{Err, ok, unless, >>=-eq-ok, ok-injective}
use shake_cloud.Firewall.Rule.{SecurityGroupRule, FirewallRule, rule_eq}
use shake_cloud.Firewall.Render.{render_rule, commented, render_from, render_firewall}
use shake_cloud.Groups.Rules.{
  RuleRequest, Prefix, is_ported, is_portless, bad_ports, has_port, ports_checked, family_checked,
  port_of, rule_of, with_prefix, validate_each, validate_rules,
}
use shake_cloud.Admission.Size.{invalid_parameter}

-- Rendering the rule does not panic on a missing port.
abbrev pub IsRendered : SecurityGroupRule → Type 0
IsRendered r = (rule : FirewallRule) × (render_rule r ≡ some rule)

-- A rule for tcp or udp has its ports, in order and in range; any other rule has none.
abbrev pub HasPorts : SecurityGroupRule → Type 0
HasPorts r =
    ((is_ported r.protocol ≡ true)
      × ((a b : ℕ) × (r.from_port ≡ some a) × (r.to_port ≡ some b) × (a ≤ b) × (b ≤ 65535)))
    ⊎ ((is_ported r.protocol ≡ false) × (r.from_port ≡ none) × (r.to_port ≡ none))

unless-passed : (b : Bool) (e : Err) {u : Unit {0}} → unless b e ≡ ok u → b ≡ false
unless-passed true e h = cc
unless-passed false e h = refl

both_ports :
    (f t : Option ℤ)
    → bad_ports f t ≡ false
    → (a b : ℕ) × (port_of f ≡ some a) × (port_of t ≡ some b) × (a ≤ b) × (b ≤ 65535)
both_ports none t h = cc
both_ports (some f) none h = cc
both_ports (some f) (some t) h = (pos_part f, pos_part t, refl, refl, ground arith, ground arith)

no_ports :
    (f t : Option ℤ) → (has_port f || has_port t) ≡ false → (port_of f ≡ none) × (port_of t ≡ none)
no_ports none none h = (refl, refl)
no_ports none (some t) h = cc
no_ports (some f) t h = cc

ports_checked-HasPorts :
    (id group direction : String) (r : RuleRequest) (prefix : Prefix) {u : Unit {0}}
    → ports_checked r ≡ ok u
    → HasPorts (rule_of id group direction r prefix)
ports_checked-HasPorts id group direction r prefix h = elim (Bool-cases (is_ported r.protocol)) [
  | inl e ↦ inl (e, both_ports r.from_port r.to_port (unless-passed _ _ (rw e at h)))
  | inr e ↦ elim (Bool-cases (is_portless r.protocol)) [
    | inl f ↦
        let (a, b) = no_ports r.from_port r.to_port (unless-passed _ _ (rw (e, f) at h)) in
        inr (e, a, b)
    | inr f ↦ cc (rw (e, f) at h)
  ]
]

portless_renders : (r : SecurityGroupRule) → is_ported r.protocol ≡ false → render_rule r ≡ none → ⊥
unfolding render_rule
portless_renders r e h = ground arith

ported_renders :
    (r : SecurityGroupRule) {a b : ℕ}
    → r.from_port ≡ some a
    → r.to_port ≡ some b
    → render_rule r ≡ none
    → ⊥
unfolding render_rule
ported_renders r f t h = ground arith

pub HasPorts-IsRendered : (r : SecurityGroupRule) → HasPorts r → IsRendered r
HasPorts-IsRendered r h = elim (Option-cases (render_rule r)) [
  | inr found ↦ found
  | inl e ↦ elim h [
    | inl (ported, (a, b, f, t, low, high)) ↦ absurd (ported_renders r f t e)
    | inr (portless, f, t) ↦ absurd (portless_renders r portless e)
  ]
]

with_prefix-HasPorts :
    (id group direction : String) (r : RuleRequest) (o : Option Prefix) {rule : SecurityGroupRule}
    → with_prefix id group direction r o ≡ ok rule
    → HasPorts rule
with_prefix-HasPorts id group direction r none h = cc
with_prefix-HasPorts id group direction r (some prefix) h =
    let (u, first, same) = >>=-eq-ok _ (λ _. ok (rule_of id group direction r prefix)) h in
    let (v, second, family) = >>=-eq-ok _ (λ _. family_checked r prefix) first in
    let (w, bits, ports) = >>=-eq-ok _ (λ _. ports_checked r) second in
    subst HasPorts (ok-injective same) (ports_checked-HasPorts id group direction r prefix ports)

validate_each-HasPorts :
    (parse : String → Option Prefix) (new_id : ℕ → String) (group direction : String)
    (requests : List RuleRequest) {rules : List SecurityGroupRule}
    → validate_each parse new_id group direction requests ≡ ok rules
    → All HasPorts rules
unfolding validate_each
validate_each-HasPorts parse new_id group direction [] h = subst (All HasPorts) (ok-injective h) tt
validate_each-HasPorts parse new_id group direction (r ∷ requests) h =
    let (rule, one, h1) = >>=-eq-ok _ _ h in
    let (rules, rest, same) = >>=-eq-ok _ _ h1 in
    let both : All HasPorts (rule ∷ rules) = (
      with_prefix-HasPorts (new_id (length requests)) group direction r (parse r.cidr) one,
      validate_each-HasPorts parse new_id group direction requests rest,
    ) in
    subst (All HasPorts) (ok-injective same) both

pub validate_rules-HasPorts :
    (parse : String → Option Prefix) (new_id : ℕ → String) (group direction : String)
    (requests : List RuleRequest) {rules : List SecurityGroupRule}
    → validate_rules parse new_id group direction requests ≡ ok rules
    → All HasPorts rules
unfolding validate_rules
validate_rules-HasPorts parse new_id group direction requests h =
    let (u, some_rules, h1) = >>=-eq-ok (unless (length requests == 0) invalid_parameter) _ h in
    validate_each-HasPorts parse new_id group direction requests h1

render_from-total :
    (seen : List FirewallRule) (rules : List SecurityGroupRule)
    → All IsRendered rules
    → (out : List FirewallRule) × (render_from seen rules ≡ some out)
unfolding render_from
render_from-total seen [] h = ([], refl)
render_from-total seen (r ∷ rules) ((rule, e), h) = elim (Bool-cases (any (rule_eq rule) seen)) [
  | inl s ↦ let (out, f) = render_from-total seen rules h in (out, rw (e, s) f)
  | inr s ↦
      let (out, f) = render_from-total (rule ∷ seen) rules h in
      (commented r rule ∷ out, rw (e, s) (rw f refl))
]

pub render_firewall-total :
    (rules : List SecurityGroupRule)
    → All IsRendered rules
    → (out : List FirewallRule) × (render_firewall rules ≡ some out)
unfolding render_firewall
render_firewall-total rules h = render_from-total [] rules h

-- Rules that validateRules accepts for a group are rendered by renderFirewall without a panic on a
-- missing port, whatever the group, the direction, the identifiers and the parser of prefixes.
pub validate_rules-renders :
    (parse : String → Option Prefix) (new_id : ℕ → String) (group direction : String)
    (requests : List RuleRequest) {rules : List SecurityGroupRule}
    → validate_rules parse new_id group direction requests ≡ ok rules
    → (out : List FirewallRule) × (render_firewall rules ≡ some out)
validate_rules-renders parse new_id group direction requests {rules} h =
    render_firewall-total rules (
      All-map rules HasPorts-IsRendered
        (validate_rules-HasPorts parse new_id group direction requests h))
