-- ===== src/Groups/Rules.antt =====
-- validateRules and the names of groups (api/internal/compute/securitygroups.go). The parser of
-- prefixes is Go's net/netip, a parameter.
use shake_cloud.Prelude.{
  ◌||◌, ltb, leb, ◌==◌, if◌then◌else◌, length, ℤ, pos, pos_part, ltℤ, codes, ℕ, ◌+◌, String, Bool,
  true, false, ◌&&◌, not, Option, none, some, List, [], ◌∷◌, map, str_eq,
}
use shake_cloud.Result.{Result, err, ok, ◌>>=◌, ◌>>◌, unless}
use shake_cloud.Admission.Size.{invalid_parameter}
use shake_cloud.Firewall.Rule.{SecurityGroupRule}

pub record RuleRequest : Type 0 where
  pub protocol : String
  pub from_port : Option ℤ
  pub to_port : Option ℤ
  pub cidr : String
  pub description : String

-- A netip.Prefix: its text, its family, and whether bits past the mask are set.
pub record Prefix : Type 0 where
  pub shown : String
  pub is_4 : Bool
  pub has_host_bits : Bool

abbrev pub is_ported : String → Bool
is_ported protocol = str_eq protocol "tcp" || str_eq protocol "udp"

abbrev pub is_portless : String → Bool
is_portless protocol = str_eq protocol "icmp" || str_eq protocol "icmpv6" || str_eq protocol "all"

-- `*FromPort < 0 || *ToPort > 65535 || *FromPort > *ToPort`, and a missing port.
abbrev pub bad_ports : Option ℤ → Option ℤ → Bool
bad_ports (some from) (some to) = ltℤ from (pos 0) || ltℤ (pos 65535) to || ltℤ to from
bad_ports _ _ = true

abbrev pub has_port : Option ℤ → Bool
has_port none = false
has_port (some z) = true

abbrev pub ports_checked : RuleRequest → Result (Unit {0})
ports_checked r =
    if is_ported r.protocol
    then unless (bad_ports r.from_port r.to_port) invalid_parameter
    else if is_portless r.protocol
    then unless (has_port r.from_port || has_port r.to_port) invalid_parameter
    else err invalid_parameter

abbrev pub family_checked : RuleRequest → Prefix → Result (Unit {0})
family_checked r prefix =
    unless (str_eq r.protocol "icmp" && not prefix.is_4) invalid_parameter
    >> unless (str_eq r.protocol "icmpv6" && prefix.is_4) invalid_parameter
    >> unless (ltb 255 (length (codes r.description))) invalid_parameter

-- A port that was checked is not negative.
abbrev pub port_of : Option ℤ → Option ℕ
port_of none = none
port_of (some z) = some (pos_part z)

abbrev pub rule_of : String → String → String → RuleRequest → Prefix → SecurityGroupRule
rule_of id group direction r prefix = record {
  id = id;
  group_id = group;
  direction = direction;
  protocol = r.protocol;
  from_port = port_of r.from_port;
  to_port = port_of r.to_port;
  cidr = prefix.shown;
  description = r.description;
  created_at = 0;
}

abbrev pub with_prefix :
    String → String → String → RuleRequest → Option Prefix → Result SecurityGroupRule
with_prefix id group direction r none = err invalid_parameter
with_prefix id group direction r (some prefix) =
    unless prefix.has_host_bits invalid_parameter
    >> ports_checked r
    >> family_checked r prefix
    >> ok (rule_of id group direction r prefix)

-- The loop; `new_id` are the random identifiers.
unfoldable pub validate_each :
    (String → Option Prefix)
    → (ℕ → String)
    → String
    → String
    → List RuleRequest
    → Result (List SecurityGroupRule)
validate_each parse new_id group direction [] = ok []
validate_each parse new_id group direction (r ∷ requests) =
    with_prefix (new_id (length requests)) group direction r (parse r.cidr) >>= λ rule.
    validate_each parse new_id group direction requests >>= λ rules. ok (rule ∷ rules)

unfoldable pub validate_rules :
    (String → Option Prefix)
    → (ℕ → String)
    → String
    → String
    → List RuleRequest
    → Result (List SecurityGroupRule)
unfolding validate_each
validate_rules parse new_id group direction requests =
    unless (length requests == 0) invalid_parameter
    >> validate_each parse new_id group direction requests

abbrev is_alphanumeric : ℕ → Bool
is_alphanumeric c = (leb 48 c && leb c 57) || (leb 65 c && leb c 90) || (leb 97 c && leb c 122)

-- Space . _ : @ -
abbrev is_punctuation : ℕ → Bool
is_punctuation c = c == 32 || c == 46 || c == 95 || c == 58 || c == 64 || c == 45

abbrev all_of : (ℕ → Bool) → List ℕ → Bool
all_of p [] = true
all_of p (c ∷ cs) = p c && all_of p cs

-- `^[A-Za-z0-9][A-Za-z0-9 ._:@-]{0,63}$`
abbrev matches_name : List ℕ → Bool
matches_name [] = false
matches_name (c ∷ cs) =
    is_alphanumeric c
    && leb (length cs) 63
    && all_of (λ d. is_alphanumeric d || is_punctuation d) cs

abbrev lower : ℕ → ℕ
lower c = if leb 65 c && leb c 90 then c + 32 else c

abbrev codes_eq : List ℕ → List ℕ → Bool
codes_eq [] [] = true
codes_eq (c ∷ cs) (d ∷ ds) = c == d && codes_eq cs ds
codes_eq _ _ = false

-- The `switch` of CreateSecurityGroup. The name is ASCII when its case is folded.
unfoldable pub name_checked : String → String → Result (Unit {0})
name_checked name description =
    unless (not (matches_name (codes name))) invalid_parameter
    >> unless (codes_eq (map lower (codes name)) (codes "default")) invalid_parameter
    >> unless (ltb 255 (length (codes description))) invalid_parameter
