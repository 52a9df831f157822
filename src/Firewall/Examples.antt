-- ===== src/Firewall/Examples.antt =====
-- Runs of a replacement on a small model of a hypervisor's firewall, which fails once its calls are
-- used up.
use shake_cloud.Prelude.{
  false, ◌||◌, ℕ, zero, suc, String, ◌≡◌, refl, sym, ap, ◌∙◌, ◌⊎◌, inl, inr, Bool, true, Option,
  none, some, List, [], ◌∷◌, map, arith, str_eq,
}
use shake_cloud.Result.{Err, failed}
use shake_cloud.Firewall.Rule.{
  SecurityGroupRule, one_port, no_comment, shakecloud, FirewallRule, rule_eq,
}
use shake_cloud.Firewall.Node.{bare, remove_at, Numbered, Node}
use shake_cloud.Firewall.Replace.{replace_rules}
use shake_cloud.Firewall.Render.{render_firewall}
use shake_cloud.Firewall.Packets.{tcp, Packet, lets_through, grants}
use shake_cloud.Firewall.Exact.{NoGap, replace_exact, replace-NoGap}
use shake_cloud.Firewall.Traffic.{render_firewall-lets_through}

abbrev pub number : ℕ → List FirewallRule → List FirewallRule
number n [] = []
number n (r ∷ rules) = record r { pos = n } ∷ number (suc n) rules

pub number-Numbered : (n : ℕ) (rules : List FirewallRule) → Numbered n (number n rules)
number-Numbered n [] = tt
number-Numbered n (r ∷ rules) = (refl, number-Numbered (suc n) rules)

number-bare : (n : ℕ) (rules : List FirewallRule) → map bare (number n rules) ≡ map bare rules
number-bare n [] = refl
number-bare n (r ∷ rules) = ap (λ t. bare r ∷ t) (number-bare (suc n) rules)

map-remove_at :
    (n : ℕ) (rules : List FirewallRule)
    → map bare (remove_at n rules) ≡ remove_at n (map bare rules)
map-remove_at n [] = refl
map-remove_at zero (r ∷ rules) = refl
map-remove_at (suc n) (r ∷ rules) = ap (λ t. bare r ∷ t) (map-remove_at n rules)

-- The calls that are left before the node fails, and its rules. The last of them has its effect, but
-- is not answered in time.
abbrev pub Calls : Type 0
Calls = ℕ × List FirewallRule

abbrev pub insert_call : FirewallRule → Calls → Option Err × Calls
insert_call r (zero, rules) = (some (failed "timeout"), (zero, rules))
insert_call r (suc zero, rules) = (some (failed "timeout"), (zero, r ∷ rules))
insert_call r (suc (suc n), rules) = (none, (suc n, r ∷ rules))

abbrev pub delete_call : ℕ → Calls → Option Err × Calls
delete_call k (zero, rules) = (some (failed "timeout"), (zero, rules))
delete_call k (suc zero, rules) = (some (failed "timeout"), (zero, remove_at k rules))
delete_call k (suc (suc n), rules) = (none, (suc n, remove_at k rules))

abbrev pub listed : Calls → List FirewallRule
listed s = number 0 s.1

pub insert_call-top :
    (r : FirewallRule) (s : Calls)
    → (insert_call r s).0 ≡ none
    → map bare (listed (insert_call r s).1) ≡ bare r ∷ map bare (listed s)
insert_call-top r (zero, rules) h = cc
insert_call-top r (suc zero, rules) h = cc
insert_call-top r (suc (suc n), rules) h =
    ap (λ t. bare r ∷ t) (number-bare 1 rules ∙ sym (number-bare 0 rules))

pub insert_call-fails :
    (r : FirewallRule) (s : Calls) (e : Err)
    → (insert_call r s).0 ≡ some e
    → (map bare (listed (insert_call r s).1) ≡ map bare (listed s))
      ⊎ (map bare (listed (insert_call r s).1) ≡ bare r ∷ map bare (listed s))
insert_call-fails r (zero, rules) e h = inl refl
insert_call-fails r (suc zero, rules) e h =
    inr (ap (λ t. bare r ∷ t) (number-bare 1 rules ∙ sym (number-bare 0 rules)))
insert_call-fails r (suc (suc n), rules) e h = cc

removed :
    (k : ℕ) (rules : List FirewallRule)
    → map bare (number 0 (remove_at k rules)) ≡ remove_at k (map bare (number 0 rules))
removed k rules =
    number-bare 0 (remove_at k rules)
    ∙ map-remove_at k rules
    ∙ ap (remove_at k) (sym (number-bare 0 rules))

pub delete_call-at :
    (k : ℕ) (s : Calls)
    → (delete_call k s).0 ≡ none
    → map bare (listed (delete_call k s).1) ≡ remove_at k (map bare (listed s))
delete_call-at k (zero, rules) h = cc
delete_call-at k (suc zero, rules) h = cc
delete_call-at k (suc (suc n), rules) h = removed k rules

pub delete_call-fails :
    (k : ℕ) (s : Calls) (e : Err)
    → (delete_call k s).0 ≡ some e
    → (map bare (listed (delete_call k s).1) ≡ map bare (listed s))
      ⊎ (map bare (listed (delete_call k s).1) ≡ remove_at k (map bare (listed s)))
delete_call-fails k (zero, rules) e h = inl refl
delete_call-fails k (suc zero, rules) e h = inr (removed k rules)
delete_call-fails k (suc (suc n), rules) e h = cc

abbrev pub node : Node
node = record {
  State = Calls;
  rules = listed;
  insert_rule = insert_call;
  delete_rule = delete_call;
  numbered = λ s. number-Numbered 0 s.1;
  insert_top = insert_call-top;
  insert_fails = insert_call-fails;
  delete_at = delete_call-at;
  delete_fails = delete_call-fails;
}

abbrev opened : ℕ → FirewallRule
opened port = record {
  pos = 0;
  kind = "in";
  action = "ACCEPT";
  proto = "tcp";
  dport = one_port port;
  source = "0.0.0.0/0";
  dest = "";
  enable = 1;
  comment = no_comment;
}

abbrev ssh_only : List FirewallRule
ssh_only = number 0 (opened 22 ∷ opened 23 ∷ [])

abbrev web : List FirewallRule
web = opened 80 ∷ opened 443 ∷ []

replace_exact_example : map bare (listed (replace_rules node ssh_only web (9, ssh_only)).1) ≡ web
unfolding replace_rules rule_eq
replace_exact_example = replace_exact node ssh_only web (9, ssh_only) refl refl refl

-- The third call is not answered in time: the new rules and one old one are there.
replace-NoGap_example :
    NoGap
      (map bare ssh_only)
      web
      (map bare (listed (replace_rules node ssh_only web (3, ssh_only)).1))
replace-NoGap_example = replace-NoGap node ssh_only web (3, ssh_only) refl refl

abbrev rule : String → ℕ → SecurityGroupRule
rule k port = record {
  id = k;
  group_id = "sg-1";
  direction = "ingress";
  protocol = "tcp";
  from_port = some port;
  to_port = some port;
  cidr = "0.0.0.0/0";
  description = "";
  created_at = 0;
}

-- Two groups open the same port: it is rendered once.
abbrev twice : List SecurityGroupRule
twice = rule "r1" 80 ∷ rule "r2" 80 ∷ []

abbrev rendered : List FirewallRule
rendered = record (opened 80) { comment = shakecloud "sg-1" "r1" } ∷ []

abbrev request_to_80 : Packet String
request_to_80 = record {
  inbound = true;
  transport = tcp;
  port = 80;
  source = "192.0.2.7";
  dest = "10.0.0.5";
}

-- Single addresses, and every address.
abbrev inside : String → String → Bool
inside cidr a = str_eq cidr "" || str_eq cidr "0.0.0.0/0" || str_eq cidr a

abbrev no_list : String → ℕ → Bool
no_list text port = false

render_firewall-lets_through_example :
    lets_through inside no_list request_to_80 rendered ≡ grants inside request_to_80 twice
unfolding render_firewall rule_eq
render_firewall-lets_through_example =
    render_firewall-lets_through inside no_list (λ a. refl) request_to_80 twice (omega arith) refl

let_in : lets_through inside no_list request_to_80 rendered ≡ true
let_in = refl

web_up : render_firewall twice ≡ some rendered
unfolding render_firewall rule_eq
web_up = refl
