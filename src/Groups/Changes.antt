-- ===== src/Groups/Changes.antt =====
-- What AuthorizeRules, RevokeRule, DeleteSecurityGroup, SetInstanceSecurityGroups and
-- CreateSecurityGroup owe to firewalls (api/internal/compute/securitygroups.go).
use shake_cloud.Prelude.{
  ltb, ◌==◌, Bool-cases, length, any, select, All, ℕ, ◌+◌, String, ◌≡◌, refl, sym, ap, subst, inl,
  inr, Bool, true, false, ◌&&◌, not, Option, none, some, List, [], ◌∷◌, ◌++◌, map, arith, str_eq,
  eq_iff,
}
use shake_cloud.Result.{
  Err, refuse, not_found, no_vmid, duplicate, malformed, failed, Result, err, ok, unless, >>=-eq-ok,
  ok-injective,
}
use shake_cloud.Db.Instance.{Instance, has_id}
use shake_cloud.Db.Instances.{get_instance, lock_instance}
use shake_cloud.Firewall.Rule.{SecurityGroupRule}
use shake_cloud.Db.Groups.{
  SecurityGroup, Member, Tables, lock_security_group, has_rule_id, insert_security_group_rules,
  rules_of_groups, delete_security_group_rule, count_rules, instance_groups, bumped,
  set_instance_groups,
}
use shake_cloud.Admission.Size.{invalid_parameter}
use shake_cloud.Groups.Rules.{
  RuleRequest, Prefix, rule_of, with_prefix, validate_each, validate_rules,
}
use shake_cloud.Groups.Handlers.{
  visible_group, Fresh, or_duplicate, authorize_rules, or_no_rule, revoke_rule, without_repeats,
  sort_ids, resolve_groups, is_leaving, set_instance_security_groups,
}
use shake_cloud.Groups.Wanted.{
  IsRuleOf, select-select, insert_security_group_rules-wanted, insert_security_group_rules-keeps,
  drop_rules-wanted,
}
use shake_cloud.Groups.Owed.{Owes, bump-Owes}
use shake_cloud.Lifecycle.Request.{incorrect_state, visible}

with_prefix-IsRuleOf :
    (id group direction : String) (r : RuleRequest) (o : Option Prefix) {rule : SecurityGroupRule}
    → with_prefix id group direction r o ≡ ok rule
    → IsRuleOf group rule
with_prefix-IsRuleOf id group direction r none h = cc
with_prefix-IsRuleOf id group direction r (some prefix) h =
    let (u, first, same) = >>=-eq-ok _ (λ _. ok (rule_of id group direction r prefix)) h in
    ap (λ (x : SecurityGroupRule). x.group_id) (sym (ok-injective same))

validate_each-IsRuleOf :
    (parse : String → Option Prefix) (new_id : ℕ → String) (group direction : String)
    (requests : List RuleRequest) {rules : List SecurityGroupRule}
    → validate_each parse new_id group direction requests ≡ ok rules
    → All (IsRuleOf group) rules
unfolding validate_each
validate_each-IsRuleOf parse new_id group direction [] h =
    subst (All (IsRuleOf group)) (ok-injective h) tt
validate_each-IsRuleOf parse new_id group direction (r ∷ requests) h =
    let (rule, one, h1) = >>=-eq-ok _ _ h in
    let (rules, rest, same) = >>=-eq-ok _ _ h1 in
    let both : All (IsRuleOf group) (rule ∷ rules) = (
      with_prefix-IsRuleOf (new_id (length requests)) group direction r (parse r.cidr) one,
      validate_each-IsRuleOf parse new_id group direction requests rest,
    ) in
    subst (All (IsRuleOf group)) (ok-injective same) both

or_duplicate-ok : (r : Result Tables) {t : Tables} → or_duplicate r ≡ ok t → r ≡ ok t
or_duplicate-ok (ok t) h = h
or_duplicate-ok (err (refuse n s)) h = cc
or_duplicate-ok (err not_found) h = cc
or_duplicate-ok (err no_vmid) h = cc
or_duplicate-ok (err duplicate) h = cc
or_duplicate-ok (err malformed) h = cc
or_duplicate-ok (err (failed s)) h = cc

or_no_rule-ok : (r : Result Tables) {t : Tables} → or_no_rule r ≡ ok t → r ≡ ok t
or_no_rule-ok (ok t) h = h
or_no_rule-ok (err (refuse n s)) h = cc
or_no_rule-ok (err not_found) h = cc
or_no_rule-ok (err no_vmid) h = cc
or_no_rule-ok (err duplicate) h = cc
or_no_rule-ok (err malformed) h = cc
or_no_rule-ok (err (failed s)) h = cc

pub authorize_rules-Owes :
    (k : String) (now : ℕ) (parse : String → Option Prefix) (new_id : ℕ → String)
    (group direction : String) (requests : List RuleRequest) (authorize : SecurityGroup → Bool)
    (audit : SecurityGroup → List SecurityGroupRule → Result (Unit {0})) (t : Tables)
    {g : SecurityGroup} {t' : Tables}
    → authorize_rules now parse new_id group direction requests authorize audit t ≡ ok (g, t')
    → Owes k t t'
unfolding authorize_rules validate_rules
authorize_rules-Owes k now parse new_id group direction requests authorize audit t h =
    let (rules, valid, h1) = >>=-eq-ok (validate_rules parse new_id group direction requests) _ h in
    let (u0, fits, each) =
      >>=-eq-ok (unless (length requests == 0) invalid_parameter)
        (λ _. validate_each parse new_id group direction requests) valid in
    let (found, locked, h2) =
      >>=-eq-ok (visible_group authorize (lock_security_group group t)) _ h1 in
    let (u1, few, h3) =
      >>=-eq-ok
        (unless (ltb 60 (count_rules group direction t + length rules))
          (refuse 409 "RulesPerSecurityGroupLimitExceeded"))
        _ h2 in
    let (mid, inserted, h4) =
      >>=-eq-ok (or_duplicate (insert_security_group_rules now rules t)) _ h3 in
    let (u2, noted, same) = >>=-eq-ok (audit found rules) _ h4 in
    let real = or_duplicate-ok _ inserted in
    let (instances, members) = insert_security_group_rules-keeps now rules t real in
    let all = validate_each-IsRuleOf parse new_id group direction requests each in
    subst (λ (x : SecurityGroup × Tables). Owes k t x.1) (ok-injective same)
      (bump-Owes now k group t mid instances members
        (λ other. insert_security_group_rules-wanted now k group rules t other all real))

not_of_rule :
    (group rule : String) (r : SecurityGroupRule)
    → not (str_eq r.group_id group && has_rule_id rule r) ≡ false
    → r.group_id ≡ group
not_of_rule group rule r h = ground (arith, eq_iff r.group_id group)

delete_security_group_rule-rows :
    (now : ℕ) (group rule : String) (t : Tables) {mid : Tables}
    → delete_security_group_rule now group rule t ≡ ok mid
    → (mid.instances ≡ t.instances)
      × (mid.members ≡ t.members)
      × (mid.rules ≡ select (λ r. not (str_eq r.group_id group && has_rule_id rule r)) t.rules)
unfolding delete_security_group_rule
delete_security_group_rule-rows now group rule t {mid} h =
    elim (Bool-cases (
      not
        (any (λ (r : SecurityGroupRule). str_eq r.group_id group && has_rule_id rule r) t.rules))) [
          | inl e ↦ cc (rw e at h)
          | inr e ↦
              let same = ok-injective (rw e at h) in
              (
                ap (λ (u : Tables). u.instances) (sym same),
                ap (λ (u : Tables). u.members) (sym same),
                ap (λ (u : Tables). u.rules) (sym same),
              )
        ]

pub revoke_rule-Owes :
    (k : String) (now : ℕ) (group rule : String) (authorize : SecurityGroup → Bool)
    (audit : SecurityGroup → Result (Unit {0})) (t : Tables) {g : SecurityGroup} {t' : Tables}
    → revoke_rule now group rule authorize audit t ≡ ok (g, t')
    → Owes k t t'
unfolding revoke_rule instance_groups
revoke_rule-Owes k now group rule authorize audit t h =
    let (found, locked, h1) =
      >>=-eq-ok (visible_group authorize (lock_security_group group t)) _ h in
    let (mid, removed, h2) =
      >>=-eq-ok (or_no_rule (delete_security_group_rule now group rule t)) _ h1 in
    let (u, noted, same) = >>=-eq-ok (audit found) _ h2 in
    let (instances, members, rules) =
      delete_security_group_rule-rows now group rule t
        (or_no_rule-ok (delete_security_group_rule now group rule t) removed) in
    subst (λ (x : SecurityGroup × Tables). Owes k t x.1) (ok-injective same)
      (bump-Owes now k group t mid instances members (λ other.
        drop_rules-wanted k group _ t mid (not_of_rule group rule) other rules (rw members refl)))

-- Memberships of `k` among those that a new attachment of `j` leaves.
attach_other :
    (j k : String) (ids : List String) (members : List Member)
    → str_eq j k ≡ false
    → map
        (λ m. m.group_id)
        (select
          (λ m. str_eq m.instance_id k)
          (map {B = Member} (λ g. record { instance_id = j; group_id = g }) ids
            ++ select (λ m. not (str_eq m.instance_id j)) members))
      ≡ map (λ m. m.group_id) (select (λ m. str_eq m.instance_id k) members)
attach_other j k (g ∷ ids) members h = rw h (attach_other j k ids members h)
attach_other j k [] members h = ap (map (λ (m : Member). m.group_id)) (
    select-select (λ m. str_eq m.instance_id k) (λ m. not (str_eq m.instance_id j)) members
      (λ m gone. ground (arith, eq_iff m.instance_id j, eq_iff m.instance_id k, eq_iff j k)))

set_instance_groups-Owes :
    (now : ℕ) (k j : String) (ids : List String) (t : Tables)
    → Owes k t (set_instance_groups now j ids t)
unfolding set_instance_groups instance_groups rules_of_groups
set_instance_groups-Owes now k j ids t = record {
  hit = has_id j;
  change = λ i. record (bumped now i) { updated_at = now };
  rows = refl;
  key = λ i. refl;
  state_same = λ i. refl;
  further = λ i. refl;
  as_applied = λ i. refl;
  others = λ i has live missed.
      rw (attach_other j k ids t.members (ground (arith, eq_iff i.id j, eq_iff i.id k, eq_iff j k)))
        refl;
}

pub resolve_groups-tables :
    (now : ℕ) (fresh : Fresh) (account : String) (ids : List String) (t : Tables)
    {c : List String × Tables}
    → (length ids == 0) ≡ false
    → resolve_groups now fresh account ids t ≡ ok c
    → c.1 ≡ t
unfolding resolve_groups
resolve_groups-tables now fresh account [] t some_ids h = cc
resolve_groups-tables now fresh account (x ∷ ids) t some_ids h =
    let (u, locked, same) = >>=-eq-ok _ (λ _. ok (sort_ids (without_repeats [] (x ∷ ids)), t)) h in
    ap (λ (c : List String × Tables). c.1) (sym (ok-injective same))

pub unless-passed : (b : Bool) (e : Err) {u : Unit {0}} → unless b e ≡ ok u → b ≡ false
unless-passed true e h = cc
unless-passed false e h = refl

pub set_instance_security_groups-Owes :
    (k : String) (now : ℕ) (fresh : Fresh) (j : String) (ids : List String)
    (authorize : Instance → Bool) (audit : Instance → Result (Unit {0})) (t : Tables) {i : Instance}
    {t' : Tables}
    → set_instance_security_groups now fresh j ids authorize audit t ≡ ok (i, t')
    → Owes k t t'
unfolding set_instance_security_groups
set_instance_security_groups-Owes k now fresh j ids authorize audit t h =
    let (u, named, h1) = >>=-eq-ok (unless (length ids == 0) invalid_parameter) _ h in
    let (found, seen, h2) = >>=-eq-ok (visible authorize (lock_instance j t.instances)) _ h1 in
    let (v, staying, h3) = >>=-eq-ok (unless (is_leaving found) incorrect_state) _ h2 in
    let (c, resolved, h4) = >>=-eq-ok (resolve_groups now fresh found.account_id ids t) _ h3 in
    let (changed, got, h5) =
      >>=-eq-ok (get_instance j (set_instance_groups now j c.0 c.1).instances) _ h4 in
    let (w, noted, same) = >>=-eq-ok (audit changed) _ h5 in
    let tables =
      resolve_groups-tables now fresh found.account_id ids t (unless-passed _ _ named) resolved in
    subst (λ (x : Instance × Tables). Owes k t x.1) (ok-injective same)
      (subst (λ u. Owes k t (set_instance_groups now j c.0 u)) (sym tables)
        (set_instance_groups-Owes now k j c.0 t))
