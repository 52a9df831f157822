-- ===== src/Groups/Handlers.antt =====
-- CreateSecurityGroup, DeleteSecurityGroup, AuthorizeRules, RevokeRule, resolveGroups and
-- SetInstanceSecurityGroups of api/internal/compute/securitygroups.go.
use Prim.Native.String.{compare}
use text.Mathlib.Text.{is_lt}
use shake_cloud.Prelude.{
  ◌||◌, ltb, leb, ◌==◌, if◌then◌else◌, length, contains, ℕ, ◌+◌, String, Bool, false, Option, none,
  List, [], ◌∷◌, ◌++◌, map, str_eq,
}
use shake_cloud.Result.{Err, refuse, not_found, duplicate, Result, err, ok, ◌>>=◌, ◌>>◌, unless}
use shake_cloud.Db.Instance.{shutting_down, terminated, state_eq, Instance}
use shake_cloud.Db.Instances.{get_instance, lock_instance}
use shake_cloud.Firewall.Rule.{SecurityGroupRule}
use shake_cloud.Db.Groups.{
  SecurityGroup, Tables, lock_security_group, count_security_groups, insert_security_group,
  insert_security_group_rules, ensure_default_security_group, delete_group_rows,
  delete_security_group_rule, count_rules, group_instances, set_instance_groups,
  bump_firewall_of_group,
}
use shake_cloud.Lifecycle.Request.{incorrect_state, visible}
use shake_cloud.Admission.Size.{invalid_parameter}
use shake_cloud.Groups.Rules.{RuleRequest, Prefix, validate_rules, name_checked}

abbrev pub group_not_found : Err
group_not_found = refuse 404 "InvalidGroup.NotFound"

-- A group that the caller may not touch answers like one that does not exist.
abbrev pub visible_group : (SecurityGroup → Bool) → Result SecurityGroup → Result SecurityGroup
visible_group authorize (ok g) = if authorize g then ok g else err group_not_found
visible_group authorize (err not_found) = err group_not_found
visible_group authorize (err e) = err e

-- Random identifiers: of groups, and of the rules that come with one.
pub record Fresh : Type 0 where
  pub group : String
  pub default_group : String
  pub rule : ℕ → String

abbrev all_rule : String → String → String → SecurityGroupRule
all_rule id direction cidr = record {
  id = id;
  group_id = "";
  direction = direction;
  protocol = "all";
  from_port = none;
  to_port = none;
  cidr = cidr;
  description = "";
  created_at = 0;
}

-- Everything in one direction, for IPv4 and IPv6.
abbrev pub all_traffic : (ℕ → String) → ℕ → String → List SecurityGroupRule
all_traffic new_id n direction =
    all_rule (new_id n) direction "0.0.0.0/0" ∷ all_rule (new_id (n + 1)) direction "::/0" ∷ []

abbrev pub group_of : String → String → String → String → SecurityGroup
group_of id account name description = record {
  id = id;
  account_id = account;
  owner_username = "";
  name = name;
  description = description;
  is_default = false;
  created_at = 0;
  updated_at = 0;
}

unfoldable pub ensure_default : ℕ → Fresh → String → Tables → Result (SecurityGroup × Tables)
ensure_default now fresh account t =
    ensure_default_security_group now
      (group_of fresh.default_group account "default" "default group: allows all traffic")
      (all_traffic fresh.rule 0 "ingress" ++ all_traffic fresh.rule 2 "egress") t

abbrev pub or_taken : Result (SecurityGroup × Tables) → Result (SecurityGroup × Tables)
or_taken (err duplicate) = err (refuse 409 "InvalidGroup.Duplicate")
or_taken r = r

abbrev pub in_group_of : String → List SecurityGroupRule → List SecurityGroupRule
in_group_of group = map (λ (r : SecurityGroupRule). record r { group_id = group })

unfoldable pub create_security_group :
    ℕ
    → Fresh
    → String
    → String
    → String
    → (SecurityGroup → Result (Unit {0}))
    → Tables
    → Result (SecurityGroup × Tables)
unfolding ensure_default
create_security_group now fresh account name description audit t =
    name_checked name description
    >> (ensure_default now fresh account t >>= λ d.
        unless (leb 20 (count_security_groups account d.1))
          (refuse 409 "SecurityGroupLimitExceeded")
        >> (or_taken (insert_security_group now (group_of fresh.group account name description) d.1)
            >>= λ c.
                insert_security_group_rules now
                  (in_group_of c.0.id (all_traffic fresh.rule 4 "egress")) c.1
                >>= λ t'. audit c.0 >> ok (c.0, t')))

unfoldable pub delete_security_group :
    String → (SecurityGroup → Bool) → (SecurityGroup → Result (Unit {0})) → Tables → Result Tables
delete_security_group k authorize audit t =
    visible_group authorize (lock_security_group k t) >>= λ group.
    unless group.is_default (refuse 409 "CannotDelete")
    >> unless (ltb 0 (length (group_instances k t))) (refuse 409 "DependencyViolation")
    >> (delete_group_rows k t >>= λ t'. audit group >> ok t')

abbrev pub or_duplicate : Result Tables → Result Tables
or_duplicate (err duplicate) = err (refuse 409 "InvalidPermission.Duplicate")
or_duplicate r = r

unfoldable pub authorize_rules :
    ℕ
    → (String → Option Prefix)
    → (ℕ → String)
    → String
    → String
    → List RuleRequest
    → (SecurityGroup → Bool)
    → (SecurityGroup → List SecurityGroupRule → Result (Unit {0}))
    → Tables
    → Result (SecurityGroup × Tables)
authorize_rules now parse new_id k direction requests authorize audit t =
    validate_rules parse new_id k direction requests >>= λ rules.
    visible_group authorize (lock_security_group k t) >>= λ group.
    unless (ltb 60 (count_rules k direction t + length rules))
      (refuse 409 "RulesPerSecurityGroupLimitExceeded")
    >> (or_duplicate (insert_security_group_rules now rules t) >>= λ added.
        audit group rules >> ok (group, bump_firewall_of_group now k added))

abbrev pub or_no_rule : Result Tables → Result Tables
or_no_rule (err not_found) = err (refuse 404 "InvalidPermission.NotFound")
or_no_rule r = r

unfoldable pub revoke_rule :
    ℕ
    → String
    → String
    → (SecurityGroup → Bool)
    → (SecurityGroup → Result (Unit {0}))
    → Tables
    → Result (SecurityGroup × Tables)
revoke_rule now k rule authorize audit t =
    visible_group authorize (lock_security_group k t) >>= λ group.
    or_no_rule (delete_security_group_rule now k rule t) >>= λ removed.
    audit group >> ok (group, bump_firewall_of_group now k removed)

-- The loop that drops repeated names, in order.
abbrev pub without_repeats : List String → List String → List String
without_repeats seen [] = []
without_repeats seen (k ∷ ids) =
    let skipped = without_repeats seen ids in
    let kept = without_repeats (k ∷ seen) ids in if contains seen k then skipped else k ∷ kept

abbrev insert_id : String → List String → List String
insert_id k [] = k ∷ []
insert_id k (x ∷ ids) =
    let rest = insert_id k ids in if is_lt (compare x k) then x ∷ rest else k ∷ x ∷ ids

-- slices.Sort
abbrev pub sort_ids : List String → List String
sort_ids [] = []
sort_ids (k ∷ ids) = insert_id k (sort_ids ids)

abbrev pub owned_group : String → Result SecurityGroup → Result SecurityGroup
owned_group account (ok g) =
    if str_eq g.account_id account then ok g else err (refuse 400 "InvalidGroup.NotFound")
owned_group account (err not_found) = err (refuse 400 "InvalidGroup.NotFound")
owned_group account (err e) = err e

-- The loop that locks the groups.
unfoldable pub lock_each : String → Tables → List String → Result (Unit {0})
lock_each account t [] = ok tt
lock_each account t (k ∷ ids) =
    owned_group account (lock_security_group k t) >>= λ g. lock_each account t ids

unfoldable pub resolve_groups :
    ℕ → Fresh → String → List String → Tables → Result (List String × Tables)
unfolding ensure_default lock_each
resolve_groups now fresh account [] t =
    ensure_default now fresh account t >>= λ d. ok (d.0.id ∷ [], d.1)
resolve_groups now fresh account (k ∷ ids) t =
    let named = without_repeats [] (k ∷ ids) in
    unless (ltb 5 (length named)) (refuse 409 "SecurityGroupsPerInstanceLimitExceeded")
    >> lock_each account t (sort_ids named)
    >> ok (sort_ids named, t)

-- An instance that the caller may not touch answers like one that does not exist.
abbrev pub is_leaving : Instance → Bool
is_leaving i = state_eq i.state terminated || state_eq i.state shutting_down

unfoldable pub set_instance_security_groups :
    ℕ
    → Fresh
    → String
    → List String
    → (Instance → Bool)
    → (Instance → Result (Unit {0}))
    → Tables
    → Result (Instance × Tables)
unfolding resolve_groups
set_instance_security_groups now fresh k ids authorize audit t =
    unless (length ids == 0) invalid_parameter
    >> (visible authorize (lock_instance k t.instances) >>= λ instance.
        unless (is_leaving instance) incorrect_state
        >> (resolve_groups now fresh instance.account_id ids t >>= λ c.
            let t' = set_instance_groups now k c.0 c.1 in
            get_instance k t'.instances >>= λ changed. audit changed >> ok (changed, t')))
