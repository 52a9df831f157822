-- ===== src/Db/Groups.antt =====
-- Security groups, their rules, and the instances they are attached to
-- (api/internal/db/securitygroups.go and the constraints of
-- api/internal/db/migrations/0006_volumes_and_security_groups.sql).
use Prim.Native.String.{compare}
use text.Mathlib.Text.{is_lt}
use shake_cloud.Prelude.{
  ◌||◌, ltb, ◌==◌, if◌then◌else◌, length, any, find, select, update_where, contains, ℕ, ◌+◌, String,
  Bool, true, false, ◌&&◌, not, Option, none, some, List, [], ◌∷◌, ◌++◌, map, str_eq,
}
use shake_cloud.Result.{not_found, duplicate, failed, Result, err, ok, ◌>>=◌, ◌>>◌, unless}
use shake_cloud.Db.Instance.{Instance, is_live, has_id}
use shake_cloud.Db.Instances.{Rows}
use shake_cloud.Firewall.Rule.{SecurityGroupRule}

pub record SecurityGroup : Type 0 where
  pub id : String
  pub account_id : String
  pub owner_username : String
  pub name : String
  pub description : String
  pub is_default : Bool
  pub created_at : ℕ
  pub updated_at : ℕ

-- A row of instance_security_groups.
pub record Member : Type 0 where
  pub instance_id : String
  pub group_id : String

-- The tables that the statements read and write.
pub record Tables : Type 0 where
  pub instances : Rows
  pub groups : List SecurityGroup
  pub rules : List SecurityGroupRule
  pub members : List Member

abbrev pub has_group_id : String → SecurityGroup → Bool
has_group_id k g = str_eq g.id k

abbrev pub or_no_group : Option SecurityGroup → Result SecurityGroup
or_no_group none = err not_found
or_no_group (some g) = ok g

-- The row lock has no effect on the values: transactions are taken one at a time.
unfoldable pub lock_security_group : String → Tables → Result SecurityGroup
lock_security_group k t = or_no_group (find (has_group_id k) t.groups)

unfoldable pub count_security_groups : String → Tables → ℕ
count_security_groups account t = length (select (λ g. str_eq g.account_id account) t.groups)

-- The index security_groups_account_id_group_name_key.
abbrev pub same_name : SecurityGroup → SecurityGroup → Bool
same_name new g = str_eq g.account_id new.account_id && str_eq g.name new.name

abbrev pub new_group : ℕ → Bool → SecurityGroup → SecurityGroup
new_group now default g = record g { is_default = default; created_at = now; updated_at = now }

unfoldable pub insert_security_group : ℕ → SecurityGroup → Tables → Result (SecurityGroup × Tables)
insert_security_group now g t =
    if any (has_group_id g.id) t.groups
    then err (failed "unique violation")
    else if any (same_name g) t.groups
    then err duplicate
    else (let new = new_group now false g in ok (new, record t { groups = new ∷ t.groups }))

-- The index security_group_rules_unique.
abbrev port_eq : Option ℕ → Option ℕ → Bool
port_eq none none = true
port_eq (some a) (some b) = a == b
port_eq _ _ = false

abbrev pub same_rule : SecurityGroupRule → SecurityGroupRule → Bool
same_rule a b =
    str_eq a.group_id b.group_id
    && str_eq a.direction b.direction
    && str_eq a.protocol b.protocol
    && port_eq a.from_port b.from_port
    && port_eq a.to_port b.to_port
    && str_eq a.cidr b.cidr

abbrev pub has_rule_id : String → SecurityGroupRule → Bool
has_rule_id k r = str_eq r.id k

unfoldable pub insert_rules_from :
    ℕ → List SecurityGroupRule → List SecurityGroupRule → Result (List SecurityGroupRule)
insert_rules_from now [] rules = ok rules
insert_rules_from now (r ∷ rest) rules =
    unless (any (same_rule r) rules) duplicate
    >> unless (any (has_rule_id r.id) rules) (failed "unique violation")
    >> insert_rules_from now rest (record r { created_at = now } ∷ rules)

abbrev pub touched : ℕ → List SecurityGroupRule → SecurityGroup → SecurityGroup
touched now rules g =
    if any (λ r. str_eq r.group_id g.id) rules then record g { updated_at = now } else g

unfoldable pub insert_security_group_rules : ℕ → List SecurityGroupRule → Tables → Result Tables
unfolding insert_rules_from
insert_security_group_rules now rules t = insert_rules_from now rules t.rules >>= λ all.
    ok (record t { rules = all; groups = map (touched now rules) t.groups })

-- The constraints that ON CONFLICT looks at: the key, the name, and one default group an account.
abbrev pub group_conflicts : SecurityGroup → SecurityGroup → Bool
group_conflicts new g =
    str_eq g.id new.id || same_name new g || (str_eq g.account_id new.account_id && g.is_default)

abbrev pub is_default_of : String → SecurityGroup → Bool
is_default_of account g = str_eq g.account_id account && g.is_default

unfoldable pub ensure_default_security_group :
    ℕ → SecurityGroup → List SecurityGroupRule → Tables → Result (SecurityGroup × Tables)
unfolding insert_security_group_rules
ensure_default_security_group now g rules t =
    if any (group_conflicts g) t.groups
    then (or_no_group (find (is_default_of g.account_id) t.groups) >>= λ old. ok (old, t))
    else (let new = new_group now true g in
        insert_security_group_rules now
          (map (λ (r : SecurityGroupRule). record r { group_id = new.id }) rules)
          (record t { groups = new ∷ t.groups })
        >>= λ t'. ok (new, t'))

abbrev pub is_terminated : Rows → String → Bool
is_terminated rows k = any (λ i. has_id k i && not (is_live i)) rows

abbrev pub in_group : String → Member → Bool
in_group k m = str_eq m.group_id k

-- Memberships of terminated instances go with the group; one of a live instance is a foreign key
-- that stops the DELETE. The rules go by ON DELETE CASCADE.
unfoldable pub delete_group_rows : String → Tables → Result Tables
delete_group_rows k t =
    let kept =
      select (λ m. not (in_group k m && is_terminated t.instances m.instance_id)) t.members in
    if any (in_group k) kept
    then err (failed "foreign key violation")
    else if not (any (has_group_id k) t.groups)
    then err not_found
    else ok (record t {
      members = kept;
      groups = select (λ g. not (has_group_id k g)) t.groups;
      rules = select (λ r. not (str_eq r.group_id k)) t.rules;
    })

-- `ORDER BY r.group_id, r.direction DESC, r.created_at, r.rule_id`
abbrev pub rule_before : SecurityGroupRule → SecurityGroupRule → Bool
rule_before a b =
    is_lt (compare a.group_id b.group_id)
    || (str_eq a.group_id b.group_id
        && (is_lt (compare b.direction a.direction)
            || (str_eq a.direction b.direction
                && (ltb a.created_at b.created_at
                    || (a.created_at == b.created_at && is_lt (compare a.id b.id))))))

unfoldable pub insert_sorted : SecurityGroupRule → List SecurityGroupRule → List SecurityGroupRule
insert_sorted r [] = r ∷ []
insert_sorted r (x ∷ rules) =
    let rest = insert_sorted r rules in if rule_before x r then x ∷ rest else r ∷ x ∷ rules

unfoldable pub sort_rules : List SecurityGroupRule → List SecurityGroupRule
unfolding insert_sorted
sort_rules [] = []
sort_rules (r ∷ rules) = insert_sorted r (sort_rules rules)

unfoldable pub rules_of_groups : List String → Tables → List SecurityGroupRule
unfolding sort_rules
rules_of_groups ids t = sort_rules (select (λ r. contains ids r.group_id) t.rules)

unfoldable pub delete_security_group_rule : ℕ → String → String → Tables → Result Tables
delete_security_group_rule now group k t =
    let hit = λ (r : SecurityGroupRule). str_eq r.group_id group && has_rule_id k r in
    if not (any hit t.rules)
    then err not_found
    else ok (record t {
      rules = select (λ r. not (hit r)) t.rules;
      groups = update_where (has_group_id group) (λ g. record g { updated_at = now }) t.groups;
    })

unfoldable pub count_rules : String → String → Tables → ℕ
count_rules group direction t =
    length (select (λ r. str_eq r.group_id group && str_eq r.direction direction) t.rules)

-- The groups attached to one instance. The order is left out: the caller reads a set.
unfoldable pub instance_groups : String → Tables → List String
instance_groups k t = map (λ m. m.group_id) (select (λ m. str_eq m.instance_id k) t.members)

-- The live instances that a group is attached to.
unfoldable pub group_instances : String → Tables → List String
group_instances k t =
    map (λ m. m.instance_id)
      (select (λ m. in_group k m && any (λ i. has_id m.instance_id i && is_live i) t.instances)
        t.members)

-- The UPDATE that marks a firewall as behind.
abbrev pub bumped : ℕ → Instance → Instance
bumped now i = record i {
  firewall_generation = i.firewall_generation + 1;
  firewall_next_attempt_at = now;
}

unfoldable pub set_instance_groups : ℕ → String → List String → Tables → Tables
set_instance_groups now k ids t = record t {
  members =
      map {B = Member} (λ g. record { instance_id = k; group_id = g }) ids
      ++ select (λ m. not (str_eq m.instance_id k)) t.members;
  instances = update_where (has_id k) (λ i. record (bumped now i) { updated_at = now }) t.instances;
}

-- `instance_id IN (SELECT instance_id FROM instance_security_groups WHERE group_id = $1)`
abbrev pub is_member : List Member → String → Instance → Bool
is_member members group i = any (λ m. str_eq m.instance_id i.id && in_group group m) members

abbrev pub is_grouped : List Member → Instance → Bool
is_grouped members i = any (λ m. str_eq m.instance_id i.id) members

unfoldable pub bump_firewall_of_group : ℕ → String → Tables → Tables
bump_firewall_of_group now group t = record t {
  instances = update_where (λ i. is_live i && is_member t.members group i) (bumped now) t.instances;
}

unfoldable pub bump_firewall_of_all_grouped : ℕ → Tables → Tables
bump_firewall_of_all_grouped now t = record t {
  instances = update_where (λ i. is_live i && is_grouped t.members i) (bumped now) t.instances;
}
