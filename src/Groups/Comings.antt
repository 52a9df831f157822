-- ===== src/Groups/Comings.antt =====
-- Creating and deleting a group owes nothing to any firewall (CreateSecurityGroup and
-- DeleteSecurityGroup of api/internal/compute/securitygroups.go).
use shake_cloud.Prelude.{
  ltb, leb, Bool-cases, length, any, find, select, update_where, All, contains, ℕ, String, ◌≡◌,
  refl, sym, ap, ◌∙◌, subst, inl, inr, Bool, true, false, ◌&&◌, not, List, [], ◌∷◌, map, arith,
  str_eq, eq_iff,
}
use shake_cloud.Result.{
  refuse, not_found, no_vmid, duplicate, malformed, failed, Result, err, ok, ◌>>◌, unless,
  >>=-eq-ok, ok-injective,
}
use shake_cloud.Db.Instance.{Instance, is_live, has_id}
use shake_cloud.Db.Instances.{Rows}
use shake_cloud.Firewall.Rule.{SecurityGroupRule}
use shake_cloud.Db.Groups.{
  SecurityGroup, Member, Tables, has_group_id, or_no_group, lock_security_group,
  count_security_groups, same_name, new_group, insert_security_group, insert_security_group_rules,
  group_conflicts, is_default_of, ensure_default_security_group, is_terminated, in_group,
  delete_group_rows, rules_of_groups, instance_groups, group_instances, bumped,
}
use shake_cloud.Groups.Rules.{name_checked}
use shake_cloud.Groups.Handlers.{
  visible_group, Fresh, all_traffic, group_of, ensure_default, or_taken, in_group_of,
  create_security_group, delete_security_group,
}
use shake_cloud.Groups.Wanted.{
  wanted, IsRuleOf, select-select, not_grouped, insert_security_group_rules-wanted,
  insert_security_group_rules-keeps, drop_rules-wanted,
}
use shake_cloud.Groups.Owed.{Owes}

update_none : (f : Instance → Instance) (rows : Rows) → update_where (λ _. false) f rows ≡ rows
update_none f [] = refl
update_none f (i ∷ rows) = ap (λ (l : Rows). i ∷ l) (update_none f rows)

-- A change that touches no instance and keeps what `k` should have.
pub still-Owes :
    (k : String) (t t' : Tables)
    → t'.instances ≡ t.instances
    → wanted k t' ≡ wanted k t
    → Owes k t t'
still-Owes k t t' same keep = record {
  hit = λ _. false;
  change = bumped 0;
  rows = same ∙ sym (update_none (bumped 0) t.instances);
  key = λ i. refl;
  state_same = λ i. refl;
  further = λ i. refl;
  as_applied = λ i. refl;
  others = λ i has live missed. keep;
}

-- Every row of the instance is live.
abbrev pub IsLiveIn : String → Rows → Type 0
IsLiveIn k rows = All (λ i. has_id k i ≡ true → is_live i ≡ true) rows

live_stays : (k : String) (rows : Rows) → IsLiveIn k rows → is_terminated rows k ≡ false
live_stays k [] h = refl
live_stays k (i ∷ rows) h = elim (Bool-cases (has_id k i)) [
  | inl e ↦ rw (e, h.0 e) (live_stays k rows h.1)
  | inr e ↦ rw e (live_stays k rows h.1)
]

kept_members :
    (k group : String) (rows : Rows) (members : List Member)
    → is_terminated rows k ≡ false
    → select
        (λ m. str_eq m.instance_id k)
        (select (λ m. not (in_group group m && is_terminated rows m.instance_id)) members)
      ≡ select (λ m. str_eq m.instance_id k) members
kept_members k group rows members live =
    select-select (λ m. str_eq m.instance_id k)
      (λ m. not (in_group group m && is_terminated rows m.instance_id)) members
      (λ m gone. elim (Bool-cases (str_eq m.instance_id k)) [
        | inr e ↦ e
        | inl e ↦
            let same : m.instance_id ≡ k = (eq_iff m.instance_id k).0 e in
            let stays : is_terminated rows m.instance_id ≡ false = rw same live in
            ground (arith, gone, stays)
      ])

not_in_group :
    (k group : String) (members : List Member)
    → any (in_group group) members ≡ false
    → any (λ m. str_eq m.instance_id k && str_eq m.group_id group) members ≡ false
not_in_group k group [] h = refl
not_in_group k group (m ∷ members) h =
    let ih = not_in_group k group members (ground arith) in ground (arith, ih)

pub delete_group_rows-Owes :
    (k group : String) (t : Tables) {t' : Tables}
    → IsLiveIn k t.instances
    → delete_group_rows group t ≡ ok t'
    → Owes k t t'
unfolding delete_group_rows instance_groups
delete_group_rows-Owes k group t {t'} live h =
    let kept =
      select (λ m. not (in_group group m && is_terminated t.instances m.instance_id)) t.members in
    elim (Bool-cases (any (in_group group) kept)) [
      | inl e ↦ cc (rw e at h)
      | inr e ↦ elim (Bool-cases (not (any (has_group_id group) t.groups))) [
        | inl f ↦ cc (rw (e, f) at h)
        | inr f ↦
            let same = ok-injective (rw (e, f) at h) in
            let still =
              ap (map (λ (m : Member). m.group_id))
                (kept_members k group t.instances t.members (live_stays k t.instances live)) in
            subst (Owes k t) same (
              still-Owes k t _ refl (
                drop_rules-wanted k group (λ r. not (str_eq r.group_id group)) t _
                  (λ r gone. ground (arith, eq_iff r.group_id group))
                  (subst (λ ids. contains ids group ≡ false) still
                    (not_grouped k group kept (not_in_group k group kept e)))
                  refl still))
      ]
    ]

pub delete_security_group-Owes :
    (k group : String) (authorize : SecurityGroup → Bool)
    (audit : SecurityGroup → Result (Unit {0})) (t : Tables) {t' : Tables}
    → IsLiveIn k t.instances
    → delete_security_group group authorize audit t ≡ ok t'
    → Owes k t t'
unfolding delete_security_group
delete_security_group-Owes k group authorize audit t live h =
    let (g, locked, h1) = >>=-eq-ok (visible_group authorize (lock_security_group group t)) _ h in
    let (u, other, h2) =
      >>=-eq-ok
        (unless g.is_default (refuse 409 "CannotDelete")
          >> unless (ltb 0 (length (group_instances group t))) (refuse 409 "DependencyViolation"))
        _ h1 in
    let (mid, deleted, h3) = >>=-eq-ok (delete_group_rows group t) _ h2 in
    let (v, noted, same) = >>=-eq-ok (audit g) _ h3 in
    subst (Owes k t) (ok-injective same) (delete_group_rows-Owes k group t live deleted)

in_group_of-IsRuleOf :
    (group : String) (rules : List SecurityGroupRule)
    → All (IsRuleOf group) (map (λ (r : SecurityGroupRule). record r { group_id = group }) rules)
in_group_of-IsRuleOf group [] = tt
in_group_of-IsRuleOf group (r ∷ rules) = (refl, in_group_of-IsRuleOf group rules)

-- What a step keeps for `k`: the instances, the memberships and the wanted rules.
abbrev Keeps : String → Tables → Tables → Type 0
Keeps k t t' = (t'.instances ≡ t.instances) × (t'.members ≡ t.members) × (wanted k t' ≡ wanted k t)

inserted-Keeps :
    (now : ℕ) (k group : String) (rules : List SecurityGroupRule) (t : Tables) {t' : Tables}
    → contains (instance_groups k t) group ≡ false
    → All (IsRuleOf group) rules
    → insert_security_group_rules now rules t ≡ ok t'
    → Keeps k t t'
inserted-Keeps now k group rules t other all h =
    let (instances, members) = insert_security_group_rules-keeps now rules t h in
    (instances, members, insert_security_group_rules-wanted now k group rules t other all h)

ensure_default_security_group-Keeps :
    (now : ℕ) (k : String) (g : SecurityGroup) (rules : List SecurityGroupRule) (t : Tables)
    {d : SecurityGroup × Tables}
    → contains (instance_groups k t) g.id ≡ false
    → ensure_default_security_group now g rules t ≡ ok d
    → Keeps k t d.1
unfolding ensure_default_security_group instance_groups rules_of_groups
ensure_default_security_group-Keeps now k g rules t {d} other h =
    elim (Bool-cases (any (group_conflicts g) t.groups)) [
      | inl e ↦
          let (old, found, same) =
            >>=-eq-ok (or_no_group (find (is_default_of g.account_id) t.groups)) _ (rw e at h) in
          subst (λ (x : SecurityGroup × Tables). Keeps k t x.1) (ok-injective same)
            (refl, refl, refl)
      | inr e ↦
          let (mid, inserted, same) =
            >>=-eq-ok
              (insert_security_group_rules now
                (map (λ (r : SecurityGroupRule). record r { group_id = g.id }) rules)
                (record t { groups = new_group now true g ∷ t.groups }))
              _ (rw e at h) in
          subst (λ (x : SecurityGroup × Tables). Keeps k t x.1) (ok-injective same)
            (inserted-Keeps now k g.id _ (record t { groups = new_group now true g ∷ t.groups })
              other (in_group_of-IsRuleOf g.id rules) inserted)
    ]

or_taken-ok :
    (r : Result (SecurityGroup × Tables)) {c : SecurityGroup × Tables}
    → or_taken r ≡ ok c
    → r ≡ ok c
or_taken-ok (ok t) h = h
or_taken-ok (err (refuse n s)) h = cc
or_taken-ok (err not_found) h = cc
or_taken-ok (err no_vmid) h = cc
or_taken-ok (err duplicate) h = cc
or_taken-ok (err malformed) h = cc
or_taken-ok (err (failed s)) h = cc

insert_security_group-Keeps :
    (now : ℕ) (k : String) (g : SecurityGroup) (t : Tables) {c : SecurityGroup × Tables}
    → insert_security_group now g t ≡ ok c
    → (c.0.id ≡ g.id) × Keeps k t c.1
unfolding insert_security_group instance_groups rules_of_groups
insert_security_group-Keeps now k g t {c} h = elim (Bool-cases (any (has_group_id g.id) t.groups)) [
  | inl e ↦ cc (rw e at h)
  | inr e ↦ elim (Bool-cases (any (same_name g) t.groups)) [
    | inl f ↦ cc (rw (e, f) at h)
    | inr f ↦
        subst (λ (x : SecurityGroup × Tables). (x.0.id ≡ g.id) × Keeps k t x.1)
          (ok-injective (rw (e, f) at h)) (refl, (refl, refl, refl))
  ]
]

grouped_same :
    (k group : String) (t t' : Tables)
    → t'.members ≡ t.members
    → contains (instance_groups k t) group ≡ false
    → contains (instance_groups k t') group ≡ false
unfolding instance_groups
grouped_same k group t t' same h = rw same h

pub create_security_group-Owes :
    (k : String) (now : ℕ) (fresh : Fresh) (account name description : String)
    (audit : SecurityGroup → Result (Unit {0})) (t : Tables) {g : SecurityGroup} {t' : Tables}
    → contains (instance_groups k t) fresh.group ≡ false
    → contains (instance_groups k t) fresh.default_group ≡ false
    → create_security_group now fresh account name description audit t ≡ ok (g, t')
    → Owes k t t'
unfolding create_security_group ensure_default
create_security_group-Owes k now fresh account name description audit t new default h =
    let (u, named, h1) = >>=-eq-ok (name_checked name description) _ h in
    let (d, ensured, h2) = >>=-eq-ok (ensure_default now fresh account t) _ h1 in
    let (v, few, h3) =
      >>=-eq-ok
        (unless (leb 20 (count_security_groups account d.1))
          (refuse 409 "SecurityGroupLimitExceeded"))
        _ h2 in
    let (c, taken, h4) =
      >>=-eq-ok
        (or_taken (insert_security_group now (group_of fresh.group account name description) d.1)) _
        h3 in
    let (mid, inserted, h5) =
      >>=-eq-ok
        (insert_security_group_rules now (in_group_of c.0.id (all_traffic fresh.rule 4 "egress"))
          c.1)
        _ h4 in
    let (w, noted, same) = >>=-eq-ok (audit c.0) _ h5 in
    let (i1, m1, w1) = ensure_default_security_group-Keeps now k _ _ t default ensured in
    let (id, (i2, m2, w2)) =
      insert_security_group-Keeps now k (group_of fresh.group account name description) d.1
        (or_taken-ok _ taken) in
    let other : contains (instance_groups k c.1) c.0.id ≡ false =
      rw id (grouped_same k fresh.group d.1 c.1 m2 (grouped_same k fresh.group t d.1 m1 new)) in
    let (i3, m3, w3) =
      inserted-Keeps now k c.0.id _ c.1 other
        (in_group_of-IsRuleOf c.0.id (all_traffic fresh.rule 4 "egress")) inserted in
    subst (λ (x : SecurityGroup × Tables). Owes k t x.1) (ok-injective same)
      (still-Owes k t mid (i3 ∙ i2 ∙ i1) (w3 ∙ w2 ∙ w1))
