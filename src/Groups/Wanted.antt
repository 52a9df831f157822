-- ===== src/Groups/Wanted.antt =====
-- The rules that one instance should have, and which changes of groups leave them as they are
-- (api/internal/compute/securitygroups.go and api/internal/db/securitygroups.go).
-- The rules of the groups of the instance: what applyFirewall reads.
use shake_cloud.Prelude.{
  Bool-cases, any, select, All, contains, ℕ, String, ◌≡◌, refl, sym, ap, ◌∙◌, subst, inl, inr, Bool,
  false, ◌&&◌, List, [], ◌∷◌, map, arith, str_eq,
}
use shake_cloud.Result.{ok, >>=-eq-ok, ok-injective}
use shake_cloud.Firewall.Rule.{SecurityGroupRule}
use shake_cloud.Db.Groups.{
  Member, Tables, insert_rules_from, insert_security_group_rules, sort_rules, rules_of_groups,
  instance_groups,
}

abbrev pub wanted : String → Tables → List SecurityGroupRule
wanted k t = rules_of_groups (instance_groups k t) t

-- The rule is one of the group.
abbrev pub IsRuleOf : String → SecurityGroupRule → Type 0
IsRuleOf group r = r.group_id ≡ group

pub select-select :
    {A : Type 0} (p q : A → Bool) (xs : List A)
    → ((x : A) → q x ≡ false → p x ≡ false)
    → select p (select q xs) ≡ select p xs
select-select p q [] h = refl
select-select p q (x ∷ xs) h = elim (Bool-cases (q x)) [
  | inl e ↦ rw (e, select-select p q xs h) refl
  | inr e ↦ rw (e, h x e, select-select p q xs h) refl
]

contains_same :
    (ids : List String) (a b : String) → a ≡ b → contains ids b ≡ false → contains ids a ≡ false
contains_same ids a b e h = rw e h

-- The group is none of the instance's, if no membership joins the two.
pub not_grouped :
    (k group : String) (members : List Member)
    → any (λ m. str_eq m.instance_id k && str_eq m.group_id group) members ≡ false
    → contains (map (λ m. m.group_id) (select (λ m. str_eq m.instance_id k) members)) group ≡ false
not_grouped k group [] h = refl
not_grouped k group (m ∷ members) h = elim (Bool-cases (str_eq m.instance_id k)) [
  | inl e ↦ let ih = not_grouped k group members (ground arith) in rw e (ground (arith, ih))
  | inr e ↦ rw e (not_grouped k group members (rw e at h))
]

insert_rules_from-select :
    (now : ℕ) (ids : List String) (group : String) (new rules : List SecurityGroupRule)
    {out : List SecurityGroupRule}
    → contains ids group ≡ false
    → All (IsRuleOf group) new
    → insert_rules_from now new rules ≡ ok out
    → select (λ r. contains ids r.group_id) out ≡ select (λ r. contains ids r.group_id) rules
unfolding insert_rules_from
insert_rules_from-select now ids group [] rules other all h =
    ap (select (λ (r : SecurityGroupRule). contains ids r.group_id)) (sym (ok-injective h))
insert_rules_from-select now ids group (r ∷ new) rules other all h =
    let (u, first, rest) =
      >>=-eq-ok _ (λ _. insert_rules_from now new (record r { created_at = now } ∷ rules)) h in
    let ih = insert_rules_from-select now ids group new _ other all.1 rest in
    ih ∙ rw (contains_same ids r.group_id group all.0 other) refl

-- Rules of a group that the instance does not have are none of the wanted ones.
pub insert_security_group_rules-wanted :
    (now : ℕ) (k group : String) (new : List SecurityGroupRule) (t : Tables) {t' : Tables}
    → contains (instance_groups k t) group ≡ false
    → All (IsRuleOf group) new
    → insert_security_group_rules now new t ≡ ok t'
    → wanted k t' ≡ wanted k t
unfolding insert_security_group_rules instance_groups rules_of_groups
insert_security_group_rules-wanted now k group new t {t'} other all h =
    let (out, inserted, same) = >>=-eq-ok (insert_rules_from now new t.rules) _ h in
    subst (λ u. wanted k u ≡ wanted k t) (ok-injective same)
      (ap sort_rules
        (insert_rules_from-select now (instance_groups k t) group new t.rules other all inserted))

-- An insertion changes neither the instances nor the memberships.
pub insert_security_group_rules-keeps :
    (now : ℕ) (new : List SecurityGroupRule) (t : Tables) {t' : Tables}
    → insert_security_group_rules now new t ≡ ok t'
    → (t'.instances ≡ t.instances) × (t'.members ≡ t.members)
unfolding insert_security_group_rules
insert_security_group_rules-keeps now new t h =
    let (out, inserted, same) = >>=-eq-ok (insert_rules_from now new t.rules) _ h in
    (
      ap (λ (u : Tables). u.instances) (sym (ok-injective same)),
      ap (λ (u : Tables). u.members) (sym (ok-injective same)),
    )

-- Dropping rules of a group that the instance does not have changes none of the wanted ones.
pub drop_rules-wanted :
    (k group : String) (keep : SecurityGroupRule → Bool) (t t' : Tables)
    → ((r : SecurityGroupRule) → keep r ≡ false → r.group_id ≡ group)
    → contains (instance_groups k t) group ≡ false
    → t'.rules ≡ select keep t.rules
    → instance_groups k t' ≡ instance_groups k t
    → wanted k t' ≡ wanted k t
unfolding rules_of_groups
drop_rules-wanted k group keep t t' mine other dropped same =
    rw (same, dropped)
      (ap sort_rules (
        select-select (λ r. contains (instance_groups k t) r.group_id) keep t.rules
          (λ r gone. contains_same (instance_groups k t) r.group_id group (mine r gone) other)))
