-- ===== src/Groups/Owed.antt =====
-- What each change of groups owes to the firewall of an instance
-- (api/internal/compute/securitygroups.go).
use shake_cloud.Prelude.{
  any, update_where, contains, ℕ, ◌+◌, String, ◌≡◌, refl, sym, subst, Bool, true, false, ◌&&◌,
  str_eq, eq_iff,
}
use shake_cloud.Db.Instance.{Instance, is_live, has_id}
use shake_cloud.Db.Groups.{
  Tables, rules_of_groups, instance_groups, bumped, is_member, bump_firewall_of_group,
}
use shake_cloud.Groups.Wanted.{wanted, not_grouped}

-- The rows that a change touches are a generation further, with what is applied as it was, and an
-- instance `k` that is live and not touched should have the rules that it had.
pub record Owes (k : String) (t t' : Tables) : Type 0 where
  pub hit : Instance → Bool
  pub change : Instance → Instance
  pub rows : t'.instances ≡ update_where hit change t.instances
  pub key : (i : Instance) → (change i).id ≡ i.id
  pub state_same : (i : Instance) → (change i).state ≡ i.state
  pub further : (i : Instance) → (change i).firewall_generation ≡ i.firewall_generation + 1
  pub as_applied : (i : Instance) → (change i).firewall_applied ≡ i.firewall_applied
  pub others :
      (i : Instance)
      → has_id k i ≡ true
      → is_live i ≡ true
      → hit i ≡ false
      → wanted k t' ≡ wanted k t

-- An instance that is no member of the group does not have it among its groups.
no_member :
    (k group : String) (t : Tables) (i : Instance)
    → has_id k i ≡ true
    → is_live i ≡ true
    → (is_live i && is_member t.members group i) ≡ false
    → contains (instance_groups k t) group ≡ false
unfolding instance_groups
no_member k group t i same live h =
    let e : i.id ≡ k = (eq_iff i.id k).0 same in
    not_grouped k group t.members (
      subst (λ l. any (λ m. str_eq m.instance_id l && str_eq m.group_id group) t.members ≡ false) e
        (rw live at h))

-- A change of the rules of one group, followed by the bump of its members.
pub bump-Owes :
    (now : ℕ) (k group : String) (t mid : Tables)
    → mid.instances ≡ t.instances
    → mid.members ≡ t.members
    → (contains (instance_groups k t) group ≡ false → wanted k mid ≡ wanted k t)
    → Owes k t (bump_firewall_of_group now group mid)
unfolding bump_firewall_of_group instance_groups rules_of_groups
bump-Owes now k group t mid instances members same = record {
  hit = λ i. is_live i && is_member t.members group i;
  change = bumped now;
  rows = rw (sym instances, sym members) refl;
  key = λ i. refl;
  state_same = λ i. refl;
  further = λ i. refl;
  as_applied = λ i. refl;
  others = λ i has live missed. same (no_member k group t i has live missed);
}
