-- ===== src/Firewall/Replace.antt =====
-- Service.replaceRules of api/internal/compute/firewall.go.
use shake_cloud.Prelude.{
  ℕ, ◌+◌, ◌≡◌, refl, Bool, true, false, ◌&&◌, Option, none, some, List, [], ◌∷◌, map, reverse,
  length, arith, if◌then◌else◌,
}
use shake_cloud.Result.{Err}
use shake_cloud.Firewall.Rule.{FirewallRule, rule_eq, rule_eq_sound}
use shake_cloud.Firewall.Node.{Node, bare}

unfoldable pub same_rules : List FirewallRule → List FirewallRule → Bool
same_rules [] [] = true
same_rules (have ∷ current) (want ∷ desired) =
    rule_eq (bare have) want && same_rules current desired
same_rules _ _ = false

pub same_rules_sound :
    (current desired : List FirewallRule)
    → same_rules current desired ≡ true
    → map bare current ≡ desired
unfolding same_rules
same_rules_sound [] [] h = refl
same_rules_sound (x ∷ current) (y ∷ desired) h =
    ground (arith, rule_eq_sound (bare x) y, same_rules_sound current desired)
same_rules_sound [] (y ∷ desired) h = cc
same_rules_sound (x ∷ current) [] h = cc

module _ (node : Node) where
  open node use {
    State, rules, insert_rule, delete_rule, numbered, insert_top, insert_fails, delete_at,
    delete_fails,
  }

  -- The first loop, over the desired rules from the last to the first.
  unfoldable pub insert_all : List FirewallRule → State → Option Err × State
  insert_all [] s = (none, s)
  insert_all (r ∷ rest) s =
      let (e, s') = insert_rule r s in
      let later = insert_all rest s' in elim e [ none ↦ later | some failure ↦ (some failure, s') ]

  -- The second loop, over the old rules from the last to the first, below the `offset` new ones.
  unfoldable pub delete_all : ℕ → List FirewallRule → State → Option Err × State
  delete_all offset [] s = (none, s)
  delete_all offset (r ∷ rest) s =
      let (e, s') = delete_rule (offset + r.pos) s in
      let later = delete_all offset rest s' in
      elim e [ none ↦ later | some failure ↦ (some failure, s') ]

  unfoldable pub replace_rules : List FirewallRule → List FirewallRule → State → Option Err × State
  unfolding same_rules insert_all delete_all
  replace_rules current desired s =
      if same_rules current desired
      then (none, s)
      else let (e, s') = insert_all (reverse desired) s in
        let later = delete_all (length desired) (reverse current) s' in
        elim e [ none ↦ later | some failure ↦ (some failure, s') ]
