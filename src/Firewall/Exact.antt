-- ===== src/Firewall/Exact.antt =====
-- Replacing a VM's rules leaves exactly the desired ones, and never a gap in between
-- (Service.replaceRules of api/internal/compute/firewall.go).
use shake_cloud.Prelude.{
  ◌≡◌, ◌⊎◌, inl, inr, sym, ap, ◌∙◌, subst, none, List, [], ◌++◌, map, reverse, append-nil,
  Bool-cases, Option-cases,
}
use shake_cloud.Firewall.Rule.{FirewallRule}
use shake_cloud.Firewall.Node.{Node, bare, Numbered}
use shake_cloud.Firewall.Replace.{same_rules, same_rules_sound, insert_all, replace_rules}
use shake_cloud.Firewall.Loops.{
  reverse-reverse, CountsDown-reverse, insert_all-rules, delete_all-rules, replace_rules-same,
  replace_rules-stops, replace_rules-deletes,
}

-- All of the old rules below some of the new ones, or some of the old ones below all of the new.
abbrev pub NoGap : List FirewallRule → List FirewallRule → List FirewallRule → Type 0
NoGap current desired rules =
    ((front back : List FirewallRule) × (desired ≡ front ++ back) × (rules ≡ back ++ current))
    ⊎ ((front back : List FirewallRule) × (current ≡ front ++ back) × (rules ≡ desired ++ front))

module _ (node : Node) where
  open node use {State, rules, numbered}

  -- What a replacement leaves, and that it is the desired rules if no call failed.
  abbrev Replaced : List FirewallRule → List FirewallRule → State → Type 0
  Replaced current desired s =
      NoGap (map bare current) desired (map bare (rules (replace_rules node current desired s).1))
      × ((replace_rules node current desired s).0 ≡ none
          → map bare (rules (replace_rules node current desired s).1) ≡ desired)

  replaced :
      (current desired : List FirewallRule) (s : State)
      → rules s ≡ current
      → map bare desired ≡ desired
      → Replaced current desired s
  replaced current desired s listed sent = elim (Bool-cases (same_rules current desired)) [
    | inl same ↦
        let keep = replace_rules-same node current desired s same in
        let equal = ap (map bare) listed ∙ same_rules_sound current desired same in
        (
          inl (desired, [], sym (append-nil desired), rw keep (ap (map bare) listed)),
          λ h. rw keep equal,
        )
    | inr differ ↦ elim (Option-cases (insert_all node (reverse desired) s).0) [
      | inr (e, p) ↦
          let stop = replace_rules-stops node current desired s differ p in
          let (front, back, split, after, whole) = insert_all-rules node (reverse desired) s in
          let parts = sym sent ∙ ap (map bare) (sym (reverse-reverse desired)) ∙ split in
          (
            inl (front, back, parts, rw stop (after ∙ ap (λ t. back ++ map bare t) listed)),
            λ h. cc (rw stop at h),
          )
      | inl p ↦
          let step = replace_rules-deletes node current desired s differ p in
          let (front, back, split, after, whole) = insert_all-rules node (reverse desired) s in
          let parts = sym sent ∙ ap (map bare) (sym (reverse-reverse desired)) ∙ split in
          let all_new : back ≡ desired = sym (parts ∙ ap (λ t. t ++ back) (whole p)) in
          let down = CountsDown-reverse current (subst (Numbered 0) listed (numbered s)) in
          let start =
            after
            ∙ ap (λ t. t ++ map bare (rules s)) all_new
            ∙ ap (λ t. desired ++ map bare t) (listed ∙ sym (reverse-reverse current)) in
          let (front', back', split', after', whole') =
            delete_all-rules node desired (reverse current) (insert_all node (reverse desired) s).1
              down start in
          let parts' = ap (map bare) (sym (reverse-reverse current)) ∙ split' in
          (
            inr (front', back', parts', rw step after'),
            λ h.
                rw step
                  (after' ∙ ap (λ t. desired ++ t) (whole' (rw step at h)) ∙ append-nil desired),
          )
    ]
  ]

  -- Given the rules that the VM has, and desired rules without positions, a replacement in which
  -- no call fails leaves the VM with exactly the desired rules, in their order.
  pub replace_exact :
      (current desired : List FirewallRule) (s : State)
      → rules s ≡ current
      → map bare desired ≡ desired
      → (replace_rules node current desired s).0 ≡ none
      → map bare (rules (replace_rules node current desired s).1) ≡ desired
  replace_exact current desired s listed sent = (replaced current desired s listed sent).1

  -- Given the rules that the VM has, and desired rules without positions, wherever a call fails,
  -- with its effect (as one that is not answered in time may) or without it, the VM is left with all of its old rules below some of the new ones, or with all of the new
  -- ones above some of the old: there is never a gap in which neither set is whole.
  pub replace-NoGap :
      (current desired : List FirewallRule) (s : State)
      → rules s ≡ current
      → map bare desired ≡ desired
      → NoGap (map bare current) desired (map bare (rules (replace_rules node current desired s).1))
  replace-NoGap current desired s listed sent = (replaced current desired s listed sent).0
