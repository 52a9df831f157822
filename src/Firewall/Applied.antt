-- ===== src/Firewall/Applied.antt =====
-- A firewall that is applied has exactly the rules of its groups (applyFirewall of
-- api/internal/compute/firewall.go).
-- The list of rules is the VM's, and the calls that do not write rules keep them.
use shake_cloud.Prelude.{
  if◌then◌else◌, Bool-cases, select, contains, String, ◌≡◌, refl, ap, ◌∙◌, subst, inl, inr, Bool,
  true, false, not, Option, none, some, List, [], ◌∷◌, map, str_eq,
}
use shake_cloud.Disks.Cloud.{
  Fault, fails_with, Outcome, done, Eff, then_do, give, refuse_if, Config,
}
use shake_cloud.Disks.Steps.{done-injective, then_do-done, then_do-keeps}
use shake_cloud.Result.{Err}
use shake_cloud.Db.Instance.{Instance, is_none}
use shake_cloud.Db.Groups.{Tables, sort_rules, rules_of_groups, instance_groups}
use shake_cloud.Firewall.Rule.{SecurityGroupRule, FirewallRule}
use shake_cloud.Firewall.Node.{bare, Node}
use shake_cloud.Firewall.Replace.{replace_rules}
use shake_cloud.Firewall.Render.{render_from, render_firewall}
use shake_cloud.Firewall.Filter.{
  Filter, ipfilter_set, filtered_options, filtered_nic, trim_32, without_first, address_of,
  wanted_entries, as_step, rendered, replacing, changed_nic, filter_nic, keep_or_delete, sort_out,
  add_each, pin_address, apply_groups, apply_none, apply_listed, apply_firewall,
}
use shake_cloud.Firewall.Exact.{replace_exact}
use shake_cloud.Firewall.Traffic.{render_firewall-bare}
use shake_cloud.Groups.Wanted.{wanted}

pub record IsKeeping (node : Node) (filter : Filter node) : Type 0 where
  pub listed_rules :
      (s : node.State) (l : List FirewallRule) → filter.listed s ≡ done l → node.rules s ≡ l
  pub options_keep :
      (o : Config) (s : node.State) → node.rules (filter.set_options o s).1 ≡ node.rules s
  pub create_keep :
      (name : String) (s : node.State) → node.rules (filter.create_set name s).1 ≡ node.rules s
  pub add_keep :
      (name entry : String) (s : node.State)
      → node.rules (filter.add_entry name entry s).1 ≡ node.rules s
  pub delete_keep :
      (name entry : String) (s : node.State)
      → node.rules (filter.delete_entry name entry s).1 ≡ node.rules s
  pub nic_keep :
      (text : String) (s : node.State) → node.rules (filter.update_net0 text s).1 ≡ node.rules s

select_nothing : (rules : List SecurityGroupRule) → select (λ r. contains [] r.group_id) rules ≡ []
select_nothing [] = refl
select_nothing (r ∷ rules) = select_nothing rules

as_step-done :
    {S : Type 0} (r : Option Err × S) (s' : S)
    → as_step r ≡ (done tt, s')
    → (r.0 ≡ none) × (r.1 ≡ s')
as_step-done {S} (none, s) s' h = (refl, ap (λ (x : Outcome (Unit {0}) × S). x.1) h)
as_step-done {S} (some e, s) s' h = let k = ap (λ (x : Outcome (Unit {0}) × S). x.0) h in cc

rendered-some :
    (o : Option (List FirewallRule)) {out : List FirewallRule}
    → rendered o ≡ done out
    → o ≡ some out
rendered-some none h = cc
rendered-some (some x) h = ap some (done-injective h)

module _ (node : Node) (filter : Filter node) (keeping : IsKeeping node filter) where
  open node use {State, rules}
  open filter use {
    set_options, listed, create_set, entries, add_entry, delete_entry, update_net0, net0, ip_sets,
    owns,
  }
  open keeping use {listed_rules, options_keep, create_keep, add_keep, delete_keep, nic_keep}

  -- The rules are these.
  abbrev Has : List FirewallRule → State → Type 0
  Has current s = rules s ≡ current

  kept-Has :
      (current : List FirewallRule) (entry : String) (lacking : List String)
      (next : List String → Eff State (List String)) (o : Option (List String)) (s : State)
      → ((others : List String) (s' : State) → Has current s' → Has current (next others s').1)
      → Has current s
      → Has current (keep_or_delete node filter entry lacking next o s).1
  kept-Has current entry lacking next (some others) s k h = k others s h
  kept-Has current entry lacking next none s k h =
      then_do-keeps (Has current) (delete_entry ipfilter_set entry s) (λ _. next lacking)
        (delete_keep ipfilter_set entry s ∙ h) (λ u s' h'. k lacking s' h')

  sort_out-Has :
      (current : List FirewallRule) (lacking rest : List String) (s : State)
      → Has current s
      → Has current (sort_out node filter lacking rest s).1
  unfolding sort_out
  sort_out-Has current lacking [] s h = h
  sort_out-Has current lacking (entry ∷ rest) s h =
      kept-Has current entry lacking (λ others. sort_out node filter others rest)
        (without_first (trim_32 entry) lacking) s
        (λ others s' h'. sort_out-Has current others rest s' h') h

  add_each-Has :
      (current : List FirewallRule) (rest : List String) (s : State)
      → Has current s
      → Has current (add_each node filter rest s).1
  unfolding add_each
  add_each-Has current [] s h = h
  add_each-Has current (entry ∷ rest) s h =
      then_do-keeps (Has current) (add_entry ipfilter_set entry s) (λ _. add_each node filter rest)
        (add_keep ipfilter_set entry s ∙ h) (λ u s' h'. add_each-Has current rest s' h')

  made_set-Has :
      (current : List FirewallRule) (b : Bool) (s : State)
      → Has current s
      → Has current ((if b then give tt else create_set ipfilter_set) s).1
  made_set-Has current true s h = h
  made_set-Has current false s h = create_keep ipfilter_set s ∙ h

  refused-Has :
      (current : List FirewallRule) (b : Bool) (e : Fault) (s : State)
      → Has current s
      → Has current (refuse_if b e s).1
  refused-Has current true e s h = h
  refused-Has current false e s h = h

  pin_address-Has :
      (current : List FirewallRule) (prefix routed : String) (s : State)
      → Has current s
      → Has current (pin_address node filter prefix routed s).1
  unfolding pin_address
  pin_address-Has current prefix routed s h =
      then_do-keeps (Has current)
        (refuse_if (str_eq (address_of prefix) "") (fails_with "the instance has no address yet") s)
        _ (refused-Has current _ _ s h)
        (λ u s1 h1.
          then_do-keeps (Has current) (ip_sets s1, s1) _ h1
            (λ sets s2 h2.
              then_do-keeps (Has current)
                ((if contains sets ipfilter_set then give tt else create_set ipfilter_set) s2) _
                (made_set-Has current (contains sets ipfilter_set) s2 h2)
                (λ u s3 h3.
                  then_do-keeps (Has current) (entries ipfilter_set s3, s3) _ h3
                    (λ present s4 h4.
                      then_do-keeps (Has current)
                        (sort_out node filter (wanted_entries (address_of prefix) routed) present
                          s4)
                        (add_each node filter) (sort_out-Has current _ present s4 h4)
                        (λ lacking s5 h5. add_each-Has current lacking s5 h5)))))

  changed-Has :
      (current : List FirewallRule) (o : Option String) (s : State)
      → Has current s
      → Has current (changed_nic node filter o s).1
  unfolding changed_nic
  changed-Has current none s h = h
  changed-Has current (some text) s h = nic_keep text s ∙ h

  filter_nic-Has :
      (current : List FirewallRule) (s : State)
      → Has current s
      → Has current (filter_nic node filter s).1
  unfolding filter_nic
  filter_nic-Has current s h =
      then_do-keeps (Has current) (net0 s, s) _ h
        (λ text s1 h1. elim (Bool-cases (str_eq text "")) [
          | inl e ↦ rw e h1
          | inr e ↦ rw e (changed-Has current (filtered_nic text) s1 h1)
        ])

  replaced-exact :
      (current desired : List FirewallRule) (s s' : State)
      → rules s ≡ current
      → map bare desired ≡ desired
      → replacing node filter current desired s ≡ (done tt, s')
      → map bare (rules s') ≡ desired
  replaced-exact current desired s s' known plain h =
      let (no_error, same) = as_step-done (replace_rules node current desired s) s' h in
      subst (λ x. map bare (rules x) ≡ desired) same
        (replace_exact node current desired s known plain no_error)

  -- The address, the options and the NIC.
  rest-Has :
      (current : List FirewallRule) (prefix routed : String) (s : State)
      → Has current s
      → Has current
          (then_do
            (pin_address node filter prefix routed s)
            (λ _ s1. then_do (set_options filtered_options s1) (λ _. filter_nic node filter))).1
  rest-Has current prefix routed s h =
      then_do-keeps (Has current) (pin_address node filter prefix routed s)
        (λ _ s1. then_do (set_options filtered_options s1) (λ _. filter_nic node filter))
        (pin_address-Has current prefix routed s h)
        (λ u s1 h1.
          then_do-keeps (Has current) (set_options filtered_options s1)
            (λ _. filter_nic node filter) (options_keep filtered_options s1 ∙ h1)
            (λ v s2 h2. filter_nic-Has current s2 h2))

  finished_by : {a b : State} {current : List FirewallRule} → a ≡ b → Has current a → Has current b
  finished_by {current} e h = subst (Has current) e h

  -- What applying the groups' rules leaves.
  apply_groups-rules :
      (current : List FirewallRule) (prefix routed : String) (group_rules : List SecurityGroupRule)
      (s s' : State)
      → rules s ≡ current
      → apply_groups node filter current prefix routed group_rules s ≡ (done tt, s')
      → (out : List FirewallRule) × (render_firewall group_rules ≡ some out)
        × (map bare (rules s') ≡ out)
  unfolding apply_groups
  apply_groups-rules current prefix routed group_rules s s' known h =
      let (out, rendered_ok, h1) = then_do-done (rendered (render_firewall group_rules)) s _ h in
      let found = rendered-some (render_firewall group_rules) rendered_ok in
      let step = replacing node filter current out s in
      let (u, replaced, h2) = then_do-done step.0 step.1 _ h1 in
      let exact =
        replaced-exact current out s step.1 known (render_firewall-bare group_rules found)
          (λ i. (replaced i, step.1)) in
      let after : Has (rules step.1) s' =
        finished_by (ap (λ (x : Outcome (Unit {0}) × State). x.1) h2)
          (rest-Has (rules step.1) prefix routed step.1 refl) in
      (out, found, ap (map bare) after ∙ exact)

  apply_none-rules :
      (current : List FirewallRule) (s s' : State)
      → rules s ≡ current
      → apply_none node filter current s ≡ (done tt, s')
      → map bare (rules s') ≡ []
  unfolding apply_none
  apply_none-rules current s s' known h =
      let off = set_options (("enable", "0") ∷ []) s in
      let (u, turned, h1) = then_do-done off.0 off.1 (λ _. replacing node filter current []) h in
      replaced-exact current [] off.1 s' (options_keep (("enable", "0") ∷ []) s ∙ known) refl h1

  apply_listed-rules :
      (current : List FirewallRule) (routed : String) (i : Instance) (t : Tables)
      (ids : List String) (s s' : State)
      → rules s ≡ current
      → apply_listed node filter current routed i t ids s ≡ (done tt, s')
      → (out : List FirewallRule) × (render_firewall (rules_of_groups ids t) ≡ some out)
        × (map bare (rules s') ≡ out)
  unfolding apply_listed rules_of_groups render_firewall sort_rules render_from
  apply_listed-rules current routed i t [] s s' known h =
      ([], rw (select_nothing t.rules) refl, apply_none-rules current s s' known h)
  apply_listed-rules current routed i t (g ∷ ids) s s' known h =
      apply_groups-rules current i.ip_address routed (rules_of_groups (g ∷ ids) t) s s' known h

  -- If no call fails, applying the firewall of an instance leaves its VM with exactly the rules that
  -- the groups of the instance render to: none where it has no group. The calls for options, address
  -- sets and the NIC keep the rules, and the list that the hypervisor gives is the VM's.
  pub apply_firewall-exact :
      (routed : String) (i : Instance) (t : Tables) (s s' : State)
      → apply_firewall node filter routed i t s ≡ (done tt, s')
      → (out : List FirewallRule) × (render_firewall (wanted i.id t) ≡ some out)
        × (map bare (rules s') ≡ out)
  unfolding apply_firewall
  apply_firewall-exact routed i t s s' h =
      let r = refuse_if (is_none i.vmid) (fails_with "the instance has no VM") s in
      let (u, has_vm, h1) = then_do-done r.0 r.1 _ h in
      let (owned, mine, h2) = then_do-done (owns r.1) r.1 _ h1 in
      let r' = refuse_if (not owned) (fails_with "the VM does not belong to the instance") r.1 in
      let (v, is_mine, h3) = then_do-done r'.0 r'.1 _ h2 in
      let (current, got, h4) = then_do-done (listed r'.1) r'.1 _ h3 in
      apply_listed-rules current routed i t (instance_groups i.id t) r'.1 s'
        (listed_rules r'.1 current got) h4
