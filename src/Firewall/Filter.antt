-- ===== src/Firewall/Filter.antt =====
-- Bringing a VM's firewall up to its groups (applyFirewall, filterNIC, pinAddress, setFilteredOptions
-- and writeFirewall of api/internal/compute/firewall.go). The hypervisor's calls are an interface; a
-- call that fails may have changed the state.
use Prim.Native.String.{len, slice, find as find_in, ◌++◌ as ◌^^◌}
use text.Mathlib.Text.{starts_with}
use shake_cloud.Prelude.{
  leb, if◌then◌else◌, contains, ℕ, zero, suc, ◌+◌, ◌-◌, String, Bool, true, false, ◌&&◌, not,
  Option, none, some, List, [], ◌∷◌, ◌++◌, str_eq,
}
use shake_cloud.Disks.Cloud.{
  fails_with, Outcome, fault, done, Eff, ◌>>=◌, ◌>>◌, give, refuse_if, Config,
}
use shake_cloud.Result.{Err}
use shake_cloud.Db.Instance.{Instance, is_none}
use shake_cloud.Db.Instances.{Rows}
use shake_cloud.Db.Groups.{Tables, rules_of_groups, instance_groups}
use shake_cloud.Db.FirewallWork.{record_firewall_applied, firewall_retry_later}
use shake_cloud.Firewall.Rule.{SecurityGroupRule, FirewallRule}
use shake_cloud.Firewall.Node.{Node}
use shake_cloud.Firewall.Replace.{replace_rules}
use shake_cloud.Firewall.Render.{render_firewall}

pub record Filter (node : Node) : Type 0 where
  pub owns : node.State → Outcome Bool
  pub listed : node.State → Outcome (List FirewallRule)
  pub set_options : Config → Eff node.State (Unit {0})
  pub ip_sets : node.State → Outcome (List String)
  pub create_set : String → Eff node.State (Unit {0})
  pub entries : String → node.State → Outcome (List String)
  pub add_entry : String → String → Eff node.State (Unit {0})
  pub delete_entry : String → String → Eff node.State (Unit {0})
  -- The text of net0 in VMConfig, and UpdateVMConfig of it.
  pub net0 : node.State → Outcome String
  pub update_net0 : String → Eff node.State (Unit {0})

abbrev pub ipfilter_set : String
ipfilter_set = "ipfilter-net0"

abbrev pub filtered_options : Config
filtered_options =
    ("enable", "1")
    ∷ ("policy_in", "DROP")
    ∷ ("policy_out", "DROP")
    ∷ ("macfilter", "1")
    ∷ ("ipfilter", "1")
    ∷ ("dhcp", "0")
    ∷ ("ndp", "1")
    ∷ ("radv", "0")
    ∷ []

-- strings.Split(s, ","), where `fuel` is more than the commas.
unfoldable pub split_commas : ℕ → String → List String
split_commas zero s = s ∷ []
split_commas (suc fuel) s =
    let rest = split_commas fuel (slice s (find_in s "," + 1) (len s)) in
    if leb (find_in s ",") (len s) then slice s 0 (find_in s ",") ∷ rest else s ∷ []

-- strings.Join(parts, ",")
unfoldable pub join_commas : List String → String
join_commas [] = ""
join_commas (part ∷ []) = part
join_commas (part ∷ next ∷ parts) = part ^^ "," ^^ join_commas (next ∷ parts)

-- The loop over the parts of net0: `none` where the NIC is filtered already, or else the parts with
-- each firewall option set, and whether there was one.
unfoldable pub set_firewall : List String → Option (List String × Bool)
set_firewall [] = some ([], false)
set_firewall (part ∷ parts) =
    let rest = set_firewall parts in
    if str_eq part "firewall=1" then none else elim rest [
      | none ↦ none
      | some (others, found) ↦
          if starts_with part "firewall="
          then some ("firewall=1" ∷ others, true)
          else some (part ∷ others, found)
    ]

-- The new text of net0, if it has to change.
unfoldable pub filtered_nic : String → Option String
unfolding set_firewall split_commas join_commas
filtered_nic net0 = elim (set_firewall (split_commas (len net0) net0)) [
  | none ↦ none
  | some (parts, found) ↦ some (join_commas (if found then parts else parts ++ "firewall=1" ∷ []))
]

-- strings.TrimSuffix(entry, "/32")
abbrev pub trim_32 : String → String
trim_32 entry =
    if leb 3 (len entry) && str_eq (slice entry (len entry - 3) (len entry)) "/32"
    then slice entry 0 (len entry - 3)
    else entry

-- slices.Index and slices.Delete: `none` where the text is not in the list.
unfoldable pub without_first : String → List String → Option (List String)
without_first a [] = none
without_first a (x ∷ xs) =
    let rest = without_first a xs in
    if str_eq x a then some xs else elim rest [ none ↦ none | some others ↦ some (x ∷ others) ]

-- strings.SplitN(prefix, "/", 2)[0]
abbrev pub address_of : String → String
address_of prefix = slice prefix 0 (find_in prefix "/")

-- What the set shall hold.
abbrev pub wanted_entries : String → String → List String
wanted_entries address routed =
    address ∷ "2000::/3" ∷ (if str_eq routed "" then [] else routed ∷ [])

-- A replacement as a step.
abbrev pub as_step : {S : Type 0} → Option Err × S → Outcome (Unit {0}) × S
as_step (none, s) = (done tt, s)
as_step (some e, s) = (fault (fails_with "replacing the rules failed"), s)

abbrev pub rendered : Option (List FirewallRule) → Outcome (List FirewallRule)
rendered none = fault (fails_with "panic")
rendered (some out) = done out

module _ (node : Node) (filter : Filter node) where
  open node use {State}
  open filter use {
    owns, listed, set_options, ip_sets, create_set, entries, add_entry, delete_entry, net0,
    update_net0,
  }

  abbrev ask : {A : Type 0} → (State → Outcome A) → Eff State A
  ask call s = (call s, s)

  abbrev pub replacing : List FirewallRule → List FirewallRule → Eff State (Unit {0})
  replacing current desired s = as_step (replace_rules node current desired s)

  unfoldable pub changed_nic : Option String → Eff State (Unit {0})
  changed_nic none = give tt
  changed_nic (some text) = update_net0 text

  unfoldable pub filter_nic : Eff State (Unit {0})
  unfolding changed_nic
  filter_nic = do
    text ← ask net0
    if str_eq text "" then give tt else changed_nic (filtered_nic text)

  -- The loop over the entries that the set has, with those that are still missing: the ones that are
  -- missing after it.
  abbrev pub keep_or_delete :
      String
      → List String
      → (List String → Eff State (List String))
      → Option (List String)
      → Eff State (List String)
  keep_or_delete entry lacking next none = delete_entry ipfilter_set entry >> next lacking
  keep_or_delete entry lacking next (some others) = next others

  unfoldable pub sort_out : List String → List String → Eff State (List String)
  sort_out lacking [] = give lacking
  sort_out lacking (entry ∷ rest) =
      keep_or_delete entry lacking (λ others. sort_out others rest)
        (without_first (trim_32 entry) lacking)

  unfoldable pub add_each : List String → Eff State (Unit {0})
  add_each [] = give tt
  add_each (entry ∷ rest) = add_entry ipfilter_set entry >> add_each rest

  unfoldable pub pin_address : String → String → Eff State (Unit {0})
  unfolding sort_out add_each
  pin_address prefix routed = do
    refuse_if (str_eq (address_of prefix) "") (fails_with "the instance has no address yet")
    sets ← ask ip_sets
    (if contains sets ipfilter_set then give tt else create_set ipfilter_set)
    present ← ask (entries ipfilter_set)
    lacking ← sort_out (wanted_entries (address_of prefix) routed) present
    add_each lacking

  abbrev pub set_filtered_options : Eff State (Unit {0})
  set_filtered_options = set_options filtered_options

  -- With groups: rules and the address first, so that the firewall is never on with no rules.
  unfoldable pub apply_groups :
      List FirewallRule → String → String → List SecurityGroupRule → Eff State (Unit {0})
  unfolding pin_address filter_nic
  apply_groups current prefix routed rules = do
    desired ← ask (λ _. rendered (render_firewall rules))
    replacing current desired
    pin_address prefix routed
    set_filtered_options
    filter_nic

  -- Without groups: the firewall is turned off before the rules go.
  unfoldable pub apply_none : List FirewallRule → Eff State (Unit {0})
  apply_none current = do set_options (("enable", "0") ∷ []); replacing current []

  unfoldable pub apply_listed :
      List FirewallRule → String → Instance → Tables → List String → Eff State (Unit {0})
  unfolding apply_groups apply_none
  apply_listed current routed i t [] = apply_none current
  apply_listed current routed i t (g ∷ groups) =
      apply_groups current i.ip_address routed (rules_of_groups (g ∷ groups) t)

  -- The groups are read after the instance. `routed` is the network that the site routes to it.
  unfoldable pub apply_firewall : String → Instance → Tables → Eff State (Unit {0})
  unfolding apply_listed
  apply_firewall routed i t = do
    refuse_if (is_none i.vmid) (fails_with "the instance has no VM")
    owned ← ask owns
    refuse_if (not owned) (fails_with "the VM does not belong to the instance")
    current ← ask listed
    apply_listed current routed i t (instance_groups i.id t)

  -- What applying came to: the row is recorded, or tried again in 30 seconds. The cut of the error's
  -- text to 500 bytes is left out.
  abbrev after_apply : ℕ → Instance → Outcome (Unit {0}) × State → Rows → Rows × State
  after_apply retry_at i (done u, s) rows =
      (record_firewall_applied i.id i.firewall_generation rows, s)
  after_apply retry_at i (fault (fails_with text), s) rows =
      (firewall_retry_later i.id text retry_at rows, s)
  after_apply retry_at i (fault other, s) rows = (firewall_retry_later i.id "" retry_at rows, s)

  -- workFirewallOnce after its claim, which gave `i`; `t` are the tables when the groups are read,
  -- and `rows` the instances when the outcome is written.
  unfoldable pub work_firewall : ℕ → String → Instance → Tables → Rows → State → Rows × State
  unfolding apply_firewall
  work_firewall retry_at routed i t rows s =
      after_apply retry_at i (apply_firewall routed i t s) rows
