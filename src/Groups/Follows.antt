-- ===== src/Groups/Follows.antt =====
-- The VM firewall of an instance is never taken to be up to date when it is not (writeFirewall and
-- workFirewallOnce of api/internal/compute/firewall.go).
use Prim.Native.Nat.{max}
use shake_cloud.Prelude.{
  find, All, find-All, find-passes, All-map, ℕ, ◌<◌, String, ◌≡◌, refl, sym, ap, ◌∙◌, subst, ◌≢◌,
  false, Option, some, List, arith,
}
use shake_cloud.Db.Instance.{Instance, has_id}
use shake_cloud.Firewall.Rule.{SecurityGroupRule, FirewallRule}
use shake_cloud.Firewall.Render.{render_firewall}
use shake_cloud.Db.Groups.{Tables, rules_of_groups, instance_groups}
use shake_cloud.Db.FirewallWork.{
  is_behind, applied, record_firewall_applied, firewall_retried, firewall_retry_later,
}
use shake_cloud.Groups.Wanted.{wanted}
use shake_cloud.Groups.Changes.{
  authorize_rules-Owes, revoke_rule-Owes, set_instance_security_groups-Owes,
}
use shake_cloud.Groups.Comings.{delete_security_group-Owes, create_security_group-Owes}
use shake_cloud.Groups.Behind.{
  Phase, idle, claimed_at, read_rules, written, World, with_instances, Step, authorizes, revokes,
  attaches_groups, creates_group, deletes_group, claims_firewall, reads, writes, records, fails,
  crashes, Steps, no_step, then_step, Follows, Settles, IsSettling,
}
use shake_cloud.Groups.Settles.{
  live_by_state, IsSettling-live, Owes-IsSettling, turned, claims-IsSettling,
}

-- While a worker is on the row, the row is behind.
Follows-behind :
    (p : Phase) (rules : List SecurityGroupRule) (on_vm : Option (List FirewallRule)) (i : Instance)
    → p ≢ idle
    → Follows p rules on_vm i
    → i.firewall_applied < i.firewall_generation
Follows-behind idle rules on_vm i busy h = absurd (busy refl)
Follows-behind (claimed_at n) rules on_vm i busy h = omega (arith, h.0, h.1)
Follows-behind (read_rules n read) rules on_vm i busy h = omega (arith, h.0, h.1)
Follows-behind (written n) rules on_vm i busy h = omega (arith, h.0, h.1)

-- A worker that stops leaves the row behind, whatever it left on the VM.
stopped-Settles :
    (k : String) (w w' : World) (i j : Instance)
    → w.phase ≢ idle
    → w'.phase ≡ idle
    → j.id ≡ i.id
    → j.state ≡ i.state
    → j.firewall_generation ≡ i.firewall_generation
    → j.firewall_applied ≡ i.firewall_applied
    → Settles k w i
    → Settles k w' j
stopped-Settles k w w' i j busy quiet id state g a h mine =
    let (live, follows) = h (rw id at mine) in
    let behind = Follows-behind w.phase (wanted k w.tables) w.on_vm i busy follows in
    (
      live_by_state i j state live,
      subst (λ p. Follows p (wanted k w'.tables) w'.on_vm j) (sym quiet)
          (omega arith, λ e. absurd (omega arith)),
    )

-- A change of the phase or the rules on the VM alone.
moved-IsSettling :
    (k : String) (w w' : World)
    → w'.tables ≡ w.tables
    → ((i : Instance) → Settles k w i → Settles k w' i)
    → IsSettling k w
    → IsSettling k w'
moved-IsSettling k w w' same step s = record {
  keyed = rw same s.keyed;
  rows_settle =
      subst (λ (t : Tables). All (Settles k w') t.instances) (sym same)
        (All-map {P = Settles k w} {Q = Settles k w'} w.tables.instances step s.rows_settle);
}

reads-IsSettling :
    (k : String) (w : World) (g : ℕ)
    → w.phase ≡ claimed_at g
    → IsSettling k w
    → IsSettling k (record w { phase = read_rules g (wanted k w.tables) })
reads-IsSettling k w g e s =
    moved-IsSettling k w _ refl
      (λ i h mine.
        let (live, follows) = h mine in
        let (x, y) = subst (λ p. Follows p (wanted k w.tables) w.on_vm i) e follows in
        (live, (x, y, λ _. refl)))
      s

writes-IsSettling :
    (k : String) (w : World) (g : ℕ) (rules : List SecurityGroupRule)
    → w.phase ≡ read_rules g rules
    → IsSettling k w
    → IsSettling k (record w { on_vm = render_firewall rules; phase = written g })
writes-IsSettling k w g rules e s =
    moved-IsSettling k w _ refl
      (λ i h mine.
        let (live, follows) = h mine in
        let (x, y, z) = subst (λ p. Follows p (wanted k w.tables) w.on_vm i) e follows in
        (live, (x, y, λ t. ap render_firewall (z t))))
      s

max_above : (a g : ℕ) → a < g → max a g ≡ g
max_above a g h = ground arith

records-IsSettling :
    (k : String) (w : World) (g : ℕ)
    → w.phase ≡ written g
    → IsSettling k w
    → IsSettling k (record w {
      tables = with_instances (record_firewall_applied k g w.tables.instances) w.tables;
      phase = idle;
    })
unfolding record_firewall_applied instance_groups rules_of_groups
records-IsSettling k w g e s =
    turned k k w _ (applied g) (λ i. refl) refl
      (λ i same h mine.
        let (live, follows) = h mine in
        let (x, y, z) = subst (λ p. Follows p (wanted k w.tables) w.on_vm i) e follows in
        let now_applied : max i.firewall_applied g ≡ g = max_above i.firewall_applied g x in
        (live, (rw now_applied y, λ t. z (sym now_applied ∙ t))))
      (λ i other h mine. cc (mine, other)) s

fails-IsSettling :
    (k : String) (w : World) (message : String) (next : ℕ) (left : Option (List FirewallRule))
    → w.phase ≢ idle
    → IsSettling k w
    → IsSettling k (record w {
      tables = with_instances (firewall_retry_later k message next w.tables.instances) w.tables;
      on_vm = left;
      phase = idle;
    })
unfolding firewall_retry_later
fails-IsSettling k w message next left busy s =
    turned k k w _ (firewall_retried message next) (λ i. refl) refl
      (λ i same h.
        stopped-Settles k w _ i (firewall_retried message next i) busy refl refl refl refl refl h)
      (λ i other h mine. cc (mine, other)) s

Step-IsSettling : (k : String) (w w' : World) → Step k w w' → IsSettling k w → IsSettling k w'
Step-IsSettling k w w'
      (authorizes now parse new_id group direction requests authorize audit g t h e) s =
    subst (IsSettling k) (sym e) (
      Owes-IsSettling k w t
        (authorize_rules-Owes k now parse new_id group direction requests authorize audit w.tables
          h)
        s)
Step-IsSettling k w w' (revokes now group rule authorize audit g t h e) s =
    subst (IsSettling k) (sym e)
      (Owes-IsSettling k w t (revoke_rule-Owes k now group rule authorize audit w.tables h) s)
Step-IsSettling k w w' (attaches_groups now fresh j ids authorize audit i t h e) s =
    subst (IsSettling k) (sym e) (
      Owes-IsSettling k w t
        (set_instance_security_groups-Owes k now fresh j ids authorize audit w.tables h) s)
Step-IsSettling k w w' (creates_group now fresh account name description audit g t new default h e)
      s =
    subst (IsSettling k) (sym e) (
      Owes-IsSettling k w t
        (create_security_group-Owes k now fresh account name description audit w.tables new default
          h)
        s)
Step-IsSettling k w w' (deletes_group group authorize audit t h e) s =
    subst (IsSettling k) (sym e) (
      Owes-IsSettling k w t
        (delete_security_group-Owes k group authorize audit w.tables
          (IsSettling-live k w w.tables.instances s.rows_settle) h)
        s)
Step-IsSettling k w w' (claims_firewall now lease locked i rows quiet mine h e) s =
    subst (IsSettling k) (sym e) (claims-IsSettling k w now lease locked quiet mine h s)
Step-IsSettling k w w' (reads g p e) s = subst (IsSettling k) (sym e) (reads-IsSettling k w g p s)
Step-IsSettling k w w' (writes g rules p e) s =
    subst (IsSettling k) (sym e) (writes-IsSettling k w g rules p s)
Step-IsSettling k w w' (records g p e) s =
    subst (IsSettling k) (sym e) (records-IsSettling k w g p s)
Step-IsSettling k w w' (fails message next left busy e) s =
    subst (IsSettling k) (sym e) (fails-IsSettling k w message next left busy s)
Step-IsSettling k w w' (crashes left busy e) s = subst (IsSettling k) (sym e) (
    moved-IsSettling k w _ refl (λ i h. stopped-Settles k w _ i i busy refl refl refl refl refl h)
      s)

Steps-IsSettling : (k : String) {w w' : World} → Steps k w w' → IsSettling k w → IsSettling k w'
Steps-IsSettling k no_step s = s
Steps-IsSettling k (then_step {w'} {w''} steps step) s =
    Step-IsSettling k w' w'' step (Steps-IsSettling k steps s)

-- From a state where no worker is on the instance, which is live and whose firewall is up to date or
-- marked as behind, any sequence of changes of groups and of steps of the firewall's worker, with
-- its failures and crashes, keeps this: when no worker is on the instance and its firewall is not
-- behind, the rules on its VM are the rendered rules of its groups as they are now.
pub firewall_follows :
    (k : String) (w w' : World) (i : Instance)
    → IsSettling k w
    → Steps k w w'
    → w'.phase ≡ idle
    → find (has_id k) w'.tables.instances ≡ some i
    → is_behind i ≡ false
    → w'.on_vm ≡ render_firewall (wanted k w'.tables)
firewall_follows k w w' i s steps quiet found level =
    let s' = Steps-IsSettling k steps s in
    let (live, follows) =
      find-All (Settles k w') (has_id k) w'.tables.instances s'.rows_settle found
        (find-passes (has_id k) w'.tables.instances found) in
    let (most, promise) = subst (λ p. Follows p (wanted k w'.tables) w'.on_vm i) quiet follows in
    promise (ground arith)
