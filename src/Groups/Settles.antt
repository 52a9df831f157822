-- ===== src/Groups/Settles.antt =====
-- Every step keeps what the firewall of an instance promises (writeFirewall and workFirewallOnce of
-- api/internal/compute/firewall.go).
use shake_cloud.Prelude.{
  Bool-cases, update_where, All, update_where-turns, ℕ, ◌+◌, String, ◌≡◌, refl, sym, ap, subst, ◌≢◌,
  inl, inr, Bool, true, false, Option, List, [], ◌∷◌, arith, eq_iff,
}
use shake_cloud.Result.{ok}
use shake_cloud.Db.Instance.{Instance, is_live, has_id}
use shake_cloud.Db.Instances.{Rows}
use shake_cloud.Db.Keys.{IsKeyed, find-only, update-IsKeyed}
use shake_cloud.Firewall.Rule.{SecurityGroupRule, FirewallRule}
use shake_cloud.Db.Groups.{Tables}
use shake_cloud.Db.FirewallWork.{claim_firewall_work}
use shake_cloud.Groups.Wanted.{wanted}
use shake_cloud.Groups.Owed.{Owes}
use shake_cloud.Groups.Comings.{IsLiveIn}
use shake_cloud.Groups.Due.{is_owed, fire_leased, claim_firewall_work-row}
use shake_cloud.Groups.Behind.{
  Phase, idle, claimed_at, read_rules, written, World, with_instances, Follows, Settles, IsSettling,
}

-- A generation further, nothing is promised of the rules.
Follows-further :
    (p : Phase) (rules rules' : List SecurityGroupRule) (on_vm : Option (List FirewallRule))
    (i j : Instance)
    → j.firewall_generation ≡ i.firewall_generation + 1
    → j.firewall_applied ≡ i.firewall_applied
    → Follows p rules on_vm i
    → Follows p rules' on_vm j
Follows-further idle rules rules' on_vm i j g a h =
    let (x, y) = h in (omega arith, λ e. absurd (omega arith))
Follows-further (claimed_at n) rules rules' on_vm i j g a h =
    let (x, y) = h in (omega arith, omega arith)
Follows-further (read_rules n read) rules rules' on_vm i j g a h =
    let (x, y, z) = h in (omega arith, omega arith, λ e. absurd (omega arith))
Follows-further (written n) rules rules' on_vm i j g a h =
    let (x, y, z) = h in (omega arith, omega arith, λ e. absurd (omega arith))

pub live_by_state : (i j : Instance) → j.state ≡ i.state → is_live i ≡ true → is_live j ≡ true
live_by_state i j e h = rw e h

pub IsSettling-live :
    (k : String) (w : World) (rows : Rows) → All (Settles k w) rows → IsLiveIn k rows
IsSettling-live k w [] h = tt
IsSettling-live k w (i ∷ rows) h = ((λ e. (h.0 e).0), IsSettling-live k w rows h.1)

pub Owes-IsSettling :
    (k : String) (w : World) (t : Tables)
    → Owes k w.tables t
    → IsSettling k w
    → IsSettling k (record w { tables = t })
Owes-IsSettling k w t o s = record {
  keyed =
      subst IsKeyed (sym o.rows) (update-IsKeyed o.hit o.change w.tables.instances o.key s.keyed);
  rows_settle = subst (All (Settles k (record w { tables = t }))) (sym o.rows) (
      update_where-turns (Settles k w) (Settles k (record w { tables = t })) o.hit o.change
        w.tables.instances
        (λ i hit h same.
          let (live, follows) = h (rw (o.key i) at same) in
          (
            live_by_state i (o.change i) (o.state_same i) live,
            Follows-further w.phase (wanted k w.tables) (wanted k t) w.on_vm i (o.change i)
                (o.further i) (o.as_applied i) follows,
          ))
        (λ i missed h same.
          let (live, follows) = h same in
          (
            live,
            subst (λ rules. Follows w.phase rules w.on_vm i) (sym (o.others i same live missed))
                follows,
          ))
        s.rows_settle);
}

-- A write of the row of `k` alone.
pub turned :
    (k l : String) (w w' : World) (f : Instance → Instance)
    → ((i : Instance) → (f i).id ≡ i.id)
    → w'.tables.instances ≡ update_where (has_id l) f w.tables.instances
    → ((i : Instance) → has_id l i ≡ true → Settles k w i → Settles k w' (f i))
    → ((i : Instance) → has_id l i ≡ false → Settles k w i → Settles k w' i)
    → IsSettling k w
    → IsSettling k w'
turned k l w w' f key rows hit missed s = record {
  keyed = subst IsKeyed (sym rows) (update-IsKeyed (has_id l) f w.tables.instances key s.keyed);
  rows_settle = subst (All (Settles k w')) (sym rows) (
      update_where-turns (Settles k w) (Settles k w') (has_id l) f w.tables.instances hit missed
        s.rows_settle);
}

owed_behind :
    (now : ℕ) (locked : String → Bool) (c : Instance)
    → is_owed now locked c ≡ true
    → c.firewall_generation ≢ c.firewall_applied
owed_behind now locked c h e = ground arith

-- Both rows have the key `k`.
same_id :
    (k : String) (i c : Instance) → has_id k i ≡ true → has_id k c ≡ true → has_id c.id i ≡ true
same_id k i c h g = ground (arith, eq_iff i.id k, eq_iff c.id k, eq_iff i.id c.id)

claimed_row :
    (k : String) (w : World) (rows : Rows) (i c x : Instance) (now lease : ℕ)
    → w.phase ≡ idle
    → c.firewall_generation ≢ c.firewall_applied
    → i.firewall_generation ≡ c.firewall_generation
    → (has_id c.id x ≡ true → x ≡ c)
    → has_id c.id x ≡ true
    → Settles k w x
    → Settles k
        (record w {
          tables = with_instances rows w.tables;
          phase = claimed_at i.firewall_generation;
        })
        (fire_leased now lease x)
claimed_row k w rows i c x now lease e behind generation only same h mine =
    let (live, follows) = h mine in
    let (most, promise) = subst (λ p. Follows p (wanted k w.tables) w.on_vm x) e follows in
    let g : x.firewall_generation ≡ c.firewall_generation =
      ap (λ (y : Instance). y.firewall_generation) (only same) in
    let a : x.firewall_applied ≡ c.firewall_applied =
      ap (λ (y : Instance). y.firewall_applied) (only same) in
    (live, (ground arith, ground arith))

claimed_rows :
    (k : String) (w : World) (rows : Rows) (i c : Instance) (now lease : ℕ)
    → w.phase ≡ idle
    → has_id k c ≡ true
    → c.firewall_generation ≢ c.firewall_applied
    → i.firewall_generation ≡ c.firewall_generation
    → (xs : Rows) → All (λ x. has_id c.id x ≡ true → x ≡ c) xs
    → All (Settles k w) xs
    → All
        (Settles k (record w {
          tables = with_instances rows w.tables;
          phase = claimed_at i.firewall_generation;
        }))
        (update_where (has_id c.id) (fire_leased now lease) xs)
claimed_rows k w rows i c now lease e mine behind generation [] only h = tt
claimed_rows k w rows i c now lease e mine behind generation (x ∷ xs) only h =
    let rest = claimed_rows k w rows i c now lease e mine behind generation xs only.1 h.1 in
    elim (Bool-cases (has_id c.id x)) [
      | inl q ↦ (rw q (claimed_row k w rows i c x now lease e behind generation only.0 q h.0), rest)
      | inr q ↦ (rw q (λ has. cc (same_id k x c has mine, q)), rest)
    ]

pub claims-IsSettling :
    (k : String) (w : World) (now lease : ℕ) (locked : String → Bool) {i : Instance} {rows : Rows}
    → w.phase ≡ idle
    → has_id k i ≡ true
    → claim_firewall_work now lease locked w.tables.instances ≡ ok (i, rows)
    → IsSettling k w
    → IsSettling k (record w {
      tables = with_instances rows w.tables;
      phase = claimed_at i.firewall_generation;
    })
claims-IsSettling k w now lease locked {i} {rows} e h claimed s =
    let (c, found, owed, row, all) =
      claim_firewall_work-row now lease locked w.tables.instances s.keyed claimed in
    let only = find-only c.id w.tables.instances s.keyed found in
    let mine : has_id k c ≡ true = rw row at h in
    let behind = owed_behind now locked c owed in
    let generation : i.firewall_generation ≡ c.firewall_generation =
      ap (λ (x : Instance). x.firewall_generation) row in
    record {
      keyed = subst IsKeyed (sym all) (
          update-IsKeyed (has_id c.id) (fire_leased now lease) w.tables.instances (λ x. refl)
            s.keyed);
      rows_settle =
          subst
            (All (
              Settles k (record w {
                tables = with_instances rows w.tables;
                phase = claimed_at i.firewall_generation;
              })))
            (sym all)
            (claimed_rows k w rows i c now lease e mine behind generation w.tables.instances only
              s.rows_settle);
    }
