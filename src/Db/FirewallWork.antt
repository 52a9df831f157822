-- ===== src/Db/FirewallWork.antt =====
-- The work that is owed to VM firewalls (ClaimFirewallWork, RecordFirewallApplied and
-- FirewallRetryLater of api/internal/db/securitygroups.go).
use Prim.Native.String.{compare}
use text.Mathlib.Text.{is_lt}
use Prim.Native.Nat.{max}
-- The VM firewall is behind the groups of the instance.
use shake_cloud.Prelude.{
  ◌||◌, ltb, leb, ◌==◌, if◌then◌else◌, select, update_where, ℕ, ◌+◌, String, Bool, ◌&&◌, not,
  Option, none, some, [], ◌∷◌,
}
use shake_cloud.Result.{not_found, Result, err}
use shake_cloud.Db.Instance.{launch, terminate, Instance, is_live, same_action, is_none, has_id}
use shake_cloud.Db.Instances.{Rows, update_returning, lease_free}

abbrev pub is_behind : Instance → Bool
is_behind i = not (i.firewall_generation == i.firewall_applied)

-- `coalesce(pending_action, '') NOT IN ('launch', 'terminate')`
abbrev pub is_between : Instance → Bool
is_between i =
    not (same_action i.pending_action (some launch))
    && not (same_action i.pending_action (some terminate))

abbrev pub firewall_is_due : ℕ → Instance → Bool
firewall_is_due now i =
    is_behind i
    && i.vm_created
    && not (is_none i.vmid)
    && is_live i
    && is_between i
    && leb i.firewall_next_attempt_at now
    && lease_free now i.firewall_lease_until

abbrev pub firewall_before : Instance → Instance → Bool
firewall_before a b =
    ltb a.firewall_next_attempt_at b.firewall_next_attempt_at
    || (a.firewall_next_attempt_at == b.firewall_next_attempt_at && is_lt (compare a.id b.id))

unfoldable pub first_behind : Rows → Option Instance
first_behind [] = none
first_behind (i ∷ rows) = elim (first_behind rows) [
  | none ↦ some i
  | some j ↦ if firewall_before j i then some j else some i
]

-- `locked` are the rows that other transactions hold (SKIP LOCKED).
unfoldable pub claim_firewall_work : ℕ → ℕ → (String → Bool) → Rows → Result (Instance × Rows)
unfolding first_behind
claim_firewall_work now lease locked rows =
    elim (first_behind (select (λ i. firewall_is_due now i && not (locked i.id)) rows)) [
      | none ↦ err not_found
      | some i ↦
          update_returning i.id (λ j. record j { firewall_lease_until = some (now + lease) }) rows
    ]

abbrev pub applied : ℕ → Instance → Instance
applied generation i = record i {
  firewall_applied = max i.firewall_applied generation;
  firewall_last_error = "";
  firewall_lease_until = none;
}

unfoldable pub record_firewall_applied : String → ℕ → Rows → Rows
record_firewall_applied k generation = update_where (has_id k) (applied generation)

abbrev pub firewall_retried : String → ℕ → Instance → Instance
firewall_retried message next i = record i {
  firewall_last_error = message;
  firewall_next_attempt_at = next;
  firewall_lease_until = none;
}

unfoldable pub firewall_retry_later : String → String → ℕ → Rows → Rows
firewall_retry_later k message next = update_where (has_id k) (firewall_retried message next)
